-- ===== src/LinkedLists.antt =====
-- StackLinkedList and SinglyLinkedList of src/AllocatorInterface.h, for nodes that live at their
-- addresses: `next` is the member of every node. The operations do not touch the data.
pub mod Chains
mod Tests
use memory_allocators.Base.{
  ℕ, Bool, true, false, not, Ptr, null, ◌==◌, if◌then◌else◌, Outcome, ok, ◌>>=◌, ◌>>◌, defined,
  update,
}

pub record LinkedList : Type 0 where
  pub head : Ptr
  pub next : Ptr → Ptr

-- StackLinkedList::push
unfoldable pub push : Ptr → LinkedList → Outcome LinkedList
push new_node s = do
  defined (not (new_node == null))
  ok (record { head = new_node; next = update s.next new_node s.head })

-- StackLinkedList::pop
unfoldable pub pop : LinkedList → Ptr × LinkedList
pop s = if s.head == null then (null, s) else (s.head, record s { head = s.next s.head })

-- SinglyLinkedList::insert
unfoldable pub insert : Ptr → Ptr → LinkedList → Outcome LinkedList
insert previous_node new_node s = do
  defined (not (new_node == null))
  ok (
      if previous_node == null
      then record {
        head = new_node;
        next = update s.next new_node (if not (s.head == null) then s.head else null);
      }
      else if s.next previous_node == null
      then record s { next = update (update s.next previous_node new_node) new_node null }
      else record s {
        next = update (update s.next new_node (s.next previous_node)) previous_node new_node;
      })

-- SinglyLinkedList::remove
unfoldable pub remove : Ptr → Ptr → LinkedList → Outcome LinkedList
remove previous_node delete_node s = do
  defined (not (delete_node == null))
  ok (
      if previous_node == null
      then record s { head = if s.next delete_node == null then null else s.next delete_node }
      else record s { next = update s.next previous_node (s.next delete_node) })
