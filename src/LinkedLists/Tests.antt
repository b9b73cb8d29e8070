-- ===== src/LinkedLists/Tests.antt =====
-- The operations of the linked lists on the nodes 16 and 32, and the theorems there.
use memory_allocators.Base.{◌≡◌, refl, arith, [], ◌∷◌, ok, null, update}
use memory_allocators.LinkedLists.{LinkedList, insert}
use memory_allocators.LinkedLists.Chains.{Chain, insert-Chain}

abbrev two : LinkedList
two = record { head = 16; next = update (λ _. null) 16 32 }

two-Chain : Chain two.next two.head (16 ∷ 32 ∷ [])
unfolding update
two-Chain = (refl, omega arith, (refl, omega arith, refl))

insert-Chain_example :
    (s : LinkedList) × (insert 16 48 two ≡ ok s) × Chain s.next s.head (16 ∷ 48 ∷ 32 ∷ [])
insert-Chain_example =
    insert-Chain two [] 16 48 (32 ∷ []) two-Chain ((omega arith, tt), (tt, tt)) (omega arith)
      (omega arith, (omega arith, tt))
