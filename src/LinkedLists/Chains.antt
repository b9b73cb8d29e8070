-- ===== src/LinkedLists/Chains.antt =====
-- The linked lists of src/AllocatorInterface.h hold the lists that their operations promise.
use memory_allocators.Base.{
  ◌≡◌, ◌≢◌, refl, sym, ◌∙◌, ap, arith, inl, inr, Bool-cases, List, [], ◌∷◌, ◌++◌, Ptr, null, ◌==◌,
  ==_false, ok, update, update_self, update_ne, fun_ext,
}
use native.Mathlib.Decide.{ℕ_discrete}
use memory_allocators.LinkedLists.{LinkedList, push, pop, insert, remove}

-- The nodes from `p` on are `ns`.
abbrev pub Chain : (Ptr → Ptr) → Ptr → List Ptr → Type 0
Chain next p [] = p ≡ null
Chain next p (n ∷ ns) = (p ≡ n) × (n ≢ null) × Chain next (next n) ns

-- `m` is none of the nodes.
abbrev pub Fresh : Ptr → List Ptr → Type 0
Fresh m [] = Unit {0}
Fresh m (n ∷ ns) = (n ≢ m) × Fresh m ns

abbrev pub Distinct : List Ptr → Type 0
Distinct [] = Unit {0}
Distinct (n ∷ ns) = Fresh n ns × Distinct ns

Chain-update :
    (next : Ptr → Ptr) (m v p : Ptr) (ns : List Ptr)
    → Fresh m ns
    → Chain next p ns
    → Chain (update next m v) p ns
Chain-update next m v p [] f c = c
Chain-update next m v p (n ∷ ns) f c =
    (c.0, c.1, Chain-update next m v (update next m v n) ns f.1 (rw (update_ne next m v n f.0) c.2))

-- What lies behind a node
Chain-behind :
    (next : Ptr → Ptr) (p : Ptr) (xs : List Ptr) (q : Ptr) (ys : List Ptr)
    → Chain next p (xs ++ q ∷ ys)
    → (q ≢ null) × Chain next (next q) ys
Chain-behind next p [] q ys c = (c.1, c.2)
Chain-behind next p (x ∷ xs) q ys c = Chain-behind next (next x) xs q ys c.2

Fresh-middle :
    (m : Ptr) (xs : List Ptr) (q : Ptr) (ys : List Ptr)
    → Fresh m (xs ++ q ∷ ys)
    → (q ≢ m) × Fresh m ys
Fresh-middle m [] q ys f = (f.0, f.1)
Fresh-middle m (x ∷ xs) q ys f = Fresh-middle m xs q ys f.1

Distinct-behind : (xs : List Ptr) (q : Ptr) (ys : List Ptr) → Distinct (xs ++ q ∷ ys) → Fresh q ys
Distinct-behind [] q ys d = d.0
Distinct-behind (x ∷ xs) q ys d = Distinct-behind xs q ys d.1

-- To redirect a node replaces what lies behind it.
Chain-redirect :
    (next : Ptr → Ptr) (v p : Ptr) (xs : List Ptr) (q : Ptr) (ys zs : List Ptr)
    → Chain next p (xs ++ q ∷ ys)
    → Distinct (xs ++ q ∷ ys)
    → Chain next v zs
    → Fresh q zs
    → Chain (update next q v) p (xs ++ q ∷ zs)
Chain-redirect next v p [] q ys zs c d c' f =
    (c.0, c.1, rw (update_self next q v) (Chain-update next q v v zs f c'))
Chain-redirect next v p (x ∷ xs) q ys zs c d c' f =
    let apart : x ≢ q = λ e. (Fresh-middle x xs q ys d.0).0 (sym e) in
    (
      c.0,
      c.1,
      rw (update_ne next q v x apart) (Chain-redirect next v (next x) xs q ys zs c.2 d.1 c' f),
    )

-- In a list of distinct nodes, `remove` of the node behind a given one: it succeeds, and the list
-- holds the other nodes in their order.
pub remove-Chain :
    (s : LinkedList) (xs : List Ptr) (q n : Ptr) (ys : List Ptr)
    → Chain s.next s.head (xs ++ q ∷ n ∷ ys)
    → Distinct (xs ++ q ∷ n ∷ ys)
    → (s' : LinkedList) × (remove q n s ≡ ok s') × Chain s'.next s'.head (xs ++ q ∷ ys)
unfolding remove
remove-Chain s xs q n ys c d =
    let (held, (_, there, rest)) = Chain-behind s.next s.head xs q (n ∷ ys) c in
    (
      record s { next = update s.next q (s.next n) },
      rw (==_false n null there, ==_false q null held) refl,
      Chain-redirect s.next (s.next n) s.head xs q (n ∷ ys) ys c d rest
          (Distinct-behind xs q (n ∷ ys) d).1,
    )

-- `push` of a node that is not null and not in the list succeeds and puts it in front of the others;
-- `pop` behind it gives the node back, and the list holds the nodes of before.
pub pop-push :
    (s : LinkedList) (n : Ptr) (ns : List Ptr)
    → Chain s.next s.head ns
    → n ≢ null
    → Fresh n ns
    → (s' : LinkedList) × (push n s ≡ ok s')
      × Chain s'.next s'.head (n ∷ ns)
      × ((pop s').0 ≡ n)
      × Chain (pop s').1.next (pop s').1.head ns
unfolding push pop
pop-push s n ns c there f =
    let behind = Chain-update s.next n s.head s.head ns f c in
    (
      record { head = n; next = update s.next n s.head },
      rw (==_false n null there) refl,
      (refl, there, rw (update_self s.next n s.head) behind),
      rw (==_false n null there) refl,
      rw (==_false n null there, update_self s.next n s.head) behind,
    )

update-update :
    (f : Ptr → Ptr) (q a n b : Ptr) → n ≢ q → update (update f q a) n b ≡ update (update f n b) q a
update-update f q a n b apart = fun_ext (λ x. elim (ℕ_discrete x n) [
  | yes e ↦ rw e (
      update_self (update f q a) n b
      ∙ sym (update_self f n b)
      ∙ sym (update_ne (update f n b) q a n apart))
  | no e ↦ elim (ℕ_discrete x q) [
    | yes e' ↦
        let other : q ≢ n = λ d. apart (sym d) in
        rw e' (
          update_ne (update f q a) n b q other
          ∙ update_self f q a
          ∙ sym (update_self (update f n b) q a))
    | no e' ↦
        update_ne (update f q a) n b x e
        ∙ update_ne f q a x e'
        ∙ sym (update_ne (update f n b) q a x e' ∙ update_ne f n b x e)
  ]
])

-- The two branches behind a node write the same.
insert_behind :
    (s : LinkedList) (q n : Ptr)
    → q ≢ null
    → n ≢ null
    → n ≢ q
    → insert q n s ≡ ok (record s { next = update (update s.next n (s.next q)) q n })
unfolding insert
insert_behind s q n held there apart = elim (Bool-cases (s.next q == null)) [
  | inr middle ↦ rw (==_false n null there, ==_false q null held, middle) refl
  | inl last ↦
      let e : null ≡ s.next q = ground (arith, last) in
      rw (==_false n null there, ==_false q null held, last)
        (ap (λ f. ok (record s { next = f }))
          (update-update s.next q n n null apart ∙ ap (λ v. update (update s.next n v) q n) e))
]

-- In a list of distinct nodes, `insert` of a new node behind a given one, the last or not: it
-- succeeds, and the list holds the new node there and the others in their order.
pub insert-Chain :
    (s : LinkedList) (xs : List Ptr) (q n : Ptr) (ys : List Ptr)
    → Chain s.next s.head (xs ++ q ∷ ys)
    → Distinct (xs ++ q ∷ ys)
    → n ≢ null
    → Fresh n (xs ++ q ∷ ys)
    → (s' : LinkedList) × (insert q n s ≡ ok s') × Chain s'.next s'.head (xs ++ q ∷ n ∷ ys)
insert-Chain s xs q n ys c d there f =
    let (held, rest) = Chain-behind s.next s.head xs q ys c in
    let (other, above) = Fresh-middle n xs q ys f in
    let apart : n ≢ q = λ e. other (sym e) in
    let written : Ptr → Ptr = update s.next n (s.next q) in
    let new_rest = Chain-update s.next n (s.next q) (s.next q) ys above rest in
    (
      record s { next = update written q n },
      insert_behind s q n held there apart,
      Chain-redirect written n s.head xs q ys (n ∷ ys)
          (Chain-update s.next n (s.next q) s.head (xs ++ q ∷ ys) f c) d
          (refl, there, rw (update_self s.next n (s.next q)) new_rest)
          (apart, Distinct-behind xs q ys d),
    )
