-- ===== src/Heap/Laws.antt =====
-- `heappush` keeps the ascending order, and adds the item to the others.
use peer_q.Prelude.{
  ◌+◌, ◌≡◌, refl, true, List, [], ◌∷◌, arith, Ordered, less, at_most, at_most_trans, length, All,
  Bool-cases, inl, inr,
}
use peer_q.Heap.{heappush}

module _ {ℓ κ} {A : Type ℓ} {K : Type κ} ⦃o : Ordered K⦄ (key : A → K) where
  -- Every item is at most each item behind it.
  abbrev pub IsHeap : List A → Type 0
  IsHeap [] = Unit
  IsHeap (x ∷ xs) = All (λ y. at_most (key x) (key y) ≡ true) xs × IsHeap xs

  pub All-heappush :
      (P : A → Type 0) (x : A) (xs : List A) → P x → All P xs → All P (heappush key x xs)
  unfolding heappush
  All-heappush P x [] p h = (p, tt)
  All-heappush P x (y ∷ ys) p h = elim (Bool-cases (less (key x) (key y))) [
    | inl e ↦ rw e (p, h)
    | inr n ↦ rw n (h.0, All-heappush P x ys p h.1)
  ]

  pub length-heappush : (x : A) (xs : List A) → length (heappush key x xs) ≡ length xs + 1
  unfolding heappush
  length-heappush x [] = refl
  length-heappush x (y ∷ ys) = ground (arith, length-heappush x ys)

  All-below :
      (x y : A) (xs : List A)
      → at_most (key x) (key y) ≡ true
      → All (λ z. at_most (key y) (key z) ≡ true) xs
      → All (λ z. at_most (key x) (key z) ≡ true) xs
  All-below x y [] e h = tt
  All-below x y (z ∷ zs) e h = (at_most_trans (key x) (key y) (key z) e h.0, All-below x y zs e h.1)

  pub heappush-IsHeap : (x : A) (xs : List A) → IsHeap xs → IsHeap (heappush key x xs)
  unfolding heappush
  heappush-IsHeap x [] h = (tt, tt)
  heappush-IsHeap x (y ∷ ys) h = elim (Bool-cases (less (key x) (key y))) [
    | inl e ↦
        let le : at_most (key x) (key y) ≡ true = ground arith in
        rw e ((le, All-below x y ys le h.0), h)
    | inr n ↦
        let le : at_most (key y) (key x) ≡ true = ground (arith, o.mirror (key x) (key y)) in
        rw n
          (All-heappush (λ z. at_most (key y) (key z) ≡ true) x ys le h.0, heappush-IsHeap x ys h.1)
  ]
