-- ===== src/Consensus/Clock/Laws.antt =====
-- What each operation of `VectorClock` does to the counter of every peer.
use peer_q.Prelude.{
  ℕ, ◌+◌, ◌<◌, max, ◌≡◌, refl, ap, Str, Bool, true, false, not, List, [], ◌∷◌, ◌++◌, map, arith,
  ltb, if◌then◌else◌, select, All, length, length-select-le, ◌≤◌, ◌==◌, ==_iff, str_ordered,
}
use peer_q.Prelude.Dict.{Dict, lookup, insert, member, keys, lookup-insert, All-insert}
use peer_q.Consensus.Clock.{VectorClock, counter, vector_clock, get, increment, all_keys, merge}

-- No counter of the clock is zero, as the constructor leaves it.
abbrev pub IsNormal : VectorClock → Type 0
IsNormal c = All (λ e. 0 < e.1) c.clock

pub vector_clock-IsNormal : (d : Dict Str ℕ) → IsNormal (vector_clock d)
unfolding vector_clock
vector_clock-IsNormal [] = tt
vector_clock-IsNormal ((k, v) ∷ d) = ground (arith, vector_clock-IsNormal d)

-- The constructor keeps a dict that has no zero.
pub select_id : (d : Dict Str ℕ) → All (λ e. 0 < e.1) d → select (λ e. ltb 0 e.1) d ≡ d
unfolding select
select_id [] h = refl
select_id ((k, v) ∷ d) h = ground (arith, select_id d h.1)

-- An increment adds one to the counter of its peer and leaves every other counter.
pub get-increment :
    (c : VectorClock) (p q : Str)
    → IsNormal c
    → get (increment c p) q ≡ (if p == q then get c p + 1 else get c q)
unfolding get increment
get-increment c p q h =
    let next : ℕ = counter (lookup p c.clock) + 1 in
    let kept : All (λ e. 0 < e.1) (insert p next c.clock) =
      All-insert (λ e. 0 < e.1) p next c.clock (omega arith) h in
    rw (select_id (insert p next c.clock) kept) (ground (arith, lookup-insert p q next c.clock))

-- A dict built from a function of its keys has that function's value at each of them.
get-tabulate :
    (f : Str → ℕ) (ks : List Str) (p : Str)
    → get (vector_clock (map (λ k. (k, f k)) ks)) p ≡ (if member p ks then f p else 0)
unfolding get vector_clock select lookup member
get-tabulate f [] p = refl
get-tabulate f (k ∷ ks) p = ground (
  arith,
  get-tabulate f ks p,
  ==_iff p k,
  ==_iff k p,
  λ (e : (p == k) ≡ true). ap f ((==_iff p k).0 e),
)

member-append :
    (p : Str) (xs ys : List Str) → member p (xs ++ ys) ≡ (if member p xs then true else member p ys)
unfolding member
member-append p [] ys = refl
member-append p (x ∷ xs) ys = ground (arith, member-append p xs ys)

member-select :
    (p : Str) (test : Str → Bool) (xs : List Str)
    → member p (select test xs) ≡ (if test p then member p xs else false)
unfolding member select
member-select p test [] = ground arith
member-select p test (x ∷ xs) = ground (
  arith,
  member-select p test xs,
  ==_iff p x,
  λ (e : (p == x) ≡ true). ap test ((==_iff p x).0 e),
)

get-absent : (p : Str) (d : Dict Str ℕ) → member p (keys d) ≡ false → counter (lookup p d) ≡ 0
unfolding lookup member
get-absent p [] h = refl
get-absent p ((k, v) ∷ d) h = ground (arith, get-absent p d, ==_iff p k, ==_iff k p)

-- A key outside of `all_keys` has no counter in either clock.
pub get-not_all_keys :
    (a b : VectorClock) (p : Str) → member p (all_keys a b) ≡ false → (get a p ≡ 0) × (get b p ≡ 0)
unfolding get all_keys
get-not_all_keys a b p h = ground (
  arith,
  member-append p (keys a.clock) (select (λ k. not (member k (keys a.clock))) (keys b.clock)),
  member-select p (λ k. not (member k (keys a.clock))) (keys b.clock),
  get-absent p a.clock,
  get-absent p b.clock,
)

-- A merge holds the greater counter of every peer.
pub get-merge : (a b : VectorClock) (p : Str) → get (merge a b) p ≡ max (get a p) (get b p)
unfolding merge
get-merge a b p =
    ground
      (arith, get-tabulate (λ k. max (get a k) (get b k)) (all_keys a b) p, get-not_all_keys a b p)

pub merge-IsNormal : (a b : VectorClock) → IsNormal (merge a b)
unfolding merge
merge-IsNormal a b = vector_clock-IsNormal (map (λ k. (k, max (get a k) (get b k))) (all_keys a b))

pub increment-IsNormal : (a : VectorClock) (p : Str) → IsNormal (increment a p)
unfolding increment
increment-IsNormal a p = vector_clock-IsNormal (insert p (counter (lookup p a.clock) + 1) a.clock)

pub length-vector_clock : (d : Dict Str ℕ) → length (vector_clock d).clock ≤ length d
unfolding vector_clock
length-vector_clock d = length-select-le (λ e. ltb 0 e.1) d
