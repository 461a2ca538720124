-- ===== src/Consensus/Clock/Order.antt =====
-- `VectorClock.compare` decides the pointwise order of the counters, and `merge` is the join of it.
use peer_q.Prelude.{
  ◌≤◌, ◌≡◌, refl, Str, Bool, true, false, ◌↔◌, List, [], ◌∷◌, arith, leb, le→leb, every, ◌==◌,
  ==_iff, Bool-cases, inl, inr, str_ordered, subst, sym,
}
use peer_q.Prelude.Dict.{member}
use peer_q.Consensus.Clock.{
  VectorClock, ClockComparison, before, after, equal, concurrent, get, all_keys, merge, compare,
}
use peer_q.Consensus.Clock.Laws.{get-not_all_keys, get-merge}

infix 50 ◌⊑◌
-- Every counter of `a` is at most that of `b`.
abbrev pub ◌⊑◌ : VectorClock → VectorClock → Type 0
◌⊑◌ a b = (p : Str) → get a p ≤ get b p

-- The clocks have the same counters: Python's equality of the two dicts, which forgets their order.
abbrev pub SameClock : VectorClock → VectorClock → Type 0
SameClock a b = (p : Str) → get a p ≡ get b p

module _ (test : Str → Bool) where
  every-member :
      (ks : List Str) (p : Str) → every test ks ≡ true → member p ks ≡ true → test p ≡ true
  unfolding every member
  every-member [] p h m = ground arith
  every-member (k ∷ ks) p h m = ground (
    arith,
    every-member ks p,
    λ (e : (p == k) ≡ true). subst (λ x. test x ≡ test k) (sym ((==_iff p k).0 e)) refl,
  )

  every_of_all : (ks : List Str) → ((p : Str) → test p ≡ true) → every test ks ≡ true
  unfolding every
  every_of_all [] h = refl
  every_of_all (k ∷ ks) h = ground (arith, h k, every_of_all ks h)

module _ (a b : VectorClock) where
  abbrev leq_test : Str → Bool
  leq_test k = leb (get a k) (get b k)

  abbrev geq_test : Str → Bool
  geq_test k = leb (get b k) (get a k)

  leq_iff : (every leq_test (all_keys a b) ≡ true) ↔ (a ⊑ b)
  leq_iff = (
    λ h p. ground (arith, get-not_all_keys a b p, every-member leq_test (all_keys a b) p h),
    λ h. every_of_all leq_test (all_keys a b) (λ p. le→leb (get a p) (get b p) (h p)),
  )

  geq_iff : (every geq_test (all_keys a b) ≡ true) ↔ (b ⊑ a)
  geq_iff = (
    λ h p. ground (arith, get-not_all_keys a b p, every-member geq_test (all_keys a b) p h),
    λ h. every_of_all geq_test (all_keys a b) (λ p. le→leb (get b p) (get a p) (h p)),
  )

-- What each answer of `compare` says of the pointwise order.
abbrev pub Compares : ClockComparison → VectorClock → VectorClock → Type 0
Compares equal a b = (a ⊑ b) × (b ⊑ a)
Compares before a b = (a ⊑ b) × ¬ (b ⊑ a)
Compares after a b = (b ⊑ a) × ¬ (a ⊑ b)
Compares concurrent a b = (¬ (a ⊑ b)) × ¬ (b ⊑ a)

Compares-unique :
    (a b : VectorClock) (q r : ClockComparison) → Compares q a b → Compares r a b → q ≡ r
Compares-unique a b equal equal h k = refl
Compares-unique a b before before h k = refl
Compares-unique a b after after h k = refl
Compares-unique a b concurrent concurrent h k = refl
Compares-unique a b equal before h k = absurd (k.1 h.1)
Compares-unique a b equal after h k = absurd (k.1 h.0)
Compares-unique a b equal concurrent h k = absurd (k.0 h.0)
Compares-unique a b before equal h k = absurd (h.1 k.1)
Compares-unique a b before after h k = absurd (h.1 k.0)
Compares-unique a b before concurrent h k = absurd (k.0 h.0)
Compares-unique a b after equal h k = absurd (h.1 k.0)
Compares-unique a b after before h k = absurd (h.1 k.0)
Compares-unique a b after concurrent h k = absurd (k.1 h.0)
Compares-unique a b concurrent equal h k = absurd (h.0 k.0)
Compares-unique a b concurrent before h k = absurd (h.0 k.0)
Compares-unique a b concurrent after h k = absurd (h.1 k.0)

refuted {ℓ} : {A : Type ℓ} {t : Bool} → (t ≡ true) ↔ A → t ≡ false → ¬ A
refuted e h a = cc (e.1 a)

compare-Compares : (a b : VectorClock) → Compares (compare a b) a b
unfolding compare
compare-Compares a b = elim (Bool-cases (every (leq_test a b) (all_keys a b))) [
  | inl x ↦ elim (Bool-cases (every (geq_test a b) (all_keys a b))) [
    | inl y ↦ rw (x, y) ((leq_iff a b).0 x, (geq_iff a b).0 y)
    | inr y ↦ rw (x, y) ((leq_iff a b).0 x, refuted (geq_iff a b) y)
  ]
  | inr x ↦ elim (Bool-cases (every (geq_test a b) (all_keys a b))) [
    | inl y ↦ rw (x, y) ((geq_iff a b).0 y, refuted (leq_iff a b) x)
    | inr y ↦ rw (x, y) (refuted (leq_iff a b) x, refuted (geq_iff a b) y)
  ]
]

-- `compare` answers `r` exactly when `r` describes the pointwise order of the two clocks: equal
-- when all counters agree, before or after when one clock is below the other and not conversely,
-- concurrent when neither is below the other.
pub compare_iff : (a b : VectorClock) (r : ClockComparison) → (compare a b ≡ r) ↔ Compares r a b
compare_iff a b r = (
  λ e. subst (λ q. Compares q a b) e (compare-Compares a b),
  Compares-unique a b (compare a b) r (compare-Compares a b),
)

-- A merge is the least upper bound of its two clocks in the pointwise order.
pub merge_join : (a b c : VectorClock) → (merge a b ⊑ c) ↔ ((a ⊑ c) × (b ⊑ c))
merge_join a b c = (
  λ h. (λ p. omega (arith, get-merge a b p, h p), λ p. omega (arith, get-merge a b p, h p)),
  λ h p. omega (arith, get-merge a b p, h.0 p, h.1 p),
)

-- Merging clocks is commutative, associative and idempotent, up to the order of the dict.
pub merge_semilattice :
    (a b c : VectorClock)
    → SameClock (merge a b) (merge b a)
      × SameClock (merge a (merge b c)) (merge (merge a b) c)
      × SameClock (merge a a) a
merge_semilattice a b c = (
  λ p. omega (arith, get-merge a b p, get-merge b a p),
  λ p. omega (
    arith,
    get-merge a (merge b c) p,
    get-merge b c p,
    get-merge (merge a b) c p,
    get-merge a b p,
  ),
  λ p. omega (arith, get-merge a a p),
)
