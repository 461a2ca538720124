-- ===== src/Prelude/Order.antt =====
-- Python's `<`, `<=` and `==` on the values that the program compares: a comparison into
-- `Ordering` with the laws of a strict total order, for numbers, texts (code point by code
-- point), tuples and optional values.
use Prim.Native.Nat.{Ordering}
use Prim.Native.Nat.Ordering.{lt, eq, gt}
use mathlib.Core.Path.{◌≡◌}
use mathlib.Core.Bool.{Bool, true, false}
use mathlib.Core.Logic.{◌↔◌, ◌⊎◌}
use native.Mathlib.Omega.{arith}

abbrev pub swap : Ordering → Ordering
swap lt = gt
swap eq = eq
swap gt = lt

-- The comparison of the rest decides where the first parts are equal.
abbrev pub or_else : Ordering → Ordering → Ordering
or_else lt _ = lt
or_else eq o = o
or_else gt _ = gt

pub record Total {ℓ} {A : Type ℓ} (cmp : A → A → Ordering) : Type ℓ where
  pub eq_self : (a : A) → cmp a a ≡ eq
  pub to_eq : (a b : A) → cmp a b ≡ eq → a ≡ b
  pub mirror : (a b : A) → cmp b a ≡ swap (cmp a b)
  pub chain : (a b c : A) → cmp a b ≡ lt → cmp b c ≡ lt → cmp a c ≡ lt

pub record Ordered {ℓ} (A : Type ℓ) : Type ℓ where
  pub cmp : A → A → Ordering
  pub total : Total cmp
  pub open total use *

module _ {ℓ} {A : Type ℓ} ⦃o : Ordered A⦄ where
  infix 50 ◌==◌
  abbrev pub ◌==◌ : A → A → Bool
  a == b = elim (o.cmp a b) [ eq ↦ true | _ ↦ false ]

  -- `a < b`
  abbrev pub less : A → A → Bool
  less a b = elim (o.cmp a b) [ lt ↦ true | _ ↦ false ]

  -- `a <= b`
  abbrev pub at_most : A → A → Bool
  at_most a b = elim (o.cmp a b) [ gt ↦ false | _ ↦ true ]

  pub ==_iff : (a b : A) → ((a == b) ≡ true) ↔ (a ≡ b)
  ==_iff a b = (λ h. ground (arith, o.to_eq a b), λ p. ground (arith, o.eq_self a, p))

  pub ==_self : (a : A) → (a == a) ≡ true
  ==_self a = ground (arith, o.eq_self a)

  pub at_most-antisym : (a b : A) → at_most a b ≡ true → at_most b a ≡ true → a ≡ b
  at_most-antisym a b h k = ground (arith, o.to_eq a b, o.mirror a b)

  pub at_most-total : (a b : A) → at_most a b ≡ false → at_most b a ≡ true
  at_most-total a b h = ground (arith, o.mirror a b)

  pub at_most_self : (a : A) → at_most a a ≡ true
  at_most_self a = ground (arith, o.eq_self a)

  pub at_most_trans : (a b c : A) → at_most a b ≡ true → at_most b c ≡ true → at_most a c ≡ true
  at_most_trans a b c h k =
      ground
        (arith, o.to_eq a b, o.to_eq b c, o.chain a b c, o.eq_self a, o.eq_self b, o.mirror a c)

-- Selection by a key: the greater of two values, the first at a tie.
module _ {ℓ κ} {A : Type ℓ} {K : Type κ} ⦃o : Ordered K⦄ (key : A → K) where
  -- `a if key(a) >= key(b) else b`
  unfoldable pub pick : A → A → A
  pick a b = elim (at_most (key b) (key a)) [ true ↦ a | false ↦ b ]

  pub pick_self : (a : A) → pick a a ≡ a
  unfolding pick
  pick_self a = ground arith

  pub pick-upper :
      (a b : A)
      → (at_most (key a) (key (pick a b)) ≡ true) × (at_most (key b) (key (pick a b)) ≡ true)
  unfolding pick
  pick-upper a b =
      ground (arith, at_most-total (key b) (key a), at_most_self (key a), at_most_self (key b))

  pub pick_assoc : (a b c : A) → pick a (pick b c) ≡ pick (pick a b) c
  unfolding pick
  pick_assoc a b c = ground (
    arith,
    at_most_trans (key c) (key b) (key a),
    at_most_trans (key c) (key a) (key b),
    at_most-total (key b) (key a),
  )

  -- At a tie the two may differ, and have the same key; else the order of the two is no matter.
  pub pick_comm : (a b : A) → (pick a b ≡ pick b a) ⊎ (key a ≡ key b)
  unfolding pick
  pick_comm a b = ground (
    arith,
    at_most-antisym (key a) (key b),
    at_most-total (key a) (key b),
    at_most-total (key b) (key a),
  )

  -- A view that agrees on the candidates, at the same keys, agrees on the selection.
  pub pick-view {μ} :
      {B : Type μ} (g : A → B) {a a' b b' : A}
      → key a ≡ key a'
      → key b ≡ key b'
      → g a ≡ g a'
      → g b ≡ g b'
      → g (pick a b) ≡ g (pick a' b')
  unfolding pick
  pick-view g {a} {a'} {b} {b'} ka kb ga gb = ground arith
