-- ===== src/Prelude/Instances.antt =====
-- The comparisons of Python's int, str, bytes, tuples and optional values, each with its laws.
use Prim.Native.Nat.{ℕ, compare, Ordering}
use Prim.Native.Nat.Ordering.{lt, eq, gt}
use mathlib.Core.Path.{◌≡◌, refl}
use mathlib.Core.Option.{Option, none, some}
use mathlib.Core.List.{List, [], ◌∷◌}
use native.Mathlib.Omega.{arith}
use mathlib.Core.Bool.{true}
use peer_q.Prelude.Order.{swap, or_else, Total, Ordered, at_most}

pub nat-Total : Total compare
nat-Total = ground arith

instance abbrev pub nat_ordered : Ordered ℕ
nat_ordered = record { cmp = compare; total = nat-Total }

-- Tuples compare by their first different part.
module _ {ℓ κ} {A : Type ℓ} {B : Type κ} ⦃a : Ordered A⦄ ⦃b : Ordered B⦄ where
  abbrev pub pair_cmp : A × B → A × B → Ordering
  pair_cmp x y = or_else (a.cmp x.0 y.0) (b.cmp x.1 y.1)

  pair-chain : (x y z : A × B) → pair_cmp x y ≡ lt → pair_cmp y z ≡ lt → pair_cmp x z ≡ lt
  pair-chain x y z h k = grind (
    arith,
    a.to_eq x.0 y.0,
    a.to_eq y.0 z.0,
    a.chain x.0 y.0 z.0,
    b.chain x.1 y.1 z.1,
    a.eq_self x.0,
  )

  pub pair-Total : Total {A = A × B} pair_cmp
  pair-Total = record {
    eq_self = λ x. ground (arith, a.eq_self x.0, b.eq_self x.1);
    to_eq = λ x y. ground (arith, a.to_eq x.0 y.0, b.to_eq x.1 y.1);
    mirror = λ x y. ground (arith, a.mirror x.0 y.0, b.mirror x.1 y.1);
    chain = pair-chain;
  }

  instance abbrev pub pair_ordered : Ordered (A × B)
  pair_ordered = record { cmp = pair_cmp; total = pair-Total }

-- The first parts are in order where the pairs are.
module _ {ℓ κ} {A : Type ℓ} {B : Type κ} ⦃a : Ordered A⦄ ⦃b : Ordered B⦄ where
  pub at_most-first : (x y : A × B) → at_most x y ≡ true → at_most x.0 y.0 ≡ true
  at_most-first x y h = ground arith

  pub at_most-second : (x y : A × B) → x.0 ≡ y.0 → at_most x y ≡ true → at_most x.1 y.1 ≡ true
  at_most-second x y e h = ground (arith, a.eq_self x.0, e)

module _ {ℓ} {A : Type ℓ} ⦃a : Ordered A⦄ where
  -- `(0, "")` for None, and `(1, x)` for a value.
  abbrev pub option_cmp : Option A → Option A → Ordering
  option_cmp none none = eq
  option_cmp none (some y) = lt
  option_cmp (some x) none = gt
  option_cmp (some x) (some y) = a.cmp x y

  pub option-eq_self : (x : Option A) → option_cmp x x ≡ eq
  option-eq_self none = refl
  option-eq_self (some x) = a.eq_self x

  pub option-to_eq : (x y : Option A) → option_cmp x y ≡ eq → x ≡ y
  option-to_eq none none h = refl
  option-to_eq (some x) (some y) h = ground (arith, a.to_eq x y)
  option-to_eq _ _ h = ground arith

  pub option-mirror : (x y : Option A) → option_cmp y x ≡ swap (option_cmp x y)
  option-mirror none none = refl
  option-mirror (some x) (some y) = a.mirror x y
  option-mirror none (some y) = refl
  option-mirror (some x) none = refl

  pub option-chain :
      (x y z : Option A) → option_cmp x y ≡ lt → option_cmp y z ≡ lt → option_cmp x z ≡ lt
  option-chain (some x) (some y) (some z) h k = a.chain x y z h k
  option-chain _ _ _ h k = ground arith

  instance abbrev pub option_ordered : Ordered (Option A)
  option_ordered = record {
    cmp = option_cmp;
    total = record {
      eq_self = option-eq_self;
      to_eq = option-to_eq;
      mirror = option-mirror;
      chain = option-chain;
    };
  }

  -- `str` and `bytes`: item by item, a proper prefix first.
  abbrev pub list_cmp : List A → List A → Ordering
  list_cmp [] [] = eq
  list_cmp [] (y ∷ ys) = lt
  list_cmp (x ∷ xs) [] = gt
  list_cmp (x ∷ xs) (y ∷ ys) = or_else (a.cmp x y) (list_cmp xs ys)

  pub list-eq_self : (xs : List A) → list_cmp xs xs ≡ eq
  list-eq_self [] = refl
  list-eq_self (x ∷ xs) = ground (arith, a.eq_self x, list-eq_self xs)

  pub list-to_eq : (xs ys : List A) → list_cmp xs ys ≡ eq → xs ≡ ys
  list-to_eq [] [] h = refl
  list-to_eq (x ∷ xs) (y ∷ ys) h = ground (arith, a.to_eq x y, list-to_eq xs ys)
  list-to_eq [] (y ∷ ys) h = ground arith
  list-to_eq (x ∷ xs) [] h = ground arith

  pub list-mirror : (xs ys : List A) → list_cmp ys xs ≡ swap (list_cmp xs ys)
  list-mirror [] [] = refl
  list-mirror (x ∷ xs) (y ∷ ys) = ground (arith, a.mirror x y, list-mirror xs ys)
  list-mirror [] (y ∷ ys) = refl
  list-mirror (x ∷ xs) [] = refl

  pub list-chain :
      (xs ys zs : List A) → list_cmp xs ys ≡ lt → list_cmp ys zs ≡ lt → list_cmp xs zs ≡ lt
  list-chain (x ∷ xs) (y ∷ ys) (z ∷ zs) h k =
      grind (arith, a.to_eq x y, a.to_eq y z, a.chain x y z, a.eq_self x, list-chain xs ys zs)
  list-chain [] [] zs h k = ground arith
  list-chain [] (y ∷ ys) [] h k = ground arith
  list-chain [] (y ∷ ys) (z ∷ zs) h k = refl
  list-chain (x ∷ xs) [] zs h k = ground arith
  list-chain (x ∷ xs) (y ∷ ys) [] h k = ground arith

  instance abbrev pub list_ordered : Ordered (List A)
  list_ordered = record {
    cmp = list_cmp;
    total = record {
      eq_self = list-eq_self;
      to_eq = list-to_eq;
      mirror = list-mirror;
      chain = list-chain;
    };
  }

-- The order of `str` and of `bytes`.
instance abbrev pub str_ordered : Ordered (List ℕ)
str_ordered = list_ordered
