-- ===== src/Prelude/Sorted.antt =====
-- `sorted(d.items())` of a dict, by insertion; the keys of a dict are distinct, so that no values are
-- compared.
use Prim.Native.Nat.{ℕ, zero, suc, ◌≤◌}
use mathlib.Core.Path.{◌≡◌, refl}
use mathlib.Core.Logic.{inl, inr}
use mathlib.Core.Bool.{true, false}
use mathlib.Core.List.{[], ◌∷◌}
use native.Mathlib.Omega.{arith}
use peer_q.Prelude.Tests.{if◌then◌else◌, if_cases, Bool-cases}
use peer_q.Prelude.Lists.{take, All}
use peer_q.Prelude.Order.{Ordered, less, at_most, at_most_trans}
use peer_q.Prelude.Dict.{Dict, has}

module _ {ℓ} {K : Type ℓ} ⦃o : Ordered K⦄ where
  not_less : (a b : K) → less a b ≡ false → at_most b a ≡ true
  not_less a b h = ground (arith, o.mirror a b)

  less-at_most : (a b : K) → less a b ≡ true → at_most a b ≡ true
  less-at_most a b h = ground arith

module _ {ℓ κ} {K : Type ℓ} {V : Type κ} ⦃o : Ordered K⦄ where
  unfoldable pub insert_item : K × V → Dict K V → Dict K V
  insert_item e [] = e ∷ []
  insert_item e (f ∷ fs) =
      let rest = insert_item e fs in if less e.0 f.0 then e ∷ f ∷ fs else f ∷ rest

  unfoldable pub sorted_items : Dict K V → Dict K V
  sorted_items [] = []
  sorted_items (e ∷ es) = insert_item e (sorted_items es)

  -- The number of keys below one.
  unfoldable pub count_less : K → Dict K V → ℕ
  count_less k [] = 0
  count_less k (e ∷ es) = if less e.0 k then suc (count_less k es) else count_less k es

  abbrev pub IsSorted : Dict K V → Type ℓ
  IsSorted [] = Unit
  IsSorted (e ∷ es) = All (λ f. at_most e.0 f.0 ≡ true) es × IsSorted es

  All-at_most :
      (a b : K) (es : Dict K V)
      → at_most a b ≡ true
      → All (λ f. at_most b f.0 ≡ true) es
      → All (λ f. at_most a f.0 ≡ true) es
  All-at_most a b [] h all = tt
  All-at_most a b (e ∷ es) h all = (at_most_trans a b e.0 h all.0, All-at_most a b es h all.1)

  All-insert_item :
      (k : K) (e : K × V) (es : Dict K V)
      → at_most k e.0 ≡ true
      → All (λ f. at_most k f.0 ≡ true) es
      → All (λ f. at_most k f.0 ≡ true) (insert_item e es)
  unfolding insert_item
  All-insert_item k e [] h all = (h, tt)
  All-insert_item k e (f ∷ fs) h all =
      if_cases (All {A = K × V} (λ g. at_most k g.0 ≡ true)) (less e.0 f.0) (λ _. (h, all))
        (λ _. (all.0, All-insert_item k e fs h all.1))

  insert_item-IsSorted : (e : K × V) (es : Dict K V) → IsSorted es → IsSorted (insert_item e es)
  unfolding insert_item
  insert_item-IsSorted e [] h = (tt, tt)
  insert_item-IsSorted e (f ∷ fs) h =
      if_cases IsSorted (less e.0 f.0)
        (λ lower.
          let le : at_most e.0 f.0 ≡ true = less-at_most e.0 f.0 lower in
          ((le, All-at_most e.0 f.0 fs le h.0), h))
        (λ upper.
          (All-insert_item f.0 e fs (not_less e.0 f.0 upper) h.0, insert_item-IsSorted e fs h.1))

  pub sorted_items-IsSorted : (es : Dict K V) → IsSorted (sorted_items es)
  unfolding sorted_items
  sorted_items-IsSorted [] = tt
  sorted_items-IsSorted (e ∷ es) =
      insert_item-IsSorted e (sorted_items es) (sorted_items-IsSorted es)

  count_less-insert_item :
      (k : K) (e : K × V) (es : Dict K V) → count_less k (insert_item e es) ≡ count_less k (e ∷ es)
  unfolding count_less insert_item
  count_less-insert_item k e [] = refl
  count_less-insert_item k e (f ∷ fs) = ground (arith, count_less-insert_item k e fs)

  pub count_less-sorted_items :
      (k : K) (es : Dict K V) → count_less k (sorted_items es) ≡ count_less k es
  unfolding count_less sorted_items
  count_less-sorted_items k [] = refl
  count_less-sorted_items k (e ∷ es) =
      ground (arith, count_less-insert_item k e (sorted_items es), count_less-sorted_items k es)

  count_less_none :
      (k a : K) (es : Dict K V)
      → at_most k a ≡ true
      → All (λ f. at_most a f.0 ≡ true) es
      → count_less k es ≡ 0
  unfolding count_less
  count_less_none k a [] h all = refl
  count_less_none k a (e ∷ es) h all =
      ground (arith, at_most_trans k a e.0 h all.0, o.mirror k e.0, count_less_none k a es h all.1)

  -- A key with as many keys below it as are taken is not among the first of a sorted dict.
  pub has-take :
      (limit : ℕ) (k : K) (es : Dict K V)
      → IsSorted es
      → limit ≤ count_less k es
      → has k (take limit es) ≡ false
  unfolding has count_less
  has-take zero k es h n = refl
  has-take (suc limit) k [] h n = refl
  has-take (suc limit) k (e ∷ es) h n = elim (Bool-cases (less e.0 k)) [
    | inl lower ↦ ground (arith, has-take limit k es h.1, lower, n)
    | inr upper ↦ ground (arith, count_less_none k e.0 es (not_less e.0 k upper) h.0, upper, n)
  ]
