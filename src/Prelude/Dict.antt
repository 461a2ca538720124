-- ===== src/Prelude/Dict.antt =====
-- Python's `dict`: an association list in insertion order. Writing a key that is there keeps its
-- place, a new key goes to the end.
use Prim.Native.Nat.{◌+◌}
use mathlib.Core.Path.{◌≡◌, refl, sym, subst}
use mathlib.Core.Logic.{inl, inr}
use mathlib.Core.Bool.{Bool, true, false, ◌||◌}
use mathlib.Core.Option.{Option, none, some}
use mathlib.Core.List.{List, [], ◌∷◌, map}
use native.Mathlib.Omega.{arith}
use peer_q.Prelude.Tests.{if◌then◌else◌, Bool-cases}
use peer_q.Prelude.Lists.{length, All}
use peer_q.Prelude.Order.{Ordered, ◌==◌, ==_iff}

abbrev pub Dict {ℓ κ} : Type ℓ → Type κ → Type (ℓ ⊔ κ)
Dict K V = List (K × V)

module _ {ℓ} {K : Type ℓ} ⦃o : Ordered K⦄ where
  -- `k in xs` for a list or a set.
  unfoldable pub member : K → List K → Bool
  member k [] = false
  member k (x ∷ xs) = k == x || member k xs

  module _ {κ} {V : Type κ} where
    -- `d.get(k)`
    unfoldable pub lookup : K → Dict K V → Option V
    lookup k [] = none
    lookup k ((j, v) ∷ d) = if j == k then some v else lookup k d

    -- `k in d`
    unfoldable pub has : K → Dict K V → Bool
    has k [] = false
    has k ((j, v) ∷ d) = if j == k then true else has k d

    -- `d[k] = v`
    unfoldable pub insert : K → V → Dict K V → Dict K V
    insert k v [] = (k, v) ∷ []
    insert k v ((j, w) ∷ d) = if j == k then (j, v) ∷ d else (j, w) ∷ insert k v d

    -- `d.pop(k, None)` and `del d[k]`
    unfoldable pub remove : K → Dict K V → Dict K V
    remove k [] = []
    remove k ((j, w) ∷ d) = if j == k then d else (j, w) ∷ remove k d

    abbrev pub keys : Dict K V → List K
    keys d = map (λ e. e.0) d

    pub lookup-insert :
        (k j : K) (v : V) (d : Dict K V)
        → lookup j (insert k v d) ≡ (if k == j then some v else lookup j d)
    unfolding lookup insert
    lookup-insert k j v [] = refl
    lookup-insert k j v ((i, w) ∷ d) =
        ground (arith, ==_iff k j, ==_iff i k, ==_iff i j, lookup-insert k j v d)

    pub has-lookup-some : (k : K) (d : Dict K V) (v : V) → lookup k d ≡ some v → has k d ≡ true
    unfolding lookup has
    has-lookup-some k [] v h = ground arith
    has-lookup-some k ((j, w) ∷ d) v h = ground (arith, has-lookup-some k d v)

    pub has-lookup-none : (k : K) (d : Dict K V) → lookup k d ≡ none → has k d ≡ false
    unfolding lookup has
    has-lookup-none k [] h = refl
    has-lookup-none k ((j, w) ∷ d) h = ground (arith, has-lookup-none k d)

    pub length-insert :
        (k : K) (v : V) (d : Dict K V)
        → length (insert k v d) ≡ (if has k d then length d else length d + 1)
    unfolding has insert
    length-insert k v [] = refl
    length-insert k v ((j, w) ∷ d) = ground (arith, length-insert k v d)

    pub has-insert :
        (k j : K) (v : V) (d : Dict K V) → has j (insert k v d) ≡ (if k == j then true else has j d)
    unfolding has insert
    has-insert k j v [] = refl
    has-insert k j v ((i, w) ∷ d) =
        ground (arith, ==_iff k j, ==_iff i k, ==_iff i j, has-insert k j v d)

    -- A predicate of the entries survives a write of an entry that meets it.
    pub All-insert {μ} :
        (P : K × V → Type μ) (k : K) (v : V) (d : Dict K V)
        → P (k, v)
        → All P d
        → All P (insert k v d)
    unfolding insert
    All-insert P k v [] p h = (p, tt)
    All-insert P k v ((j, w) ∷ d) p h = elim (Bool-cases (j == k)) [
      | inl e ↦ rw e (subst (λ x. P (x, v)) (sym ((==_iff j k).0 e)) p, h.1)
      | inr n ↦ rw n (h.0, All-insert P k v d p h.1)
    ]
