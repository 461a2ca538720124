-- ===== src/Queue/Best.antt =====
-- Which item `get_nowait` of peerq/queue.py takes: the one of the highest priority, and of those the one
-- that came first.
use peer_q.Prelude.{
  ◌≤◌, ◌≡◌, refl, sym, ap, subst, ◌∙◌, Bool, true, List, [], ◌∷◌, ◌⊎◌, inl, inr, arith, All,
  at_most, pair_ordered, nat_ordered, Bool-cases, at_most-first, at_most-second,
}
use peer_q.Prelude.Int.{ℤ, pos, ◌-ℤ◌, -ℤ_parts, ltb_ℤ, int_ordered, eq_of_parts}
use peer_q.Errors.{Result, ok, err, queue_empty}
use peer_q.Heap.Laws.{IsHeap}
use peer_q.Queue.{PrioritizedItem, item_key, Queue, get_nowait, get_nowait_from}
use peer_q.Queue.Invariant.{IsQueue, condition-store}
use peer_q.Queue.Spec.{entry}

module _ {A : Type 0} where
  -- An item goes before another: its priority is higher, or the same and it came no later.
  abbrev pub GoesBefore : PrioritizedItem A → PrioritizedItem A → Type 0
  GoesBefore e f =
      (ltb_ℤ (entry f).0 (entry e).0 ≡ true) ⊎ (((entry f).0 ≡ (entry e).0) × (e.seq ≤ f.seq))

  abbrev pub IsBest : Queue A → Result ((ℤ × A) × Queue A) → Type 0
  IsBest q (err e) = (q.heap ≡ []) × (e ≡ queue_empty)
  IsBest q (ok (v, r)) =
      (e : PrioritizedItem A) × (q.heap ≡ e ∷ r.heap) × (v ≡ entry e) × All (GoesBefore e) r.heap

  at_most-GoesBefore :
      (e f : PrioritizedItem A) → at_most (item_key e) (item_key f) ≡ true → GoesBefore e f
  at_most-GoesBefore e f h =
      let p = -ℤ_parts (pos 0) e.priority_neg in
      let q = -ℤ_parts (pos 0) f.priority_neg in
      let first : at_most e.priority_neg f.priority_neg ≡ true =
        at_most-first (item_key e) (item_key f) h in
      elim (Bool-cases (ltb_ℤ (entry f).0 (entry e).0)) [
        | inl higher ↦ inl higher
        | inr lower ↦
            let same : e.priority_neg ≡ f.priority_neg =
              eq_of_parts _ _ (ground (arith, p, q, first, lower)) in
            let seqs : at_most e.seq f.seq ≡ true =
              at_most-second (item_key e) (item_key f) same h in
            inr (ap (λ z. pos 0 -ℤ z) (sym same), ground (arith, seqs))
      ]

  all_before :
      (e : PrioritizedItem A) (fs : List (PrioritizedItem A))
      → All (λ f. at_most (item_key e) (item_key f) ≡ true) fs
      → All (GoesBefore e) fs
  all_before e [] h = tt
  all_before e (f ∷ fs) h = (at_most-GoesBefore e f h.0, all_before e fs h.1)

  get_nowait_from-IsBest :
      (hp : List (PrioritizedItem A)) (locked : Bool) (q : Queue A)
      → q.heap ≡ hp
      → IsHeap item_key hp
      → IsBest q (get_nowait_from hp locked q)
  get_nowait_from-IsBest [] locked q s h = (s, refl)
  get_nowait_from-IsBest (e ∷ rest) locked q s h =
      let same = (condition-store locked (record q { heap = rest })).0 in
      (
        e,
        s ∙ ap (λ es. e ∷ es) (sym same),
        refl,
        subst (All (GoesBefore e)) (sym same) (all_before e rest h.0),
      )

  -- On a queue that keeps its invariant `get_nowait` raises QueueEmpty if nothing is there, and else
  -- takes out one item and leaves the others: none that stays has a higher priority, or the same and
  -- came earlier.
  pub get_nowait-IsBest : (locked : Bool) (q : Queue A) → IsQueue q → IsBest q (get_nowait locked q)
  unfolding get_nowait
  get_nowait-IsBest locked q h = get_nowait_from-IsBest q.heap locked q refl h.ordered
