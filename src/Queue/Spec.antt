-- ===== src/Queue/Spec.antt =====
-- What a client sees of the queue: a list of priorities and items, without sequence numbers, in
-- which a new item stands behind all items of the same or a higher priority.
use peer_q.Prelude.{
  ◌<◌, ◌≡◌, refl, ap, ◌∙◌, Bool, none, some, List, [], ◌∷◌, map, arith, if◌then◌else◌, All,
  Bool-cases, inl, inr, pair_ordered, nat_ordered,
}
use peer_q.Prelude.Int.{ℤ, pos, ◌-ℤ◌, -ℤ_parts, eq_of_parts, ltb_ℤ, int_ordered}
use peer_q.Errors.{Result, ok, err, queue_full}
use peer_q.Heap.{heappush}
use peer_q.Queue.{
  QueuePolicy, reject_on_full, block_on_full, PrioritizedItem, item_key, Queue, Outcome, returned,
  raised, waits, full, notify, notify_condition, push, put_nowait, put, get, get_from, on_full,
}
use peer_q.Queue.Invariant.{IsQueue, notify-store, condition-store}

negated : (p : ℤ) → pos 0 -ℤ (pos 0 -ℤ p) ≡ p
negated p = eq_of_parts _ p (omega (arith, -ℤ_parts (pos 0) (pos 0 -ℤ p), -ℤ_parts (pos 0) p))

module _ {A : Type 0} where
  -- Behind every item whose priority is not lower.
  abbrev pub enqueue : A → ℤ → List (ℤ × A) → List (ℤ × A)
  enqueue x p [] = (p, x) ∷ []
  enqueue x p ((r, y) ∷ rest) =
      if ltb_ℤ r p then (p, x) ∷ (r, y) ∷ rest else (r, y) ∷ enqueue x p rest

  abbrev pub entry : PrioritizedItem A → ℤ × A
  entry e = (pos 0 -ℤ e.priority_neg, e.item)

  abbrev pub view : Queue A → List (ℤ × A)
  view q = map entry q.heap

  view-heappush :
      (e : PrioritizedItem A) (p : ℤ) (es : List (PrioritizedItem A))
      → e.priority_neg ≡ pos 0 -ℤ p
      → All (λ f. f.seq < e.seq) es
      → map entry (heappush item_key e es) ≡ enqueue e.item p (map entry es)
  unfolding heappush
  view-heappush e p [] h s = ground (arith, h, negated p)
  view-heappush e p (f ∷ fs) h s = ground (
    arith,
    h,
    negated p,
    s.0,
    view-heappush e p fs h s.1,
    -ℤ_parts (pos 0) p,
    -ℤ_parts (pos 0) f.priority_neg,
  )

  push-view : (x : A) (p : ℤ) (q : Queue A) → IsQueue q → view (push x p q) ≡ enqueue x p (view q)
  unfolding push
  push-view x p q h =
      view-heappush (record { priority_neg = pos 0 -ℤ p; seq = q.seq; item = x }) p q.heap refl
        h.used

  notify-view : (q : Queue A) → view (notify q) ≡ view q
  notify-view q = ap (map entry) (notify-store q).0

  condition-view : (locked : Bool) (q : Queue A) → view (notify_condition locked q) ≡ view q
  condition-view locked q = ap (map entry) (condition-store locked q).0

  -- What a client learns from an attempt to enqueue: the error, or the new contents.
  abbrev pub stored : Result (Queue A) → Result (List (ℤ × A))
  stored (ok r) = ok (view r)
  stored (err e) = err e

  -- `put_nowait` raises QueueFull on a full queue, and else enqueues behind all items of the same
  -- or a higher priority.
  pub put_nowait-view :
      (locked : Bool) (x : A) (p : ℤ) (q : Queue A)
      → IsQueue q
      → stored (put_nowait locked x p q)
        ≡ (if full q then err queue_full else ok (enqueue x p (view q)))
  unfolding put_nowait
  put_nowait-view locked x p q h = elim (Bool-cases (full q)) [
    | inl f ↦ rw f refl
    | inr f ↦ rw f (ap ok (condition-view locked (push x p q) ∙ push-view x p q h))
  ]

  -- The blocking calls do the same to the view: a coroutine that waits or is refused leaves it, one
  -- that ends has enqueued its item, or holds the first one.
  abbrev pub Puts : A → ℤ → List (ℤ × A) → Outcome A → Type 0
  Puts x p vs (returned r v) = (view r ≡ enqueue x p vs) × (v ≡ none)
  Puts x p vs (raised r) = view r ≡ vs
  Puts x p vs (waits r) = view r ≡ vs

  abbrev pub Gets : List (ℤ × A) → Outcome A → Type 0
  Gets [] (waits r) = view r ≡ []
  Gets (v ∷ vs) (returned r w) = (w ≡ some v) × (view r ≡ vs)
  Gets _ _ = ⊥

  on_full-Puts :
      (policy : QueuePolicy) (x : A) (p : ℤ) (q : Queue A)
      → Puts x p (view q) (on_full policy x p q)
  on_full-Puts reject_on_full x p q = refl
  on_full-Puts block_on_full x p q = refl

  -- A run of `put` that returns has enqueued its item behind all items of the same or a higher
  -- priority; one that raises QueueFull or waits leaves the contents as they were.
  pub put-Puts : (x : A) (p : ℤ) (q : Queue A) → IsQueue q → Puts x p (view q) (put x p q)
  unfolding put
  put-Puts x p q h = elim (Bool-cases (full q)) [
    | inl f ↦ rw f (on_full-Puts q.policy x p q)
    | inr f ↦ rw f (notify-view (push x p q) ∙ push-view x p q h, refl)
  ]

  get_from-Gets :
      (hp : List (PrioritizedItem A)) (q : Queue A)
      → q.heap ≡ hp
      → Gets (map entry hp) (get_from hp q)
  get_from-Gets [] q e = ap (map entry) e
  get_from-Gets (x ∷ rest) q e = (refl, notify-view (record q { heap = rest }))

  -- A run of `get` waits on an empty queue, and else returns and removes the first item of the view.
  pub get-Gets : (q : Queue A) → Gets (view q) (get q)
  unfolding get
  get-Gets q = get_from-Gets q.heap q refl
