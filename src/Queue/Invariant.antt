-- ===== src/Queue/Invariant.antt =====
-- The heap stays in the order of priority and arrival, its sequence numbers are used up, and a
-- bounded queue never holds more than its capacity.
use peer_q.Prelude.{
  ℕ, ◌+◌, ◌<◌, ◌≡◌, refl, Bool, false, List, [], ◌∷◌, ◌⊎◌, inl, inr, arith, length, All, Bool-cases,
  subst, ◌++◌, nat_ordered, pair_ordered,
}
use peer_q.Prelude.Int.{ℤ, pos, ◌≤ℤ◌, ◌-ℤ◌, int_ordered}
use peer_q.Heap.Laws.{IsHeap, heappush-IsHeap, All-heappush, length-heappush}
use peer_q.Queue.{
  QueuePolicy, reject_on_full, block_on_full, producer, consumer, PrioritizedItem, item_key, Queue,
  Waiter, full, notify, notify_condition, async_notify, push, put_nowait, put, get_nowait, get,
  resume, after, Event, call_put_nowait, call_put, call_get_nowait, call_get, run_woken, run_notify,
  step, run, on_full, get_from, get_nowait_from, got, resume_first,
}

pub record IsQueue {A : Type 0} (q : Queue A) : Type 0 where
  pub ordered : IsHeap item_key q.heap
  pub used : All (λ e. e.seq < q.seq) q.heap
  pub bounded : (q.maxsize ≤ℤ pos 0) ⊎ (pos (length q.heap) ≤ℤ q.maxsize)

module _ {A : Type 0} where
  -- The three fields that the invariant reads.
  abbrev pub SameStore : Queue A → Queue A → Type 0
  SameStore q r = (q.heap ≡ r.heap) × (q.seq ≡ r.seq) × (q.maxsize ≡ r.maxsize)

  pub notify-store : (q : Queue A) → SameStore (notify q) q
  unfolding notify
  notify-store q = ground arith

  pub condition-store : (locked : Bool) (q : Queue A) → SameStore (notify_condition locked q) q
  unfolding notify_condition notify
  condition-store locked q = ground arith

  IsQueue-store : (q r : Queue A) → SameStore q r → IsQueue r → IsQueue q
  IsQueue-store q r s h = record {
    ordered = rw s.0 h.ordered;
    used = rw (s.0, s.1) h.used;
    bounded = rw (s.0, s.2) h.bounded;
  }

  used_weaker :
      (n : ℕ) (es : List (PrioritizedItem A))
      → All (λ e. e.seq < n) es
      → All (λ e. e.seq < n + 1) es
  used_weaker n [] h = tt
  used_weaker n (e ∷ es) h = (omega (arith, h.0), used_weaker n es h.1)

  push-IsQueue :
      (item : A) (p : ℤ) (q : Queue A) → full q ≡ false → IsQueue q → IsQueue (push item p q)
  unfolding push full
  push-IsQueue item p q f h =
      let e : PrioritizedItem A = record { priority_neg = pos 0 -ℤ p; seq = q.seq; item = item } in
      record {
        ordered = heappush-IsHeap item_key e q.heap h.ordered;
        used =
            All-heappush item_key (λ x. x.seq < q.seq + 1) e q.heap (omega arith)
              (used_weaker q.seq q.heap h.used);
        bounded = ground (arith, length-heappush item_key e q.heap);
      }

  -- Taking the first entry.
  -- Taking the first entry.
  pop-IsQueue :
      (e : PrioritizedItem A) (rest : List (PrioritizedItem A)) (q : Queue A)
      → q.heap ≡ e ∷ rest
      → IsQueue q
      → IsQueue (record q { heap = rest })
  pop-IsQueue e rest q s h =
      let ordered : IsHeap item_key (e ∷ rest) = subst (IsHeap item_key) s h.ordered in
      let used : All (λ x. x.seq < q.seq) (e ∷ rest) = subst (All (λ x. x.seq < q.seq)) s h.used in
      record { ordered = ordered.1; used = used.1; bounded = ground (arith, h.bounded) }

  notify-IsQueue : (q : Queue A) → IsQueue q → IsQueue (notify q)
  notify-IsQueue q = IsQueue-store (notify q) q (notify-store q)

  condition-IsQueue : (b : Bool) (q : Queue A) → IsQueue q → IsQueue (notify_condition b q)
  condition-IsQueue b q = IsQueue-store (notify_condition b q) q (condition-store b q)

  -- A coroutine that starts to wait leaves the store.
  wait-IsQueue :
      (q : Queue A) (ws : List (Waiter A)) → IsQueue q → IsQueue (record q { waiting = ws })
  wait-IsQueue q ws h = record { ordered = h.ordered; used = h.used; bounded = h.bounded }

  on_full-IsQueue :
      (policy : QueuePolicy) (item : A) (p : ℤ) (q : Queue A)
      → IsQueue q
      → IsQueue (after (on_full policy item p q))
  on_full-IsQueue reject_on_full item p q h = h
  on_full-IsQueue block_on_full item p q h = wait-IsQueue q (q.waiting ++ producer item p ∷ []) h

  put-IsQueue : (item : A) (p : ℤ) (q : Queue A) → IsQueue q → IsQueue (after (put item p q))
  unfolding put
  put-IsQueue item p q h = elim (Bool-cases (full q)) [
    | inl f ↦ rw f (on_full-IsQueue q.policy item p q h)
    | inr f ↦ rw f (notify-IsQueue (push item p q) (push-IsQueue item p q f h))
  ]

  get_from-IsQueue :
      (hp : List (PrioritizedItem A)) (q : Queue A)
      → q.heap ≡ hp
      → IsQueue q
      → IsQueue (after (get_from hp q))
  get_from-IsQueue [] q e h = wait-IsQueue q (q.waiting ++ consumer ∷ []) h
  get_from-IsQueue (x ∷ rest) q e h =
      notify-IsQueue (record q { heap = rest }) (pop-IsQueue x rest q e h)

  get_nowait_from-IsQueue :
      (hp : List (PrioritizedItem A)) (locked : Bool) (q : Queue A)
      → q.heap ≡ hp
      → IsQueue q
      → IsQueue (got q (get_nowait_from hp locked q))
  get_nowait_from-IsQueue [] locked q e h = h
  get_nowait_from-IsQueue (x ∷ rest) locked q e h =
      condition-IsQueue locked (record q { heap = rest }) (pop-IsQueue x rest q e h)

  resume-IsQueue : (ws : List (Waiter A)) (q : Queue A) → IsQueue q → IsQueue (resume_first ws q)
  unfolding resume get
  resume-IsQueue [] q h = h
  resume-IsQueue (producer item p ∷ ws) q h =
      put-IsQueue item p (record q { woken = ws })
        (record { ordered = h.ordered; used = h.used; bounded = h.bounded })
  resume-IsQueue (consumer ∷ ws) q h =
      get_from-IsQueue q.heap (record q { woken = ws }) refl
        (record { ordered = h.ordered; used = h.used; bounded = h.bounded })

  async_notify-IsQueue : (q : Queue A) → IsQueue q → IsQueue (async_notify q)
  unfolding async_notify notify
  async_notify-IsQueue q h = IsQueue-store _ q (ground arith) h

  step-IsQueue : (e : Event A) (q : Queue A) → IsQueue q → IsQueue (step e q)
  unfolding step put_nowait get_nowait get
  step-IsQueue (call_put_nowait locked item p) q h = elim (Bool-cases (full q)) [
    | inl f ↦ rw f h
    | inr f ↦ rw f (condition-IsQueue locked (push item p q) (push-IsQueue item p q f h))
  ]
  step-IsQueue (call_put item p) q h = put-IsQueue item p q h
  step-IsQueue (call_get_nowait locked) q h = get_nowait_from-IsQueue q.heap locked q refl h
  step-IsQueue call_get q h = get_from-IsQueue q.heap q refl h
  step-IsQueue run_woken q h = resume-IsQueue q.woken q h
  step-IsQueue run_notify q h = async_notify-IsQueue q h

  -- Whatever the calls, wake-ups and refusals, the queue keeps its heap in the order of priority
  -- and arrival, the sequence numbers in it are below the next one, and a positive capacity is
  -- never exceeded.
  pub run-IsQueue : (es : List (Event A)) (q : Queue A) → IsQueue q → IsQueue (run es q)
  unfolding run
  run-IsQueue [] q h = h
  run-IsQueue (e ∷ es) q h = run-IsQueue es (step e q) (step-IsQueue e q h)
