-- ===== src/Queue/Wakeups.antt =====
-- Which waiting coroutines are woken. Under reject-on-full only consumers wait, and none sleeps
-- beside an item with no wake-up on its way; under block-on-full one can.
use peer_q.Prelude.{
  ℕ, zero, suc, ◌+◌, ◌<◌, ◌≡◌, ◌≢◌, refl, Bool, true, false, List, [], ◌∷◌, ◌++◌, ◌⊎◌, inl, inr,
  arith, length, length-append, All, Bool-cases, subst, sym,
}
use peer_q.Prelude.Int.{ℤ, pos}
use peer_q.Heap.{heappush}
use peer_q.Queue.{
  QueuePolicy, reject_on_full, block_on_full, PrioritizedItem, Waiter, producer, consumer, Queue,
  new_queue, full, notify, notify_condition, async_notify, push, put_nowait, put, get_nowait, get,
  get_from, get_nowait_from, on_full, after, got, resume, resume_first, run_task, notified, Event,
  call_put_nowait, call_put, call_get_nowait, call_get, run_woken, run_notify, step, run,
}

module _ {A : Type 0} where
  abbrev IsConsumer : Waiter A → Type 0
  IsConsumer consumer = Unit
  IsConsumer (producer x p) = ⊥

  -- No lost wake-up: where an item and a waiting coroutine are there, one is woken or about to be.
  pub record IsLive (q : Queue A) : Type 0 where
    pub policy : q.policy ≡ reject_on_full
    pub waiting : All IsConsumer q.waiting
    pub woken : All IsConsumer q.woken
    pub live : (q.heap ≡ []) ⊎ (q.waiting ≡ []) ⊎ (0 < length q.woken + q.notifies)

  -- The invariant but for its last part.
  pub record IsTame (q : Queue A) : Type 0 where
    pub policy : q.policy ≡ reject_on_full
    pub waiting : All IsConsumer q.waiting
    pub woken : All IsConsumer q.woken

  All-append_one :
      (ws : List (Waiter A)) (w : Waiter A)
      → All IsConsumer ws
      → IsConsumer w
      → All IsConsumer (ws ++ w ∷ [])
  All-append_one [] w h c = (c, tt)
  All-append_one (v ∷ ws) w h c = (h.0, All-append_one ws w h.1 c)

  notified-IsLive :
      (ws : List (Waiter A)) (q : Queue A) → q.waiting ≡ ws → IsTame q → IsLive (notified ws q)
  notified-IsLive [] q e h = record {
    policy = h.policy;
    waiting = h.waiting;
    woken = h.woken;
    live = inr (inl e);
  }
  notified-IsLive (w ∷ ws) q e h =
      let all : All IsConsumer (w ∷ ws) = subst (All IsConsumer) e h.waiting in
      record {
        policy = h.policy;
        waiting = all.1;
        woken = All-append_one q.woken w h.woken all.0;
        live = inr (inr (omega (arith, length-append q.woken (w ∷ []))));
      }

  notify-IsLive : (q : Queue A) → IsTame q → IsLive (notify q)
  unfolding notify
  notify-IsLive q h = notified-IsLive q.waiting q refl h

  condition-IsLive : (locked : Bool) (q : Queue A) → IsTame q → IsLive (notify_condition locked q)
  unfolding notify_condition
  condition-IsLive true q h = notify-IsLive q h
  condition-IsLive false q h = record {
    policy = h.policy;
    waiting = h.waiting;
    woken = h.woken;
    live = inr (inr (omega arith));
  }

  tame : (q : Queue A) → IsLive q → IsTame q
  tame q h = record { policy = h.policy; waiting = h.waiting; woken = h.woken }

  push-IsTame : (x : A) (p : ℤ) (q : Queue A) → IsTame q → IsTame (push x p q)
  unfolding push
  push-IsTame x p q h = record { policy = h.policy; waiting = h.waiting; woken = h.woken }

  -- `on_full` on the policy of the queue, which raises.
  on_full_eq :
      (policy : QueuePolicy) (x : A) (p : ℤ) (q : Queue A)
      → policy ≡ reject_on_full
      → after (on_full policy x p q) ≡ q
  on_full_eq reject_on_full x p q e = refl
  on_full_eq block_on_full x p q e = absurd (ground arith)

  put-IsLive : (x : A) (p : ℤ) (q : Queue A) → IsLive q → IsLive (after (put x p q))
  unfolding put
  put-IsLive x p q h = elim (Bool-cases (full q)) [
    | inl f ↦ rw f (subst IsLive (sym (on_full_eq q.policy x p q h.policy)) h)
    | inr f ↦ rw f (notify-IsLive (push x p q) (push-IsTame x p q (tame q h)))
  ]

  get_from-IsLive :
      (hp : List (PrioritizedItem A)) (q : Queue A)
      → q.heap ≡ hp
      → IsTame q
      → IsLive (after (get_from hp q))
  get_from-IsLive [] q e h = record {
    policy = h.policy;
    waiting = All-append_one q.waiting consumer h.waiting tt;
    woken = h.woken;
    live = inl e;
  }
  get_from-IsLive (x ∷ rest) q e h =
      notify-IsLive (record q { heap = rest })
        (record { policy = h.policy; waiting = h.waiting; woken = h.woken })

  get_nowait_from-IsLive :
      (hp : List (PrioritizedItem A)) (locked : Bool) (q : Queue A)
      → IsLive q
      → IsLive (got q (get_nowait_from hp locked q))
  get_nowait_from-IsLive [] locked q h = h
  get_nowait_from-IsLive (x ∷ rest) locked q h =
      condition-IsLive locked (record q { heap = rest })
        (record { policy = h.policy; waiting = h.waiting; woken = h.woken })

  resume-IsLive :
      (ws : List (Waiter A)) (q : Queue A) → q.woken ≡ ws → IsLive q → IsLive (resume_first ws q)
  unfolding resume get
  resume-IsLive [] q e h = h
  resume-IsLive (w ∷ ws) q e h = woke w ws (subst (All IsConsumer) e h.woken)
    where
      woke :
          (v : Waiter A) (vs : List (Waiter A))
          → All IsConsumer (v ∷ vs)
          → IsLive (resume_first (v ∷ vs) q)
      woke consumer vs all =
          get_from-IsLive q.heap (record q { woken = vs }) refl
            (record { policy = h.policy; waiting = h.waiting; woken = all.1 })
      woke (producer x p) vs all = absurd all.0

  task-IsLive : (n : ℕ) (q : Queue A) → IsLive q → IsLive (run_task n q)
  task-IsLive zero q h = h
  task-IsLive (suc n) q h =
      notify-IsLive (record q { notifies = n })
        (record { policy = h.policy; waiting = h.waiting; woken = h.woken })

  step-IsLive : (e : Event A) (q : Queue A) → IsLive q → IsLive (step e q)
  unfolding step put_nowait get_nowait get async_notify
  step-IsLive (call_put_nowait locked x p) q h = elim (Bool-cases (full q)) [
    | inl f ↦ rw f h
    | inr f ↦ rw f (condition-IsLive locked (push x p q) (push-IsTame x p q (tame q h)))
  ]
  step-IsLive (call_put x p) q h = put-IsLive x p q h
  step-IsLive (call_get_nowait locked) q h = get_nowait_from-IsLive q.heap locked q h
  step-IsLive call_get q h = get_from-IsLive q.heap q refl (tame q h)
  step-IsLive run_woken q h = resume-IsLive q.woken q refl h
  step-IsLive run_notify q h = task-IsLive q.notifies q h

  -- Under reject-on-full no wake-up is lost, whatever is called in whatever order: where the queue
  -- holds an item and a consumer waits, a consumer is already woken or a notification is due.
  pub run-IsLive : (es : List (Event A)) (q : Queue A) → IsLive q → IsLive (run es q)
  unfolding run
  run-IsLive [] q h = h
  run-IsLive (e ∷ es) q h = run-IsLive es (step e q) (step-IsLive e q h)

  -- Two producers block on a queue of capacity one, a consumer takes its item, a second consumer
  -- waits, and the two notified producers run.
  abbrev pub crossed : A → A → A → ℤ → List (Event A)
  crossed a b c p =
      call_put a p ∷ call_put b p ∷ call_put c p ∷ call_get ∷ call_get ∷ run_woken ∷ run_woken ∷ []

  -- Nothing is woken or due, though the queue holds an item and a consumer waits.
  abbrev pub IsStuck : Queue A → Type 0
  IsStuck q =
      (q.heap ≢ [])
      × ((ws : List (Waiter A)) × (q.waiting ≡ consumer ∷ ws))
      × (step run_woken q ≡ q)
      × (step run_notify q ≡ q)

  -- Under block-on-full a wake-up meant for a consumer can go to a producer that waits again: after
  -- these calls a consumer waits for ever beside an item, unless another call comes.
  pub crossed-IsStuck :
      (a b c : A) (p : ℤ) → IsStuck (run (crossed a b c p) (new_queue (pos 1) block_on_full))
  unfolding run step put get full push notify resume async_notify heappush
  crossed-IsStuck a b c p = (λ e. cc, (producer c p ∷ [], refl), refl, refl)
