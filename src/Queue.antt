-- ===== src/Queue.antt =====
-- `BackpressurePriorityQueue` of peerq/queue.py. The items wait in a heap under the key
-- (-priority, sequence number). An asyncio.Condition is its waiters in order of arrival, the
-- waiters that were notified and have not run yet, and the notifications that a background task
-- still has to make.
pub mod Invariant
pub mod Spec
pub mod Best
pub mod Wakeups
use peer_q.Prelude.{
  ℕ, zero, suc, ◌+◌, Bool, true, false, Option, none, some, List, [], ◌∷◌, ◌++◌, if◌then◌else◌,
  length, leb, Ordered, nat_ordered, pair_ordered,
}
use peer_q.Prelude.Int.{ℤ, pos, ◌-ℤ◌, leb_ℤ, int_ordered}
use peer_q.Errors.{Result, ok, err, queue_full, queue_empty}
use peer_q.Heap.{heappush}

pub data QueuePolicy : Type 0 where
  reject_on_full block_on_full : QueuePolicy

pub record PrioritizedItem (A : Type 0) : Type 0 where
  pub priority_neg : ℤ
  pub seq : ℕ
  pub item : A

-- `@dataclass(order=True)`: no two items have the same sequence number, so `item` is never compared.
abbrev pub item_key : {A : Type 0} → PrioritizedItem A → ℤ × ℕ
item_key e = (e.priority_neg, e.seq)

-- A coroutine inside `put` or `get` that waits on the condition.
pub data Waiter (A : Type 0) : Type 0 where
  producer : A → ℤ → Waiter A
  consumer : Waiter A

pub record Queue (A : Type 0) : Type 0 where
  pub maxsize : ℤ
  pub policy : QueuePolicy
  pub heap : List (PrioritizedItem A)
  pub seq : ℕ
  pub waiting : List (Waiter A)
  pub woken : List (Waiter A)
  pub notifies : ℕ

-- What a coroutine does when it runs: it ends with a value, raises, or waits on the condition.
pub data Outcome (A : Type 0) : Type 0 where
  returned : Queue A → Option (ℤ × A) → Outcome A
  raised : Queue A → Outcome A
  waits : Queue A → Outcome A

module _ {A : Type 0} where
  abbrev pub new_queue : ℤ → QueuePolicy → Queue A
  new_queue maxsize policy = record {
    maxsize = maxsize;
    policy = policy;
    heap = [];
    seq = 0;
    waiting = [];
    woken = [];
    notifies = 0;
  }

  unfoldable pub qsize : Queue A → ℕ
  qsize q = length q.heap

  unfoldable pub empty : Queue A → Bool
  empty q = elim q.heap [ [] ↦ true | _ ∷ _ ↦ false ]

  unfoldable pub full : Queue A → Bool
  full q = if leb_ℤ q.maxsize (pos 0) then false else leb_ℤ q.maxsize (pos (length q.heap))

  abbrev pub notified : List (Waiter A) → Queue A → Queue A
  notified [] q = q
  notified (w ∷ ws) q = record q { waiting = ws; woken = q.woken ++ w ∷ [] }

  -- `self._cond.notify()`: the longest waiting coroutine is woken.
  unfoldable pub notify : Queue A → Queue A
  notify q = notified q.waiting q

  -- `_notify_condition`, inside a running loop: at once if the lock is held, else by a task.
  unfoldable pub notify_condition : Bool → Queue A → Queue A
  notify_condition locked q = if locked then notify q else record q { notifies = q.notifies + 1 }

  abbrev pub run_task : ℕ → Queue A → Queue A
  run_task zero q = q
  run_task (suc n) q = notify (record q { notifies = n })

  -- `_async_notify`, when its task runs.
  unfoldable pub async_notify : Queue A → Queue A
  async_notify q = run_task q.notifies q

  -- The new entry, pushed under the next sequence number.
  unfoldable pub push : A → ℤ → Queue A → Queue A
  push item priority q = record q {
    heap =
        heappush item_key (record { priority_neg = pos 0 -ℤ priority; seq = q.seq; item = item })
          q.heap;
    seq = q.seq + 1;
  }

  unfoldable pub put_nowait : Bool → A → ℤ → Queue A → Result (Queue A)
  put_nowait locked item priority q =
      if full q then err queue_full else ok (notify_condition locked (push item priority q))

  abbrev pub on_full : QueuePolicy → A → ℤ → Queue A → Outcome A
  on_full reject_on_full item priority q = raised q
  on_full block_on_full item priority q =
      waits (record q { waiting = q.waiting ++ producer item priority ∷ [] })

  -- The part of `put` that runs without a break, from its start or from a wake-up.
  unfoldable pub put : A → ℤ → Queue A → Outcome A
  put item priority q =
      if full q
      then on_full q.policy item priority q
      else returned (notify (push item priority q)) none

  -- `get_nowait` on a heap that is empty, or has a first entry.
  abbrev pub get_nowait_from :
      List (PrioritizedItem A) → Bool → Queue A → Result ((ℤ × A) × Queue A)
  get_nowait_from [] locked q = err queue_empty
  get_nowait_from (e ∷ rest) locked q =
      ok ((pos 0 -ℤ e.priority_neg, e.item), notify_condition locked (record q { heap = rest }))

  unfoldable pub get_nowait : Bool → Queue A → Result ((ℤ × A) × Queue A)
  get_nowait locked q = get_nowait_from q.heap locked q

  abbrev pub get_from : List (PrioritizedItem A) → Queue A → Outcome A
  get_from [] q = waits (record q { waiting = q.waiting ++ consumer ∷ [] })
  get_from (e ∷ rest) q =
      returned (notify (record q { heap = rest })) (some (pos 0 -ℤ e.priority_neg, e.item))

  -- The part of `get` that runs without a break.
  unfoldable pub get : Queue A → Outcome A
  get q = get_from q.heap q

  unfoldable pub peek : Queue A → Option (ℤ × A)
  peek q = elim q.heap [ [] ↦ none | e ∷ rest ↦ some (pos 0 -ℤ e.priority_neg, e.item) ]

  -- A woken coroutine tests the condition of its loop again.
  unfoldable pub resume : Waiter A → Queue A → Outcome A
  resume (producer item priority) q = put item priority q
  resume consumer q = get q

  abbrev pub after : Outcome A → Queue A
  after (returned q v) = q
  after (raised q) = q
  after (waits q) = q

-- What may happen next to a queue: a call of a method by some coroutine or callback, the
-- continuation of a woken coroutine, or the task that `_notify_condition` left.
pub data Event (A : Type 0) : Type 0 where
  call_put_nowait : Bool → A → ℤ → Event A
  call_put : A → ℤ → Event A
  call_get_nowait : Bool → Event A
  call_get : Event A
  run_woken : Event A
  run_notify : Event A

module _ {A : Type 0} where
  -- The queue after a method that may raise, which raises before it changes anything.
  abbrev pub or_unchanged : Queue A → Result (Queue A) → Queue A
  or_unchanged q (ok r) = r
  or_unchanged q (err e) = q

  abbrev pub got : Queue A → Result ((ℤ × A) × Queue A) → Queue A
  got q (ok (v, r)) = r
  got q (err e) = q

  abbrev pub resume_first : List (Waiter A) → Queue A → Queue A
  resume_first [] q = q
  resume_first (w ∷ ws) q = after (resume w (record q { woken = ws }))

  unfoldable pub step : Event A → Queue A → Queue A
  step (call_put_nowait locked item p) q = or_unchanged q (put_nowait locked item p q)
  step (call_put item p) q = after (put item p q)
  step (call_get_nowait locked) q = got q (get_nowait locked q)
  step call_get q = after (get q)
  step run_woken q = resume_first q.woken q
  step run_notify q = async_notify q

  unfoldable pub run : List (Event A) → Queue A → Queue A
  run [] q = q
  run (e ∷ es) q = run es (step e q)
