-- ===== src/Clock.antt =====
-- `SimClock` of peerq/clock.py. Its sleepers are a heap under (deadline, counter); a sleeper's
-- future is its state, and the woken futures are returned in the order of their wake-up.
pub mod Invariant
pub mod Waking
use peer_q.Prelude.{
  ℕ, suc, ◌+◌, Bool, true, false, Option, none, some, List, [], ◌∷◌, ◌++◌, if◌then◌else◌, length,
  ◌==◌, nat_ordered, pair_ordered,
}
use peer_q.Prelude.Int.{ℤ, pos, ◌+ℤ◌, ltb_ℤ, leb_ℤ, int_ordered}
use peer_q.Errors.{Result, ok, err, value_error}
use peer_q.Heap.{heappush}

pub data FutureState : Type 0 where
  pending cancelled done : FutureState

pub record Sleeper : Type 0 where
  pub deadline : ℤ
  pub counter : ℕ
  pub future : FutureState

abbrev pub sleeper_key : Sleeper → ℤ × ℕ
sleeper_key s = (s.deadline, s.counter)

pub record SimClock : Type 0 where
  pub now : ℤ
  pub sleepers : List Sleeper
  pub counter : ℕ

abbrev pub new_clock : ℤ → SimClock
new_clock initial_time = record { now = initial_time; sleepers = []; counter = 0 }

-- `sleep`: nothing is registered for a delay that is not positive.
unfoldable pub sleep : ℤ → SimClock → SimClock
sleep delay c = if leb_ℤ delay (pos 0) then c else record c {
  sleepers =
      heappush sleeper_key
        (record { deadline = c.now +ℤ delay; counter = c.counter; future = pending }) c.sleepers;
  counter = c.counter + 1;
}

-- The caller cancels the sleep that was registered under `counter`; its entry stays in the heap.
abbrev pub cancel_one : ℕ → Sleeper → Sleeper
cancel_one counter s = record s { future = if s.counter == counter then cancelled else s.future }

unfoldable pub cancel_in : ℕ → List Sleeper → List Sleeper
cancel_in counter [] = []
cancel_in counter (s ∷ ss) = cancel_one counter s ∷ cancel_in counter ss

unfoldable pub cancel : ℕ → SimClock → SimClock
cancel counter c = record c { sleepers = cancel_in counter c.sleepers }

-- `while sleepers and sleepers[0][2].cancelled(): heappop(sleepers)`
unfoldable pub drop_cancelled : List Sleeper → List Sleeper
drop_cancelled [] = []
drop_cancelled (s ∷ ss) =
    let rest = drop_cancelled ss in elim s.future [ cancelled ↦ rest | _ ↦ s ∷ ss ]

abbrev pub is_pending : FutureState → Bool
is_pending pending = true
is_pending _ = false

unfoldable pub has_pending_sleepers : SimClock → Bool × SimClock
has_pending_sleepers c =
    let rest = drop_cancelled c.sleepers in
    (elim rest [ [] ↦ false | _ ∷ _ ↦ true ], record c { sleepers = rest })

abbrev pub first_deadline : List Sleeper → Option ℤ
first_deadline [] = none
first_deadline (s ∷ ss) = some s.deadline

unfoldable pub next_deadline : SimClock → Option ℤ × SimClock
next_deadline c =
    let rest = drop_cancelled c.sleepers in (first_deadline rest, record c { sleepers = rest })

-- The loop of `advance_to`: the time it reaches, the futures it wakes and the sleepers it leaves.
pub record Woken : Type 0 where
  pub now : ℤ
  pub woken : List Sleeper
  pub left : List Sleeper

unfoldable pub wake_due : ℤ → ℤ → List Sleeper → Woken
wake_due target now [] = record { now = now; woken = []; left = [] }
wake_due target now (s ∷ ss) =
    let rest = wake_due target (if is_pending s.future then s.deadline else now) ss in
    if ltb_ℤ target s.deadline
    then record { now = now; woken = []; left = s ∷ ss }
    else if is_pending s.future
    then record rest { woken = record s { future = done } ∷ rest.woken }
    else rest

-- The number of sleepers woken is the length of the list.
unfoldable pub advance_to : ℤ → SimClock → Result (List Sleeper × SimClock)
advance_to target c =
    if ltb_ℤ target c.now
    then err value_error
    else let w = wake_due target c.now c.sleepers in
      ok (w.woken, record c { now = target; sleepers = w.left })

unfoldable pub advance : ℤ → SimClock → Result (List Sleeper × SimClock)
advance duration c =
    if ltb_ℤ duration (pos 0) then err value_error else advance_to (c.now +ℤ duration) c

-- `step` on the heap without its cancelled head.
abbrev pub step_from : List Sleeper → SimClock → Option ℤ × Result (List Sleeper × SimClock)
step_from [] c = (none, ok ([], c))
step_from (s ∷ ss) c = (some s.deadline, advance_to s.deadline c)

unfoldable pub step : SimClock → Option ℤ × Result (List Sleeper × SimClock)
step c = let rest = drop_cancelled c.sleepers in step_from rest (record c { sleepers = rest })
