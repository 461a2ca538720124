-- ===== src/Clock/Waking.antt =====
-- Which sleepers an advance wakes: exactly the pending ones whose deadline has come, in the order
-- of their deadlines.
use peer_q.Prelude.{
  ◌≡◌, ◌≢◌, refl, Bool, true, false, not, ◌&&◌, Option, none, some, List, [], ◌∷◌, map, arith,
  if◌then◌else◌, subst, All, Bool-cases, inl, inr, select, at_most, at_most-first, nat_ordered,
  pair_ordered,
}
use peer_q.Prelude.Int.{ℤ, ◌≤ℤ◌, ◌<ℤ◌, ltb_ℤ, leb_ℤ, int_ordered}
use peer_q.Errors.{Result, ok, err, value_error}
use peer_q.Heap.Laws.{IsHeap}
use peer_q.Clock.{
  FutureState, pending, cancelled, done, Sleeper, sleeper_key, SimClock, drop_cancelled, is_pending,
  wake_due, advance_to, step, step_from,
}
use peer_q.Clock.Invariant.{IsClock, IsAhead, dropped-IsClock}

abbrev pub is_due : ℤ → Sleeper → Bool
is_due target s = leb_ℤ s.deadline target

-- Awake, as `set_result` leaves a future.
abbrev pub awake : Sleeper → Sleeper
awake s = record s { future = done }

-- Behind a sleeper that is not due none is.
none_due :
    (target : ℤ) (s : Sleeper) (ss : List Sleeper)
    → target <ℤ s.deadline
    → All (λ t. at_most (sleeper_key s) (sleeper_key t) ≡ true) ss
    → (select (λ t. is_due target t && is_pending t.future) ss ≡ [])
      × (select (λ t. not (is_due target t)) ss ≡ ss)
unfolding select
none_due target s [] d h = (refl, refl)
none_due target s (t ∷ ts) d h =
    ground (arith, at_most-first (sleeper_key s) (sleeper_key t) h.0, none_due target s ts d h.1)

wake_due_lem :
    (target now : ℤ) (ss : List Sleeper)
    → IsHeap sleeper_key ss
    → ((wake_due target now ss).woken
        ≡ map awake (select (λ t. is_due target t && is_pending t.future) ss))
      × ((wake_due target now ss).left ≡ select (λ t. not (is_due target t)) ss)
unfolding wake_due select
wake_due_lem target now [] h = (refl, refl)
wake_due_lem target now (s ∷ ss) h = ground (
  arith,
  wake_due_lem target (if is_pending s.future then s.deadline else now) ss h.1,
  none_due target s ss,
)

-- What `advance_to` promises: a target in the past is refused; else the clock reads the target, the
-- pending sleepers that are due by then are woken, earliest deadline first, and those that are not
-- due stay.
abbrev pub Advances : ℤ → SimClock → Result (List Sleeper × SimClock) → Type 0
Advances target c (err e) = (target <ℤ c.now) × (e ≡ value_error)
Advances target c (ok (woken, d)) =
    (c.now ≤ℤ target)
    × (d.now ≡ target)
    × (woken ≡ map awake (select (λ s. is_due target s && is_pending s.future) c.sleepers))
    × (d.sleepers ≡ select (λ s. not (is_due target s)) c.sleepers)

-- On a well-formed clock `advance_to` raises for a target before the present and nothing else; for
-- any other target the clock reads the target, exactly the pending sleepers whose deadline has come
-- are woken, earliest first, and exactly those that are not due stay.
pub advance_to-Advances :
    (target : ℤ) (c : SimClock) → IsClock c → Advances target c (advance_to target c)
unfolding advance_to
advance_to-Advances target c h =
    let (woken, left) = wake_due_lem target c.now c.sleepers h.ordered in
    elim (Bool-cases (ltb_ℤ target c.now)) [
      | inl back ↦ rw back (ground arith, refl)
      | inr on ↦ rw on (ground arith, refl, woken, left)
    ]

-- A heap without cancelled head begins with a sleeper that is not cancelled.
drop-head :
    (ss : List Sleeper) (s : Sleeper) (rest : List Sleeper)
    → drop_cancelled ss ≡ s ∷ rest
    → s.future ≢ cancelled
unfolding drop_cancelled
drop-head [] s rest e = λ f. cc
drop-head (t ∷ ts) s rest e = λ f. ground (arith, drop-head ts s rest)

pending_of : (f : FutureState) → f ≢ cancelled → f ≢ done → is_pending f ≡ true
pending_of pending c d = refl
pending_of cancelled c d = absurd (c refl)
pending_of done c d = absurd (d refl)

-- What `step` promises: with no live sleeper it does nothing, and else it moves the clock on to the
-- earliest deadline and wakes at least that sleeper.
abbrev pub Steps : SimClock → Option ℤ × Result (List Sleeper × SimClock) → Type 0
Steps c (none, ok (woken, d)) = (drop_cancelled c.sleepers ≡ []) × (woken ≡ []) × (d.now ≡ c.now)
Steps c (some t, ok (woken, d)) = (c.now <ℤ t) × (d.now ≡ t) × (woken ≢ [])
Steps c (o, err e) = ⊥

step_from-Steps :
    (ss : List Sleeper) (c : SimClock)
    → drop_cancelled c.sleepers ≡ ss
    → IsClock c
    → Steps c (step_from ss (record c { sleepers = ss }))
unfolding advance_to wake_due
step_from-Steps [] c e h = (e, refl, refl)
step_from-Steps (s ∷ ss) c e h =
    let all : All (IsAhead c.now c.counter) (s ∷ ss) =
      subst (All (IsAhead c.now c.counter)) e (dropped-IsClock c h).ahead in
    let live : is_pending s.future ≡ true =
      pending_of s.future (drop-head c.sleepers s ss e) all.0.asleep in
    let later : ltb_ℤ s.deadline c.now ≡ false = ground (arith, all.0.later) in
    let here : ltb_ℤ s.deadline s.deadline ≡ false = ground arith in
    rw (later, here, live) (all.0.later, refl, λ f. cc)

-- On a well-formed clock `step` never raises: without a live sleeper it returns None and keeps the
-- time, and else it returns a later deadline, moves the clock there and wakes some sleeper.
pub step-Steps : (c : SimClock) → IsClock c → Steps c (step c)
unfolding step
step-Steps c h = step_from-Steps (drop_cancelled c.sleepers) c refl h
