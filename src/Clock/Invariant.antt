-- ===== src/Clock/Invariant.antt =====
-- The sleepers stay in chronological order, in the future, under distinct counters, and virtual
-- time never runs backwards.
use peer_q.Prelude.{
  ℕ, ◌+◌, ◌<◌, ◌≡◌, ◌≢◌, refl, true, List, [], ◌∷◌, arith, if◌then◌else◌, All, Bool-cases, inl, inr,
  at_most, at_most-first, nat_ordered, pair_ordered, ◌==◌,
}
use peer_q.Prelude.Int.{ℤ, pos, ◌+ℤ◌, ◌≤ℤ◌, ◌<ℤ◌, +ℤ_parts, ltb_ℤ, leb_ℤ, int_ordered}
use peer_q.Errors.{Result, ok, err}
use peer_q.Heap.Laws.{IsHeap, heappush-IsHeap, All-heappush}
use peer_q.Clock.{
  FutureState, pending, cancelled, done, Sleeper, sleeper_key, SimClock, sleep, cancel, cancel_in,
  drop_cancelled, is_pending, wake_due, advance_to,
}

-- What holds of each sleeper of a clock: it lies in the future and has not been woken.
pub record IsAhead (now : ℤ) (counter : ℕ) (s : Sleeper) : Type 0 where
  pub later : now <ℤ s.deadline
  pub used : s.counter < counter
  pub asleep : s.future ≢ done

pub record IsClock (c : SimClock) : Type 0 where
  pub ordered : IsHeap sleeper_key c.sleepers
  pub ahead : All (IsAhead c.now c.counter) c.sleepers

used_weaker :
    (now : ℤ) (n : ℕ) (ss : List Sleeper) → All (IsAhead now n) ss → All (IsAhead now (n + 1)) ss
used_weaker now n [] h = tt
used_weaker now n (s ∷ ss) h = (
  record { later = h.0.later; used = omega (arith, h.0.used); asleep = h.0.asleep },
  used_weaker now n ss h.1,
)

-- A sleep keeps the clock well formed: its sleepers stay in the order of deadline and arrival, each
-- with a deadline after the present, a counter below the next one, and a future that is not done.
pub sleep-IsClock : (delay : ℤ) (c : SimClock) → IsClock c → IsClock (sleep delay c)
unfolding sleep
sleep-IsClock delay c h = elim (Bool-cases (leb_ℤ delay (pos 0))) [
  | inl z ↦ rw z h
  | inr n ↦
      let s : Sleeper = record {
        deadline = c.now +ℤ delay;
        counter = c.counter;
        future = pending;
      } in
      let fresh : IsAhead c.now (c.counter + 1) s = record {
        later = ground (arith, +ℤ_parts c.now delay);
        used = omega arith;
        asleep = λ e. cc;
      } in
      rw n (record {
        ordered = heappush-IsHeap sleeper_key s c.sleepers h.ordered;
        ahead =
            All-heappush sleeper_key (IsAhead c.now (c.counter + 1)) s c.sleepers fresh
              (used_weaker c.now c.counter c.sleepers h.ahead);
      })
]

-- What the loop of `advance_to` leaves of an ordered heap.
wake_due-ordered :
    (target now : ℤ) (ss : List Sleeper)
    → IsHeap sleeper_key ss
    → IsHeap sleeper_key (wake_due target now ss).left
unfolding wake_due
wake_due-ordered target now [] h = tt
wake_due-ordered target now (s ∷ ss) h =
    ground (arith, wake_due-ordered target (if is_pending s.future then s.deadline else now) ss h.1)

-- A sleeper behind one that is not due is not due either.
behind :
    (target now : ℤ) (n : ℕ) (s : Sleeper) (ss : List Sleeper)
    → target <ℤ s.deadline
    → All (λ t. at_most (sleeper_key s) (sleeper_key t) ≡ true) ss
    → All (IsAhead now n) ss
    → All (IsAhead target n) ss
behind target now n s [] d h a = tt
behind target now n s (t ∷ ts) d h a = (
  record {
    later = ground (arith, at_most-first (sleeper_key s) (sleeper_key t) h.0);
    used = a.0.used;
    asleep = a.0.asleep;
  },
  behind target now n s ts d h.1 a.1,
)

wake_due-IsAhead :
    (target now old : ℤ) (n : ℕ) (ss : List Sleeper)
    → IsHeap sleeper_key ss
    → All (IsAhead old n) ss
    → All (IsAhead target n) (wake_due target now ss).left
unfolding wake_due
wake_due-IsAhead target now old n [] h a = tt
wake_due-IsAhead target now old n (s ∷ ss) h a = elim (Bool-cases (ltb_ℤ target s.deadline)) [
  | inl later ↦
      let d : target <ℤ s.deadline = ground arith in
      rw later (
        record { later = d; used = a.0.used; asleep = a.0.asleep },
        behind target old n s ss d h.0 a.1,
      )
  | inr due ↦
      let rest : All (IsAhead target n)
          (wake_due target (if is_pending s.future then s.deadline else now) ss).left =
        wake_due-IsAhead target (if is_pending s.future then s.deadline else now) old n ss h.1
          a.1 in
      elim (Bool-cases (is_pending s.future)) [
        | inl p ↦ rw (due, p) (rw p at rest)
        | inr p ↦ rw (due, p) (rw p at rest)
      ]
]

-- A predicate of the clock that an operation leaves, where it does not raise.
abbrev pub OnOk : (SimClock → Type 0) → Result (List Sleeper × SimClock) → Type 0
OnOk P (ok (w, c)) = P c
OnOk P (err e) = Unit

-- Where `advance_to` does not raise, a well-formed clock stays well formed, reads the target, and has
-- not gone back.
pub advance_to-IsClock :
    (target : ℤ) (c : SimClock)
    → IsClock c
    → OnOk (λ d. IsClock d × (c.now ≤ℤ d.now) × (d.now ≡ target)) (advance_to target c)
unfolding advance_to
advance_to-IsClock target c h = elim (Bool-cases (ltb_ℤ target c.now)) [
  | inl back ↦ rw back tt
  | inr on ↦ rw on (
    record {
      ordered = wake_due-ordered target c.now c.sleepers h.ordered;
      ahead = wake_due-IsAhead target c.now c.now c.counter c.sleepers h.ordered h.ahead;
    },
    ground arith,
    refl,
  )
]

drop-ordered : (ss : List Sleeper) → IsHeap sleeper_key ss → IsHeap sleeper_key (drop_cancelled ss)
unfolding drop_cancelled
drop-ordered [] h = tt
drop-ordered (s ∷ ss) h = ground (arith, drop-ordered ss h.1)

drop-IsAhead :
    (now : ℤ) (n : ℕ) (ss : List Sleeper)
    → All (IsAhead now n) ss
    → All (IsAhead now n) (drop_cancelled ss)
unfolding drop_cancelled
drop-IsAhead now n [] h = tt
drop-IsAhead now n (s ∷ ss) h = dropped (drop-IsAhead now n ss h.1) s.future
  where
    dropped :
        All (IsAhead now n) (drop_cancelled ss)
        → (f : FutureState)
        → All
            (IsAhead now n)
            (elim f as (λ _. List Sleeper) [ cancelled ↦ drop_cancelled ss | _ ↦ s ∷ ss ])
    dropped rest cancelled = rest
    dropped rest pending = h
    dropped rest done = h

pub dropped-IsClock :
    (c : SimClock) → IsClock c → IsClock (record c { sleepers = drop_cancelled c.sleepers })
dropped-IsClock c h = record {
  ordered = drop-ordered c.sleepers h.ordered;
  ahead = drop-IsAhead c.now c.counter c.sleepers h.ahead;
}

cancel-behind :
    (k : ℕ) (x : ℤ × ℕ) (ss : List Sleeper)
    → All (λ t. at_most x (sleeper_key t) ≡ true) ss
    → All (λ t. at_most x (sleeper_key t) ≡ true) (cancel_in k ss)
unfolding cancel_in
cancel-behind k x [] h = tt
cancel-behind k x (s ∷ ss) h = (h.0, cancel-behind k x ss h.1)

cancel-ordered :
    (k : ℕ) (ss : List Sleeper) → IsHeap sleeper_key ss → IsHeap sleeper_key (cancel_in k ss)
unfolding cancel_in
cancel-ordered k [] h = tt
cancel-ordered k (s ∷ ss) h = (cancel-behind k (sleeper_key s) ss h.0, cancel-ordered k ss h.1)

cancel-IsAhead :
    (now : ℤ) (n k : ℕ) (ss : List Sleeper)
    → All (IsAhead now n) ss
    → All (IsAhead now n) (cancel_in k ss)
unfolding cancel_in
cancel-IsAhead now n k [] h = tt
cancel-IsAhead now n k (s ∷ ss) h = (
  record {
    later = h.0.later;
    used = h.0.used;
    asleep = elim (Bool-cases (s.counter == k)) [
      | inl e ↦ rw e (λ f. cc)
      | inr e ↦ rw e h.0.asleep
    ];
  },
  cancel-IsAhead now n k ss h.1,
)

-- A cancelled sleep leaves the clock well formed.
pub cancel-IsClock : (k : ℕ) (c : SimClock) → IsClock c → IsClock (cancel k c)
unfolding cancel
cancel-IsClock k c h = record {
  ordered = cancel-ordered k c.sleepers h.ordered;
  ahead = cancel-IsAhead c.now c.counter k c.sleepers h.ahead;
}
