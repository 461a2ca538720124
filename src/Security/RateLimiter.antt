-- ===== src/Security/RateLimiter.antt =====
-- `RateLimiter` of peerq/security.py. The sources are an OrderedDict, each with its deque of times
-- in whole microseconds.
use peer_q.Prelude.{
  ℕ, ◌+◌, ◌≤◌, ◌<◌, ◌≡◌, refl, Str, Bool, true, false, ◌&&◌, Option, none, some, List, [], ◌∷◌,
  ◌++◌, arith, if◌then◌else◌, ltb, leb, length, length-append, All, str_ordered, Bool-cases, inl,
  inr, Option-cases, ◌⊎◌,
}
use peer_q.Prelude.Int.{ℤ, pos, ◌-ℤ◌, ltb_ℤ}
use peer_q.Prelude.Dict.{Dict, lookup, remove}
use peer_q.Errors.{Result, ok, value_error, ◌>>◌, check}

pub record RateLimiter : Type 0 where
  pub max_events : ℕ
  pub window : ℤ
  pub max_sources : ℕ
  pub events : Dict Str (List ℤ)

-- `RateLimiter(max_events, window_seconds, max_sources)`
unfoldable pub new_limiter : ℕ → ℤ → ℕ → Result RateLimiter
new_limiter max_events window max_sources = do
  check (ltb 0 max_events && ltb_ℤ (pos 0) window && ltb 0 max_sources) value_error
  ok (record { max_events = max_events; window = window; max_sources = max_sources; events = [] })

-- `popitem(last=False)`
abbrev pub pop_front : Dict Str (List ℤ) → Dict Str (List ℤ)
pop_front [] = []
pop_front (e ∷ es) = es

-- The other sources, in their order, and the times of this one: a new source may push out the
-- oldest, a known one moves to the end.
abbrev pub others : Option (List ℤ) → Str → RateLimiter → Dict Str (List ℤ)
others none source l = if leb l.max_sources (length l.events) then pop_front l.events else l.events
others (some _) source l = remove source l.events

abbrev pub times_of : Option (List ℤ) → List ℤ
times_of none = []
times_of (some ts) = ts

-- `while events and events[0] < cutoff: events.popleft()`
unfoldable pub pop_old : ℤ → List ℤ → List ℤ
pop_old cutoff [] = []
pop_old cutoff (t ∷ ts) = let rest = pop_old cutoff ts in if ltb_ℤ t cutoff then rest else t ∷ ts

unfoldable pub allow_from : Option (List ℤ) → Str → ℤ → RateLimiter → Bool × RateLimiter
allow_from known source now l =
    let recent = pop_old (now -ℤ l.window) (times_of known) in
    if leb l.max_events (length recent)
    then (false, record l { events = others known source l ++ (source, recent) ∷ [] })
    else (true, record l { events = others known source l ++ (source, recent ++ now ∷ []) ∷ [] })

unfoldable pub allow : Str → ℤ → RateLimiter → Bool × RateLimiter
allow source now l = allow_from (lookup source l.events) source now l

pub record IsLimiter (l : RateLimiter) : Type 0 where
  pub sources : length l.events ≤ l.max_sources
  pub bounded : All (λ e. length e.1 ≤ l.max_events) l.events

module _ (limit : ℕ) where
  abbrev Few : Dict Str (List ℤ) → Type 0
  Few = All (λ e. length e.1 ≤ limit)

  Few-remove : (k : Str) (d : Dict Str (List ℤ)) → Few d → Few (remove k d)
  unfolding remove
  Few-remove k [] h = tt
  Few-remove k (e ∷ d) h = ground (arith, Few-remove k d h.1)

  Few-snoc :
      (d : Dict Str (List ℤ)) (e : Str × List ℤ) → Few d → length e.1 ≤ limit → Few (d ++ e ∷ [])
  Few-snoc [] e h n = (n, tt)
  Few-snoc (f ∷ d) e h n = (h.0, Few-snoc d e h.1 n)

  Few-lookup :
      (k : Str) (d : Dict Str (List ℤ)) (ts : List ℤ)
      → Few d
      → lookup k d ≡ some ts
      → length ts ≤ limit
  unfolding lookup
  Few-lookup k [] ts h e = ground arith
  Few-lookup k (f ∷ d) ts h e = ground (arith, Few-lookup k d ts h.1)

  length-remove :
      (k : Str) (d : Dict Str (List ℤ)) (ts : List ℤ)
      → lookup k d ≡ some ts
      → length (remove k d) + 1 ≡ length d
  unfolding lookup remove
  length-remove k [] ts e = ground arith
  length-remove k (f ∷ d) ts e = ground (arith, length-remove k d ts)

length-pop_old : (cutoff : ℤ) (ts : List ℤ) → length (pop_old cutoff ts) ≤ length ts
unfolding pop_old
length-pop_old cutoff [] = omega arith
length-pop_old cutoff (t ∷ ts) = ground (arith, length-pop_old cutoff ts)

Few-front : (limit : ℕ) (d : Dict Str (List ℤ)) → Few limit d → Few limit (pop_front d)
Few-front limit [] h = tt
Few-front limit (e ∷ d) h = h.1

length-front : (d : Dict Str (List ℤ)) → length (pop_front d) + 1 ≤ length d ⊎ (length d ≡ 0)
length-front [] = inr refl
length-front (e ∷ d) = inl (omega arith)

allow_from-IsLimiter :
    (known : Option (List ℤ)) (source : Str) (now : ℤ) (l : RateLimiter)
    → IsLimiter l
    → length (others known source l) + 1 ≤ l.max_sources
    → Few l.max_events (others known source l)
    → length (times_of known) ≤ l.max_events
    → IsLimiter (allow_from known source now l).1
unfolding allow_from
allow_from-IsLimiter known source now l h room few kept =
    let recent : List ℤ = pop_old (now -ℤ l.window) (times_of known) in
    elim (Bool-cases (leb l.max_events (length recent))) [
      | inl over ↦ rw over (record {
        sources =
            omega (arith, room, length-append (others known source l) ((source, recent) ∷ []));
        bounded =
            Few-snoc l.max_events (others known source l) (source, recent) few
              (omega (arith, kept, length-pop_old (now -ℤ l.window) (times_of known)));
      })
      | inr under ↦ rw under (record {
        sources = omega (
          arith,
          room,
          length-append (others known source l) ((source, recent ++ now ∷ []) ∷ []),
        );
        bounded =
            Few-snoc l.max_events (others known source l) (source, recent ++ now ∷ []) few
              (ground (arith, length-append recent (now ∷ [])));
      })
    ]

room_for_new :
    (l : RateLimiter)
    → 0 < l.max_sources
    → IsLimiter l
    → length (if leb l.max_sources (length l.events) then pop_front l.events else l.events) + 1
      ≤ l.max_sources
room_for_new l positive h = elim (Bool-cases (leb l.max_sources (length l.events))) [
  | inl e ↦ rw e (ground (arith, length-front l.events, h.sources))
  | inr e ↦ rw e (ground arith)
]

Few-others :
    (l : RateLimiter)
    → IsLimiter l
    → Few l.max_events
        (if leb l.max_sources (length l.events) then pop_front l.events else l.events)
Few-others l h = elim (Bool-cases (leb l.max_sources (length l.events))) [
  | inl e ↦ rw e (Few-front l.max_events l.events h.bounded)
  | inr e ↦ rw e h.bounded
]

-- A limiter for at least one source never holds more sources than `max_sources`, nor more events of
-- one source than `max_events`.
pub allow-IsLimiter :
    (source : Str) (now : ℤ) (l : RateLimiter)
    → 0 < l.max_sources
    → IsLimiter l
    → IsLimiter (allow source now l).1
unfolding allow
allow-IsLimiter source now l positive h = elim (Option-cases (lookup source l.events)) [
  | inl n ↦ rw n (
      allow_from-IsLimiter none source now l h (room_for_new l positive h) (Few-others l h)
        (omega arith))
  | inr (ts, e) ↦ rw e (
      allow_from-IsLimiter (some ts) source now l h
        (omega (arith, length-remove l.max_events source l.events ts e, h.sources))
        (Few-remove l.max_events source l.events h.bounded)
        (Few-lookup l.max_events source l.events ts h.bounded e))
]
