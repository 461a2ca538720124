-- ===== src/Failure/Windows.antt =====
-- What `heartbeat` of peerq/failure.py keeps of a peer, and what it does to the suspicion of peers.
use peer_q.Prelude.{
  ℕ, ◌≤◌, ◌≡◌, ◌≢◌, refl, ap, subst, ◌∙◌, Str, true, false, Option, none, some, List, [], ◌∷◌,
  arith, if◌then◌else◌, if_cases, ltb, length, length-append, All, All-append, ◌==◌, ==_iff,
  ==_self, str_ordered,
}
use peer_q.Prelude.Int.{ℤ, pos, ◌-ℤ◌, ◌<ℤ◌, ltb_ℤ, leb_ℤ, -ℤ_parts}
use peer_q.Prelude.Dict.{Dict, lookup, insert, lookup-insert, All-insert}
use peer_q.Failure.{
  Detector, new_detector, push_sample, samples, with_interval, heartbeat, phi, phi_since, calm,
  fitted,
}

-- A window: no longer than the limit, of positive intervals.
abbrev pub IsWindow : ℕ → List ℤ → Type 0
IsWindow limit ts = (length ts ≤ limit) × All (λ t. pos 0 <ℤ t) ts

abbrev pub HasWindows : Detector → Type 0
HasWindows d = All (λ e. IsWindow d.window_size e.1) d.intervals

push_sample-IsWindow :
    (limit : ℕ) (ts : List ℤ) (x : ℤ)
    → pos 0 <ℤ x
    → IsWindow limit ts
    → IsWindow limit (push_sample limit ts x)
push_sample-IsWindow limit [] x p h =
    if_cases (IsWindow limit) (ltb 0 limit) (λ e. (ground arith, (p, tt))) (λ _. (omega arith, tt))
push_sample-IsWindow limit (t ∷ ts) x p (short, (q, all)) =
    if_cases (IsWindow limit) (ltb (length (t ∷ ts)) limit)
      (λ e. (
        ground (arith, length-append (t ∷ ts) (x ∷ [])),
        All-append _ (t ∷ ts) (x ∷ []) (q, all) (p, tt),
      ))
      (λ _.
        if_cases (IsWindow limit) (ltb 0 limit)
          (λ e. (ground (arith, length-append ts (x ∷ [])), All-append _ ts (x ∷ []) all (p, tt)))
          (λ _. (omega arith, tt)))

samples-IsWindow :
    (limit : ℕ) (peer : Str) (d : Dict Str (List ℤ))
    → All (λ e. IsWindow limit e.1) d
    → IsWindow limit (samples (lookup peer d))
unfolding lookup
samples-IsWindow limit peer [] h = (omega arith, tt)
samples-IsWindow limit peer ((k, ts) ∷ d) h =
    elim (k == peer) as (λ b. IsWindow limit (samples (if b then some ts else lookup peer d))) [
      | true ↦ h.0
      | false ↦ samples-IsWindow limit peer d h.1
    ]

-- The detector behind the heartbeats, each of a peer at a time.
unfoldable pub beats : List (Str × ℤ) → Detector → Detector
beats [] d = d
beats ((peer, now) ∷ rest) d = beats rest (heartbeat peer now d)

with_interval-HasWindows :
    (peer : Str) (now : ℤ) (last : Option ℤ) (d : Detector)
    → HasWindows d
    → HasWindows (with_interval peer now last d)
with_interval-HasWindows peer now none d h = h
with_interval-HasWindows peer now (some earlier) d h =
    if_cases HasWindows (ltb_ℤ (pos 0) (now -ℤ earlier))
      (λ e.
        All-insert _ peer _ d.intervals
          (push_sample-IsWindow d.window_size _ (now -ℤ earlier) (ground arith)
            (samples-IsWindow d.window_size peer d.intervals h))
          h)
      (λ _. h)

heartbeat-HasWindows :
    (peer : Str) (now : ℤ) (d : Detector) → HasWindows d → HasWindows (heartbeat peer now d)
unfolding heartbeat
heartbeat-HasWindows peer now d h =
    with_interval-HasWindows peer now (lookup peer d.last_heartbeat) d h

beats-HasWindows : (hs : List (Str × ℤ)) (d : Detector) → HasWindows d → HasWindows (beats hs d)
unfolding beats
beats-HasWindows [] d h = h
beats-HasWindows ((peer, now) ∷ rest) d h =
    beats-HasWindows rest (heartbeat peer now d) (heartbeat-HasWindows peer now d h)

phi_since_now :
    (now : ℤ) (known : Option (List ℤ)) (d : Detector) → phi_since (some now) known now d ≡ calm
phi_since_now now none d = refl
phi_since_now now (some ts) d = ground (arith, -ℤ_parts now now)

lookup_other {ℓ} :
    {V : Type ℓ} (peer other : Str) (v : V) (d : Dict Str V)
    → other ≢ peer
    → lookup other (insert peer v d) ≡ lookup other d
lookup_other peer other v d h = ground (arith, h, lookup-insert peer other v d, ==_iff peer other)

lookup_self {ℓ} : {V : Type ℓ} (k : Str) (v : V) (d : Dict Str V) → lookup k (insert k v d) ≡ some v
lookup_self k v d = ground (arith, lookup-insert k k v d, ==_self k)

with_interval_other :
    (peer other : Str) (now : ℤ) (last : Option ℤ) (d : Detector)
    → other ≢ peer
    → let e = with_interval peer now last d in
      (lookup other e.intervals ≡ lookup other d.intervals) × (e.min_samples ≡ d.min_samples)
with_interval_other peer other now none d h = (refl, refl)
with_interval_other peer other now (some earlier) d h =
    if_cases {A = Detector}
      (λ e. (lookup other e.intervals ≡ lookup other d.intervals) × (e.min_samples ≡ d.min_samples))
      (ltb_ℤ (pos 0) (now -ℤ earlier)) (λ _. (lookup_other peer other _ d.intervals h, refl))
      (λ _. (refl, refl))

phi_since_same :
    (last : Option ℤ) (known : Option (List ℤ)) (now : ℤ) (d e : Detector)
    → e.min_samples ≡ d.min_samples
    → phi_since last known now e ≡ phi_since last known now d
phi_since_same none known now d e h = refl
phi_since_same (some earlier) none now d e h = refl
phi_since_same (some earlier) (some ts) now d e h =
    ap
      (λ m.
        if ltb (length ts) m
        then calm
        else if leb_ℤ (now -ℤ earlier) (pos 0)
        then calm
        else fitted ts (now -ℤ earlier))
      h

pub phi-calm : (peer : Str) (now : ℤ) (d : Detector) → phi peer now (heartbeat peer now d) ≡ calm
unfolding phi heartbeat
phi-calm peer now d =
    let e = heartbeat peer now d in
    let m = with_interval peer now (lookup peer d.last_heartbeat) d in
    ap (λ o. phi_since o (lookup peer m.intervals) now e) (lookup_self peer now d.last_heartbeat)
    ∙ phi_since_now now (lookup peer m.intervals) e

-- A heartbeat silences the suspicion of its peer at its time, whatever was known, and leaves the
-- suspicion of any other peer at any time as it was.
pub phi-heartbeat :
    (peer other : Str) (now later : ℤ) (d : Detector)
    → other ≢ peer
    → (phi peer now (heartbeat peer now d) ≡ calm)
      × (phi other later (heartbeat peer now d) ≡ phi other later d)
unfolding phi heartbeat
phi-heartbeat peer other now later d h =
    let e = heartbeat peer now d in
    let (kept, same) = with_interval_other peer other now (lookup peer d.last_heartbeat) d h in
    (
      phi-calm peer now d,
      ap (λ o. phi_since o (lookup other e.intervals) later e)
            (lookup_other peer other now d.last_heartbeat h)
          ∙ ap (λ k. phi_since (lookup other d.last_heartbeat) k later e) kept
          ∙ phi_since_same (lookup other d.last_heartbeat) (lookup other d.intervals) later d e
              same,
    )

heartbeat-window_size :
    (peer : Str) (now : ℤ) (last : Option ℤ) (d : Detector)
    → (with_interval peer now last d).window_size ≡ d.window_size
heartbeat-window_size peer now none d = refl
heartbeat-window_size peer now (some earlier) d =
    if_cases {A = Detector} (λ e. e.window_size ≡ d.window_size) (ltb_ℤ (pos 0) (now -ℤ earlier))
      (λ _. refl) (λ _. refl)

beats-window_size : (hs : List (Str × ℤ)) (d : Detector) → (beats hs d).window_size ≡ d.window_size
unfolding beats heartbeat
beats-window_size [] d = refl
beats-window_size ((peer, now) ∷ rest) d =
    beats-window_size rest (heartbeat peer now d)
    ∙ heartbeat-window_size peer now (lookup peer d.last_heartbeat) d

-- However the heartbeats come, in whatever order of times, the window of a peer holds no more
-- intervals than `window_size`, and positive ones only.
pub beats-IsWindow :
    (window_size min_samples : ℕ) (hs : List (Str × ℤ)) (peer : Str)
    → IsWindow window_size
        (samples (lookup peer (beats hs (new_detector window_size min_samples)).intervals))
beats-IsWindow window_size min_samples hs peer =
    let new = new_detector window_size min_samples in
    let d = beats hs new in
    subst (λ limit. IsWindow limit (samples (lookup peer d.intervals))) (beats-window_size hs new)
      (samples-IsWindow d.window_size peer d.intervals (beats-HasWindows hs new tt))
