-- ===== src/Node/Lease.antt =====
-- The lease that `_worker_loop` of peerq/node.py takes for a task: the payload may ask for one. The
-- UTF-8 decoder with json.loads, and `float` of a text, are parameters.
use peer_q.Prelude.{
  ◌≡◌, ◌⊎◌, refl, Str, Bytes, Bool, true, false, ◌||◌, Option, none, some, arith, codes,
  if◌then◌else◌, Bool-cases, inl, inr,
}
use peer_q.Prelude.Int.{ℤ, pos, ◌≤ℤ◌, ◌<ℤ◌, leb_ℤ, ltb_ℤ}
use peer_q.Errors.{Result, ok, err}
use peer_q.Json.{Json, bool, int, float, str, obj, Float, finite, non_finite, to_float}
use peer_q.Discovery.{get_field}

abbrev pub or_else_asked : Float → Option Float → Float
or_else_asked usual none = usual
or_else_asked usual (some f) = f

abbrev pub from_result : Result Float → Option Float
from_result (ok f) = some f
from_result (err e) = none

module _ (loads : Bytes → Option Json) (float_of : Str → Option Float) where
  -- `float(value)`, whose exceptions are suppressed.
  abbrev pub as_float : Json → Option Float
  as_float (int n) = from_result (to_float n)
  as_float (float f) = some f
  as_float (bool true) = some (finite (pos 1000000))
  as_float (bool false) = some (finite (pos 0))
  as_float (str s) = float_of s
  as_float _ = none

  abbrev pub asked_value : Option Json → Option Float
  asked_value none = none
  asked_value (some j) = as_float j

  -- What the payload asks for, if it is an object with a lease.
  abbrev pub asked : Option Json → Option Float
  asked (some (obj payload)) = asked_value (get_field (codes "lease_duration") none payload)
  asked _ = none

  -- `not isfinite(d) or d <= 0.0 or d > limit`
  abbrev pub is_unfit : Float → Float → Bool
  is_unfit non_finite limit = true
  is_unfit (finite d) non_finite = leb_ℤ d (pos 0)
  is_unfit (finite d) (finite limit) = leb_ℤ d (pos 0) || ltb_ℤ limit d

  unfoldable pub task_lease_duration : Float → Float → Bytes → Float
  task_lease_duration usual limit payload =
      let d = or_else_asked usual (asked (loads payload)) in if is_unfit d limit then usual else d

  -- A duration within the limit of the configuration, which is finite.
  pub record IsLease (limit : ℤ) (d : Float) : Type 0 where
    pub micros : ℤ
    pub value : d ≡ finite micros
    pub positive : pos 0 <ℤ micros
    pub within : micros ≤ℤ limit

  IsLease-fit : (limit : ℤ) (d : Float) → is_unfit d (finite limit) ≡ false → IsLease limit d
  IsLease-fit limit non_finite h = ground (arith, h)
  IsLease-fit limit (finite d) h = record {
    micros = d;
    value = refl;
    positive = ground (arith, h);
    within = ground (arith, h);
  }

  fit_or_usual :
      (usual d : Float) (limit : ℤ)
      → IsLease limit (if is_unfit d (finite limit) then usual else d)
        ⊎ ((if is_unfit d (finite limit) then usual else d) ≡ usual)
  fit_or_usual usual d limit = elim (Bool-cases (is_unfit d (finite limit))) [
    | inl unfit ↦ inr (rw unfit refl)
    | inr fit ↦ inl (rw fit (IsLease-fit limit d fit))
  ]

  -- Whatever a payload holds, malformed text, numbers that are negative, huge or no numbers included,
  -- the lease of its task is positive and at most `max_lease_duration_seconds`, or it is the node's
  -- own duration.
  pub task_lease_duration-IsLease :
      (usual : Float) (limit : ℤ) (payload : Bytes)
      → IsLease limit (task_lease_duration usual (finite limit) payload)
        ⊎ (task_lease_duration usual (finite limit) payload ≡ usual)
  unfolding task_lease_duration
  task_lease_duration-IsLease usual limit payload =
      fit_or_usual usual (or_else_asked usual (asked (loads payload))) limit
