-- ===== src/Failure.antt =====
-- `PhiAccrualDetector` of peerq/failure.py: the heartbeats that it keeps, when `phi` is a constant,
-- and the fit of a normal distribution to the intervals. Times are whole microseconds; what `phi`
-- computes in floats is in terms of the operations of Python's floats and of its math module.
pub mod Windows
pub mod Accrual
use peer_q.Prelude.{
  ℕ, Str, Bool, Option, none, some, List, [], ◌∷◌, ◌++◌, if◌then◌else◌, ltb, length, str_ordered,
}
use peer_q.Prelude.Int.{ℤ, pos, ◌-ℤ◌, ltb_ℤ, leb_ℤ}
use peer_q.Prelude.Dict.{Dict, lookup, has, insert}

pub record Detector : Type 0 where
  pub window_size : ℕ
  pub min_samples : ℕ
  pub intervals : Dict Str (List ℤ)
  pub last_heartbeat : Dict Str ℤ

abbrev pub new_detector : ℕ → ℕ → Detector
new_detector window_size min_samples = record {
  window_size = window_size;
  min_samples = min_samples;
  intervals = [];
  last_heartbeat = [];
}

-- `append` to a `deque(maxlen=limit)`: the oldest sample leaves a full one.
abbrev pub push_sample : ℕ → List ℤ → ℤ → List ℤ
push_sample limit [] x = if ltb 0 limit then x ∷ [] else []
push_sample limit (t ∷ ts) x =
    if ltb (length (t ∷ ts)) limit
    then (t ∷ ts) ++ x ∷ []
    else if ltb 0 limit
    then ts ++ x ∷ []
    else []

abbrev pub samples : Option (List ℤ) → List ℤ
samples none = []
samples (some ts) = ts

-- A heartbeat after an earlier one adds the interval between them, if it is positive.
abbrev pub with_interval : Str → ℤ → Option ℤ → Detector → Detector
with_interval peer now none d = d
with_interval peer now (some earlier) d =
    if ltb_ℤ (pos 0) (now -ℤ earlier)
    then record d {
      intervals =
          insert peer
            (push_sample d.window_size (samples (lookup peer d.intervals)) (now -ℤ earlier))
            d.intervals;
    }
    else d

unfoldable pub heartbeat : Str → ℤ → Detector → Detector
heartbeat peer now d = record (with_interval peer now (lookup peer d.last_heartbeat) d) {
  last_heartbeat = insert peer now d.last_heartbeat;
}

unfoldable pub is_known : Str → Detector → Bool
is_known peer d = has peer d.last_heartbeat

-- What `phi` is: infinite, zero, or the fit of the intervals at the time since the last heartbeat.
pub data Suspicion : Type 0 where
  infinite calm : Suspicion
  fitted : List ℤ → ℤ → Suspicion

abbrev pub phi_since : Option ℤ → Option (List ℤ) → ℤ → Detector → Suspicion
phi_since none known now d = infinite
phi_since (some earlier) none now d = calm
phi_since (some earlier) (some ts) now d =
    if ltb (length ts) d.min_samples
    then calm
    else if leb_ℤ (now -ℤ earlier) (pos 0)
    then calm
    else fitted ts (now -ℤ earlier)

unfoldable pub phi : Str → ℤ → Detector → Suspicion
phi peer now d = phi_since (lookup peer d.last_heartbeat) (lookup peer d.intervals) now d

-- The floats other than NaN, and the functions of the math module that `phi` calls; `of_micro` is a
-- whole number of microseconds in seconds, `least_probability` the literal 1e-100 and `root_2` is
-- `math.sqrt(2.0)`.
pub record Floats (F : Type 0) : Type 0 where
  pub of_micro : ℤ → F
  pub of_nat : ℕ → F
  pub le : F → F → Bool
  pub add : F → F → F
  pub sub : F → F → F
  pub mul : F → F → F
  pub div : F → F → F
  pub neg : F → F
  pub sqrt : F → F
  pub erfc : F → F
  pub log10 : F → F
  pub infinity : F
  pub half : F
  pub root_2 : F
  pub least_probability : F

module _ {F : Type 0} (fl : Floats F) where
  abbrev pub nought : F
  nought = fl.of_micro (pos 0)

  -- `max(a, b)`
  unfoldable pub max_float : F → F → F
  max_float a b = if fl.le b a then a else b

  -- `sum(f(x) for x in ts)`
  unfoldable pub sum_from : (F → F) → F → List ℤ → F
  sum_from f total [] = total
  sum_from f total (t ∷ ts) = sum_from f (fl.add total (f (fl.of_micro t))) ts

  unfoldable pub mean : List ℤ → F
  mean ts = fl.div (sum_from (λ x. x) nought ts) (fl.of_nat (length ts))

  abbrev pub squared : F → F
  squared x = fl.mul x x

  unfoldable pub variance : List ℤ → F
  variance ts =
      fl.div (sum_from (λ x. squared (fl.sub x (mean ts))) nought ts) (fl.of_nat (length ts))

  -- The variance floor is positive, as the default is, so that no division is by zero.
  module _ (variance_floor : F) where
    unfoldable pub std_dev : List ℤ → F
    std_dev ts = fl.sqrt (max_float (variance ts) variance_floor)

    -- The probability that a heartbeat comes later than this, from below by 1e-100.
    unfoldable pub p_later : List ℤ → ℤ → F
    p_later ts since =
        let y = fl.div (fl.sub (fl.of_micro since) (mean ts)) (fl.mul (std_dev ts) fl.root_2) in
        max_float (fl.mul fl.half (fl.erfc y)) fl.least_probability

    unfoldable pub phi_value : Suspicion → F
    phi_value infinite = fl.infinity
    phi_value calm = nought
    phi_value (fitted ts since) = max_float nought (fl.neg (fl.log10 (p_later ts since)))

    unfoldable pub is_suspected : Str → F → ℤ → Detector → Bool
    is_suspected peer threshold now d = fl.le threshold (phi_value (phi peer now d))
