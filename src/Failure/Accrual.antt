-- ===== src/Failure/Accrual.antt =====
-- `is_suspected` of peerq/failure.py as time passes: suspicion accrues in silence, is bounded, and
-- falls to nothing at a heartbeat.
use peer_q.Prelude.{
  ◌≡◌, refl, Str, true, false, Option, none, some, List, arith, if◌then◌else◌, if_cases, ltb,
  length, str_ordered,
}
use peer_q.Prelude.Int.{ℤ, pos, ◌-ℤ◌, ◌≤ℤ◌, leb_ℤ, -ℤ_parts}
use peer_q.Prelude.Dict.{lookup}
use peer_q.Failure.{
  Detector, Floats, Suspicion, calm, fitted, phi, phi_since, phi_value, p_later, std_dev, max_float,
  nought, is_suspected,
}

sub_le : (a s t : ℤ) → s ≤ℤ t → (s -ℤ a) ≤ℤ (t -ℤ a)
sub_le a s t h = omega (arith, -ℤ_parts s a, -ℤ_parts t a)

module _ {F : Type 0} (fl : Floats F) where
  -- a ≤ b
  abbrev pub Le : F → F → Type 0
  Le a b = fl.le a b ≡ true

  abbrev pub Positive : F → Type 0
  Positive a = fl.le a (fl.of_micro (pos 0)) ≡ false

  -- The order of the floats other than NaN, and the operations that are monotone in it: each of them
  -- rounds a monotone function of the reals.
  pub record Rounding : Type 0 where
    pub le_refl : (a : F) → Le a a
    pub le_trans : (a b c : F) → Le a b → Le b c → Le a c
    pub le_total : (a b : F) → fl.le a b ≡ false → Le b a
    pub of_micro-le : (s t : ℤ) → s ≤ℤ t → Le (fl.of_micro s) (fl.of_micro t)
    pub sub-le : (a b c : F) → Le a b → Le (fl.sub a c) (fl.sub b c)
    pub div-le : (a b c : F) → Positive c → Le a b → Le (fl.div a c) (fl.div b c)
    pub half-le : (a b : F) → Le a b → Le (fl.mul fl.half a) (fl.mul fl.half b)
    pub erfc-le : (a b : F) → Le a b → Le (fl.erfc b) (fl.erfc a)
    pub log10-le : (a b : F) → Positive a → Le a b → Le (fl.log10 a) (fl.log10 b)
    pub neg-le : (a b : F) → Le a b → Le (fl.neg b) (fl.neg a)
    pub sqrt-Positive : (a : F) → Positive a → Positive (fl.sqrt a)
    pub root_2-Positive : (a : F) → Positive a → Positive (fl.mul a fl.root_2)
    pub least-Positive : Positive fl.least_probability

  module _ (laws : Rounding) where
    open laws use {
      le_refl, le_trans, le_total, of_micro-le, sub-le, div-le, half-le, erfc-le, log10-le, neg-le,
      sqrt-Positive, root_2-Positive, least-Positive,
    }

    Positive-le : (a b : F) → Positive a → Le a b → Positive b
    Positive-le a b h k = ground (arith, le_trans a b (fl.of_micro (pos 0)) k)

    max_float-left : (a b : F) → Le a (max_float fl a b)
    unfolding max_float
    max_float-left a b = if_cases (Le a) (fl.le b a) (λ _. le_refl a) (λ n. le_total b a n)

    max_float-right : (a b : F) → Le b (max_float fl a b)
    unfolding max_float
    max_float-right a b = if_cases (Le b) (fl.le b a) (λ e. e) (λ _. le_refl b)

    max_float-least : (a b c : F) → Le a c → Le b c → Le (max_float fl a b) c
    unfolding max_float
    max_float-least a b c h k = if_cases (λ m. Le m c) (fl.le b a) (λ _. h) (λ _. k)

    max_float-le : (a b c d : F) → Le a c → Le b d → Le (max_float fl a b) (max_float fl c d)
    max_float-le a b c d h k =
        max_float-least a b _ (le_trans a c _ h (max_float-left c d))
          (le_trans b d _ k (max_float-right c d))

    module _ (variance_floor : F) (above : Positive variance_floor) where
      std_dev-Positive : (ts : List ℤ) → Positive (std_dev fl variance_floor ts)
      unfolding std_dev
      std_dev-Positive ts =
          sqrt-Positive _ (Positive-le variance_floor _ above (max_float-right _ variance_floor))

      p_later-Positive : (ts : List ℤ) (t : ℤ) → Positive (p_later fl variance_floor ts t)
      unfolding p_later
      p_later-Positive ts t = Positive-le _ _ least-Positive (max_float-right _ _)

      p_later-le :
          (ts : List ℤ) (s t : ℤ)
          → s ≤ℤ t
          → Le (p_later fl variance_floor ts t) (p_later fl variance_floor ts s)
      unfolding p_later
      p_later-le ts s t h =
          max_float-le _ _ _ _
            (half-le _ _ (
              erfc-le _ _ (
                div-le _ _ _ (root_2-Positive _ (std_dev-Positive ts))
                  (sub-le _ _ _ (of_micro-le s t h)))))
            (le_refl _)

      -- A suspicion that is at most another.
      abbrev pub Calmer : Suspicion → Suspicion → Type 0
      Calmer x y = Le (phi_value fl variance_floor x) (phi_value fl variance_floor y)

      Calmer-calm : Calmer calm calm
      Calmer-calm = le_refl _

      calm-fitted : (ts : List ℤ) (t : ℤ) → Calmer calm (fitted ts t)
      unfolding phi_value
      calm-fitted ts t = max_float-left _ _

      fitted-le : (ts : List ℤ) (s t : ℤ) → s ≤ℤ t → Calmer (fitted ts s) (fitted ts t)
      unfolding phi_value
      fitted-le ts s t h =
          max_float-le _ _ _ _ (le_refl _)
            (neg-le _ _ (log10-le _ _ (p_later-Positive ts t) (p_later-le ts s t h)))

      -- The suspicion where there are enough intervals.
      abbrev waited : List ℤ → ℤ → Suspicion
      waited ts since = if leb_ℤ since (pos 0) then calm else fitted ts since

      calm-waited : (ts : List ℤ) (t : ℤ) → Calmer calm (waited ts t)
      calm-waited ts t =
          if_cases (Calmer calm) (leb_ℤ t (pos 0)) (λ _. Calmer-calm) (λ _. calm-fitted ts t)

      fitted-waited :
          (ts : List ℤ) (s t : ℤ)
          → s ≤ℤ t
          → leb_ℤ s (pos 0) ≡ false
          → Calmer (fitted ts s) (waited ts t)
      fitted-waited ts s t h n =
          if_cases (Calmer (fitted ts s)) (leb_ℤ t (pos 0)) (λ e. ground arith)
            (λ _. fitted-le ts s t h)

      waited-le : (ts : List ℤ) (s t : ℤ) → s ≤ℤ t → Calmer (waited ts s) (waited ts t)
      waited-le ts s t h =
          if_cases (λ x. Calmer x (waited ts t)) (leb_ℤ s (pos 0)) (λ _. calm-waited ts t)
            (λ n. fitted-waited ts s t h n)

      phi_since-le :
          (last : Option ℤ) (known : Option (List ℤ)) (s t : ℤ) (d : Detector)
          → s ≤ℤ t
          → Calmer (phi_since last known s d) (phi_since last known t d)
      phi_since-le none known s t d h = le_refl _
      phi_since-le (some earlier) none s t d h = le_refl _
      phi_since-le (some earlier) (some ts) s t d h =
          elim (ltb (length ts) d.min_samples)
            as (λ few.
              Calmer (if few then calm else waited ts (s -ℤ earlier))
                (if few then calm else waited ts (t -ℤ earlier))) [
                  | true ↦ Calmer-calm
                  | false ↦ waited-le ts (s -ℤ earlier) (t -ℤ earlier) (sub_le earlier s t h)
                ]

      -- Where the floats round monotone operations and the variance floor is positive, suspicion
      -- accrues: a peer that is suspected at some time is suspected at any later time, as long as no
      -- heartbeat comes in between.
      pub is_suspected-later :
          (peer : Str) (threshold : F) (now later : ℤ) (d : Detector)
          → now ≤ℤ later
          → is_suspected fl variance_floor peer threshold now d ≡ true
          → is_suspected fl variance_floor peer threshold later d ≡ true
      unfolding is_suspected phi
      is_suspected-later peer threshold now later d h e =
          le_trans threshold _ _ e
            (phi_since-le (lookup peer d.last_heartbeat) (lookup peer d.intervals) now later d h)

      -- The greatest suspicion of a known peer, 100 or so.
      abbrev pub greatest : F
      greatest = max_float fl (nought fl) (fl.neg (fl.log10 fl.least_probability))

      abbrev Bounded : Suspicion → Type 0
      Bounded x = Le (phi_value fl variance_floor x) greatest

      fitted-Bounded : (ts : List ℤ) (t : ℤ) → Bounded (fitted ts t)
      unfolding phi_value p_later
      fitted-Bounded ts t =
          max_float-le _ _ _ _ (le_refl _)
            (neg-le _ _ (log10-le _ _ least-Positive (max_float-right _ _)))

      calm-Bounded : Bounded calm
      unfolding phi_value
      calm-Bounded = max_float-left _ _

      waited-Bounded : (ts : List ℤ) (t : ℤ) → Bounded (waited ts t)
      waited-Bounded ts t =
          if_cases Bounded (leb_ℤ t (pos 0)) (λ _. calm-Bounded) (λ _. fitted-Bounded ts t)

      phi_since-unknown :
          (last : Option ℤ) (known : Option (List ℤ)) (threshold : F) (t : ℤ) (d : Detector)
          → fl.le threshold greatest ≡ false
          → Le threshold (phi_value fl variance_floor (phi_since last known t d))
          → last ≡ none
      phi_since-unknown none known threshold t d high e = refl
      phi_since-unknown (some earlier) none threshold t d high e =
          ground (arith, le_trans threshold _ greatest e calm-Bounded)
      phi_since-unknown (some earlier) (some ts) threshold t d high e = ground (
        arith,
        le_trans threshold _ greatest e (
            if_cases Bounded (ltb (length ts) d.min_samples) (λ _. calm-Bounded)
              (λ _. waited-Bounded ts (t -ℤ earlier))),
      )

      -- Where the floats round monotone operations and the variance floor is positive: under a
      -- threshold above the greatest suspicion that 1e-100 allows, only a peer that was never heard
      -- of is suspected.
      pub is_suspected-unknown :
          (peer : Str) (threshold : F) (now : ℤ) (d : Detector)
          → fl.le threshold greatest ≡ false
          → is_suspected fl variance_floor peer threshold now d ≡ true
          → lookup peer d.last_heartbeat ≡ none
      unfolding is_suspected phi
      is_suspected-unknown peer threshold now d high e =
          phi_since-unknown (lookup peer d.last_heartbeat) (lookup peer d.intervals) threshold now d
            high e
