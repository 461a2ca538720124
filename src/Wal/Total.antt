-- ===== src/Wal/Total.antt =====
-- The loop of `replay` ends: its fuel is enough for every file.
use peer_q.Prelude.{
  ℕ, zero, suc, ◌+◌, ◌≤◌, ◌<◌, ◌≡◌, ◌≢◌, refl, Bytes, Bool, Option, none, some, [], ◌∷◌, arith, ltb,
  length, drop, Bool-cases, inl, inr,
}
use peer_q.Json.{Fields, Codec}
use peer_q.Errors.{wal_corrupt}
use peer_q.Wal.{
  Frame, torn, corrupt, good, WalRecord, Replay, then_replay, at_tail, from_u32, read_frame, scan,
  replay_content, has_magic,
}

length-drop_le : (n : ℕ) (b : Bytes) → length (drop n b) ≤ length b
length-drop_le zero b = omega arith
length-drop_le (suc n) [] = omega arith
length-drop_le (suc n) (x ∷ b) = omega (arith, length-drop_le n b)

then_some : (r : WalRecord) (o : Option Replay) → o ≢ none → then_replay r o ≢ none
then_some r none h = λ e. h refl
then_some r (some x) h = λ e. cc

present : (o : Option Replay) → o ≢ none → (r : Replay) × (o ≡ some r)
present none h = absurd (h refl)
present (some r) h = (r, refl)

module _ (crc32 : Bytes → ℕ) (codec : Codec) (strict : Bool) (limit : ℕ) where
  -- One round ends where the rest of the loop does.
  round :
      (fr : Frame) (r : Fields → WalRecord) (rest : Option Replay)
      → rest ≢ none
      → elim fr as (λ _. Option Replay) [
        | torn ↦ some (at_tail strict)
        | corrupt ↦ some (record { records = []; error = some wal_corrupt })
        | good payload ↦ then_replay (r payload) rest
      ]
        ≢ none
  round torn r rest h = λ p. cc
  round corrupt r rest h = λ p. cc
  round (good payload) r rest h = then_some (r payload) rest h

  scan-total :
      (fuel offset : ℕ) (b : Bytes)
      → length b < fuel
      → scan crc32 codec fuel strict limit offset b ≢ none
  unfolding scan
  scan-total zero offset b h = elim h [ ]
  scan-total (suc fuel) offset [] h = λ e. cc
  scan-total (suc fuel) offset (a ∷ b ∷ c ∷ d ∷ e ∷ f ∷ g ∷ i ∷ t ∷ rest) h =
      let size : ℕ = from_u32 a b c d in
      round (read_frame crc32 codec limit size (from_u32 e f g i) t rest)
        (λ payload. record { offset = offset; record_type = t; payload = payload })
        (scan crc32 codec fuel strict limit (offset + (9 + size)) (drop size rest))
        (scan-total fuel (offset + (9 + size)) (drop size rest)
          (omega (arith, length-drop_le size rest)))
  scan-total (suc fuel) offset _ h = λ e. cc

  -- `replay` ends on every file: with records, and perhaps an exception.
  pub replay-total :
      (content : Option Bytes)
      → (r : Replay) × (replay_content crc32 codec strict limit content ≡ some r)
  unfolding replay_content
  replay-total none = (record { records = []; error = none }, refl)
  replay-total (some b) = elim (Bool-cases (ltb (length b) 8)) [
    | inl short ↦ rw short (at_tail strict, refl)
    | inr long ↦ elim (Bool-cases (has_magic b)) [
      | inl m ↦
          rw (long, m)
            (present (scan crc32 codec (suc (length b)) strict limit 8 (drop 8 b))
              (scan-total (suc (length b)) 8 (drop 8 b) (omega (arith, length-drop_le 8 b))))
      | inr m ↦ rw (long, m) (record { records = []; error = some wal_corrupt }, refl)
    ]
  ]
