-- ===== src/Transport/Freshness/Replay.antt =====
-- A message that arrives twice: what the age guard and `ReplayCache` of peerq/security.py make of
-- the second arrival.
use peer_q.Prelude.{
  ℕ, ◌<◌, ◌≡◌, refl, ◌∙◌, Str, Bool, true, false, Option, none, some, [], ◌∷◌, arith, ltb, length,
  if_split, if_cases, ◌==◌, inl, inr, str_ordered, pair_ordered, ==_self,
}
use peer_q.Prelude.Int.{ℤ, ◌-ℤ◌, ◌≤ℤ◌}
use peer_q.Prelude.Dict.{Dict, lookup, has, insert, lookup-insert}
use peer_q.Security.ReplayCache.{ReplayCache, check_and_remember, expire, evict, replay_refused}
use peer_q.Transport.Freshness.{is_apart, fresh_message}

-- A new nonce is the youngest entry, which stays.
lookup-evict-insert :
    (limit : ℕ) (k : Str × Str) (t : ℤ) (es : Dict (Str × Str) ℤ)
    → 0 < limit
    → has k es ≡ false
    → lookup k (evict limit (insert k t es)) ≡ some t
unfolding lookup evict insert has
lookup-evict-insert limit k t [] h new = ground (arith, ==_self k)
lookup-evict-insert limit k t ((j, s) ∷ es) h new = elim (if_split (λ b. b ≡ false) (j == k) new) [
  | inl (_, impossible) ↦ ground (arith, impossible)
  | inr (other, rest) ↦
      let kept : lookup k (evict limit (insert k t es)) ≡ some t =
        lookup-evict-insert limit k t es h rest in
      rw other (
        if_cases (λ d. lookup k d ≡ some t) (ltb limit (length ((j, s) ∷ insert k t es)))
          (λ _. kept) (λ _. rw other (lookup-insert k k t es ∙ rw (==_self k) refl)))
]

remembered :
    (sender nonce_ : Str) (now window : ℤ) (c : ReplayCache)
    → 0 < c.max_entries
    → (check_and_remember sender nonce_ now window c).0 ≡ true
    → lookup (sender, nonce_) (check_and_remember sender nonce_ now window c).1.entries ≡ some now
unfolding check_and_remember
remembered sender nonce_ now window c h good = ground (
  arith,
  lookup-evict-insert c.max_entries (sender, nonce_) now (expire (now -ℤ window) c.entries),
)

-- A message that was taken is not taken a second time while no more than the window has passed.
pub fresh_message_once :
    (sender : Str) (now later window : ℤ) (t : Option ℤ) (n : Option Str) (c : ReplayCache)
    → 0 < c.max_entries
    → (later -ℤ window) ≤ℤ now
    → (fresh_message sender now window t n c).0 ≡ true
    → (fresh_message sender later window t n (fresh_message sender now window t n c).1).0 ≡ false
unfolding fresh_message
fresh_message_once sender now later window none n c h near good = ground arith
fresh_message_once sender now later window (some t) none c h near good = ground arith
fresh_message_once sender now later window (some t) (some n) c h near good =
    elim (if_split (λ (r : Bool × ReplayCache). r.0 ≡ true) (is_apart now t window) good) [
      | inl (_, impossible) ↦ ground (arith, impossible)
      | inr (close, taken) ↦ rw close (
          if_cases (λ (r : Bool × ReplayCache). r.0 ≡ false) (is_apart later t window) (λ _. refl)
            (λ _.
              replay_refused sender n later window now (check_and_remember sender n now window c).1
                (remembered sender n now window c h taken) near))
    ]

abbrev pub empty_cache : ℕ → ReplayCache
empty_cache limit = record { max_entries = limit; entries = [] }
