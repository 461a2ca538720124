-- ===== src/Transport/Freshness.antt =====
-- The last guards of `_verify_message` of peerq/transport.py, which `_authenticate_message` of
-- peerq/node.py and `_listen_loop` of peerq/discovery.py have too: the age of a message and its
-- nonce.
pub mod Replay
use peer_q.Prelude.{
  ℕ, ◌≡◌, refl, Str, Bool, true, false, ◌||◌, Option, none, some, arith, if◌then◌else◌, Bool-cases,
  inl, inr, str_ordered, pair_ordered,
}
use peer_q.Prelude.Int.{ℤ, pos, ◌-ℤ◌, ltb_ℤ, ◌≤ℤ◌}
use peer_q.Prelude.Dict.{lookup, has, insert}
use peer_q.Json.{Float, finite, non_finite}
use peer_q.Security.Config.{SecurityConfig}
use peer_q.Security.ReplayCache.{ReplayCache, check_and_remember}

-- `abs(a - b) > limit`
abbrev pub is_apart : ℤ → ℤ → ℤ → Bool
is_apart a b limit = ltb_ℤ limit (a -ℤ b) || ltb_ℤ limit (b -ℤ a)

-- A configuration that passed its check has a finite window.
abbrev pub micros : Float → ℤ
micros (finite t) = t
micros non_finite = pos 0

abbrev pub window : SecurityConfig → ℤ
window c = micros c.replay_window_seconds

unfoldable pub fresh_message :
    Str → ℤ → ℤ → Option ℤ → Option Str → ReplayCache → Bool × ReplayCache
fresh_message sender now window (some t) (some nonce) seen =
    if is_apart now t window then (false, seen) else check_and_remember sender nonce now window seen
fresh_message sender now window (some t) none seen = (false, seen)
fresh_message sender now window none _ seen = (false, seen)
