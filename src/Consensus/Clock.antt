-- ===== src/Consensus/Clock.antt =====
-- `VectorClock` and `ClockComparison` of peerq/consensus.py. A clock is an immutable dict from peer
-- to counter, and its constructor drops the counters that are not positive.
pub mod Laws
pub mod Order
use peer_q.Prelude.{
  ℕ, zero, suc, ◌+◌, max, Str, Bool, true, false, not, ◌&&◌, Option, none, some, List, [], ◌∷◌,
  ◌++◌, map, ltb, leb, if◌then◌else◌, every, select, str_ordered,
}
use peer_q.Prelude.Dict.{Dict, lookup, insert, member, keys}

pub record VectorClock : Type 0 where
  pub clock : Dict Str ℕ

pub data ClockComparison : Type 0 where
  before after equal concurrent : ClockComparison

-- `self.clock.get(key, 0)` on the dict.
abbrev pub counter : Option ℕ → ℕ
counter none = 0
counter (some n) = n

-- `VectorClock(clock)`
unfoldable pub vector_clock : Dict Str ℕ → VectorClock
unfolding select
vector_clock clock = record { clock = select (λ e. ltb 0 e.1) clock }

unfoldable pub get : VectorClock → Str → ℕ
get self peer_id = counter (lookup peer_id self.clock)

unfoldable pub increment : VectorClock → Str → VectorClock
unfolding vector_clock
increment self peer_id =
    vector_clock (insert peer_id (counter (lookup peer_id self.clock) + 1) self.clock)

-- `set(self.clock.keys()) | set(other.clock.keys())`, the keys of `self` first.
unfoldable pub all_keys : VectorClock → VectorClock → List Str
unfolding select
all_keys self other =
    keys self.clock ++ select (λ k. not (member k (keys self.clock))) (keys other.clock)

unfoldable pub merge : VectorClock → VectorClock → VectorClock
unfolding vector_clock all_keys
merge self other =
    vector_clock (map (λ k. (k, max (get self k) (get other k))) (all_keys self other))

unfoldable pub compare : VectorClock → VectorClock → ClockComparison
unfolding all_keys every
compare self other =
    let self_leq_other = every (λ k. leb (get self k) (get other k)) (all_keys self other) in
    let other_leq_self = every (λ k. leb (get other k) (get self k)) (all_keys self other) in
    if self_leq_other && other_leq_self
    then equal
    else if self_leq_other && not other_leq_self
    then before
    else if other_leq_self && not self_leq_other
    then after
    else concurrent

unfoldable pub to_dict : VectorClock → Dict Str ℕ
to_dict self = self.clock
