-- ===== src/Flow.antt =====
-- `CreditFlowController` of peerq/queue.py. A future that `acquire` waits on has a name; it is live
-- until its coroutine is cancelled.
pub mod Laws
use peer_q.Prelude.{
  ℕ, Str, Bool, true, false, Option, none, some, List, [], ◌∷◌, ◌++◌, if◌then◌else◌, select,
  str_ordered,
}
use peer_q.Prelude.Int.{ℤ, pos, ◌+ℤ◌, ◌-ℤ◌, ltb_ℤ, leb_ℤ}
use peer_q.Prelude.Dict.{Dict, lookup, has, insert}

pub record CreditFuture : Type 0 where
  pub name : ℕ
  pub live : Bool

pub record Flow : Type 0 where
  pub default_initial_credits : ℤ
  pub credits : Dict Str ℤ
  pub waiters : Dict Str (List CreditFuture)

abbrev pub new_flow : ℤ → Flow
new_flow initial_credits = record {
  default_initial_credits = initial_credits;
  credits = [];
  waiters = [];
}

-- `d.get(key, default)`
abbrev pub or_default {ℓ} : {A : Type ℓ} → A → Option A → A
or_default d none = d
or_default d (some a) = a

unfoldable pub init_peer : Str → Option ℤ → Flow → Flow
init_peer peer amount f = record f {
  credits = insert peer (or_default f.default_initial_credits amount) f.credits;
  waiters = if has peer f.waiters then f.waiters else insert peer [] f.waiters;
}

unfoldable pub get_credits : Flow → Str → ℤ
get_credits f peer = or_default f.default_initial_credits (lookup peer f.credits)

unfoldable pub try_acquire : Str → ℤ → Flow → Bool × Flow
try_acquire peer amount f =
    if leb_ℤ amount (get_credits f peer)
    then (true, record f { credits = insert peer (get_credits f peer -ℤ amount) f.credits })
    else (false, f)

-- The start of `acquire`: the credits of an unknown peer are set.
unfoldable pub settle : Str → Flow → Flow
settle peer f =
    if has peer f.credits
    then f
    else record f { credits = insert peer f.default_initial_credits f.credits }

-- A round of the loop of `acquire`, from its start or from a wake-up: it ends, or waits on a new
-- future of that name.
unfoldable pub acquire_round : ℕ → Str → ℤ → Flow → Bool × Flow
acquire_round name peer amount f =
    if ltb_ℤ (get_credits f peer) amount
    then (
      false,
      record f {
        waiters =
            insert peer
              (or_default [] (lookup peer f.waiters) ++ record { name = name; live = true } ∷ [])
              f.waiters;
      },
    )
    else (true, record f { credits = insert peer (get_credits f peer -ℤ amount) f.credits })

unfoldable pub acquire : ℕ → Str → ℤ → Flow → Bool × Flow
acquire name peer amount f = acquire_round name peer amount (settle peer f)

-- The futures that the loop of `replenish` sets, and the waiters it leaves.
abbrev pub wake_all : Bool → List CreditFuture → List CreditFuture × List CreditFuture
wake_all true ws = (select (λ w. w.live) ws, [])
wake_all false ws = ([], ws)

-- `waiters` is the list in the dict, which the loop empties in place.
abbrev pub store_waiters : Str → Option (List CreditFuture) → List CreditFuture → Flow → Flow
store_waiters peer none left f = f
store_waiters peer (some _) left f = record f { waiters = insert peer left f.waiters }

unfoldable pub replenish : Str → ℤ → Flow → List CreditFuture × Flow
replenish peer amount f =
    let total = get_credits f peer +ℤ amount in
    let (woken, left) = wake_all (ltb_ℤ (pos 0) total) (or_default [] (lookup peer f.waiters)) in
    if leb_ℤ amount (pos 0) then ([], f) else (
      woken,
      store_waiters peer (lookup peer f.waiters) left
          (record f { credits = insert peer total f.credits }),
    )
