-- ===== src/Flow/Laws.antt =====
-- What the calls do to the credits of every peer, and whom a replenishment wakes.
use peer_q.Prelude.{
  ℕ, ◌≡◌, refl, Str, true, false, ◌&&◌, Option-cases, ap, Option, none, some, List, [], arith,
  if◌then◌else◌, select, ◌==◌, ==_iff, Bool-cases, inl, inr, str_ordered,
}
use peer_q.Prelude.Int.{ℤ, pos, ◌+ℤ◌, ◌-ℤ◌, ltb_ℤ, leb_ℤ}
use peer_q.Prelude.Dict.{lookup, insert, lookup-insert, has-lookup-none, has-lookup-some}
use peer_q.Flow.{
  CreditFuture, Flow, or_default, get_credits, try_acquire, settle, acquire_round, acquire,
  replenish, wake_all, store_waiters,
}

-- `try_acquire` succeeds exactly when the peer has the amount, and then takes it from that peer; no
-- other balance changes, and none does where it fails.
pub get_credits-try_acquire :
    (p q : Str) (amount : ℤ) (f : Flow)
    → ((try_acquire p amount f).0 ≡ leb_ℤ amount (get_credits f p))
      × (get_credits (try_acquire p amount f).1 q ≡ (
          if p == q && leb_ℤ amount (get_credits f p)
          then get_credits f p -ℤ amount
          else get_credits f q))
unfolding try_acquire get_credits
get_credits-try_acquire p q amount f =
    ground (arith, lookup-insert p q (get_credits f p -ℤ amount) f.credits)

get_credits-settle : (p q : Str) (f : Flow) → get_credits (settle p f) q ≡ get_credits f q
unfolding settle get_credits
get_credits-settle p q f =
    let same : (p == q) ≡ true → lookup p f.credits ≡ lookup q f.credits =
      λ e. ap (λ x. lookup x f.credits) ((==_iff p q).0 e) in
    elim (Option-cases (lookup p f.credits)) [
      | inl n ↦
          rw (has-lookup-none p f.credits n)
            (ground (arith, lookup-insert p q f.default_initial_credits f.credits, same, n))
      | inr (v, e) ↦ rw (has-lookup-some p f.credits v e) refl
    ]

round_spends :
    (name : ℕ) (p q : Str) (amount : ℤ) (f : Flow)
    → ((acquire_round name p amount f).0 ≡ leb_ℤ amount (get_credits f p))
      × (get_credits (acquire_round name p amount f).1 q ≡ (
          if p == q && leb_ℤ amount (get_credits f p)
          then get_credits f p -ℤ amount
          else get_credits f q))
unfolding acquire_round get_credits
round_spends name p q amount f =
    ground (arith, lookup-insert p q (get_credits f p -ℤ amount) f.credits)

-- A call of `acquire` ends exactly when `try_acquire` would succeed, and leaves every balance as
-- `try_acquire` does: where it waits no balance changes.
pub get_credits-acquire :
    (name : ℕ) (p q : Str) (amount : ℤ) (f : Flow)
    → ((acquire name p amount f).0 ≡ (try_acquire p amount f).0)
      × (get_credits (acquire name p amount f).1 q ≡ get_credits (try_acquire p amount f).1 q)
unfolding acquire
get_credits-acquire name p q amount f = ground (
  arith,
  round_spends name p q amount (settle p f),
  get_credits-try_acquire p q amount f,
  get_credits-settle p p f,
  get_credits-settle p q f,
)

get_credits-insert :
    (p q : Str) (total : ℤ) (f : Flow)
    → get_credits (record f { credits = insert p total f.credits }) q
      ≡ (if p == q then total else get_credits f q)
unfolding get_credits
get_credits-insert p q total f = ground (arith, lookup-insert p q total f.credits)

store-credits :
    (p q : Str) (o : Option (List CreditFuture)) (left : List CreditFuture) (f : Flow)
    → get_credits (store_waiters p o left f) q ≡ get_credits f q
unfolding get_credits
store-credits p q none left f = refl
store-credits p q (some ws) left f = refl

-- A positive replenishment adds the amount to the balance of its peer and changes no other balance;
-- an amount that is not positive changes none.
pub get_credits-replenish :
    (p q : Str) (amount : ℤ) (f : Flow)
    → get_credits (replenish p amount f).1 q
      ≡ (if p == q && ltb_ℤ (pos 0) amount then get_credits f p +ℤ amount else get_credits f q)
unfolding replenish
get_credits-replenish p q amount f =
    let total : ℤ = get_credits f p +ℤ amount in
    let old : List CreditFuture = or_default [] (lookup p f.waiters) in
    let next : Flow = record f { credits = insert p total f.credits } in
    elim (Bool-cases (leb_ℤ amount (pos 0))) [
      | inl e ↦
          let none_added : ltb_ℤ (pos 0) amount ≡ false = ground arith in
          rw (e, none_added) (ground arith)
      | inr e ↦
          let added : ltb_ℤ (pos 0) amount ≡ true = ground arith in
          rw (e, added)
            (ground (
              arith,
              store-credits p q (lookup p f.waiters) (wake_all (ltb_ℤ (pos 0) total) old).1 next,
              get_credits-insert p q total f,
            ))
    ]

-- A replenishment that leaves a positive balance sets every live future that waits for its peer, in
-- the order of their arrival.
pub replenish-wakes :
    (p : Str) (amount : ℤ) (f : Flow)
    → ltb_ℤ (pos 0) amount ≡ true
    → ltb_ℤ (pos 0) (get_credits f p +ℤ amount) ≡ true
    → (replenish p amount f).0 ≡ select (λ w. w.live) (or_default [] (lookup p f.waiters))
unfolding replenish
replenish-wakes p amount f h positive =
    let up : leb_ℤ amount (pos 0) ≡ false = ground arith in rw (up, positive) refl
