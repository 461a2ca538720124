-- ===== src/Node/Fence.antt =====
-- The fence of the worker: what a claim and a commit do to the table's entry, in the order in which
-- peers merge records.
use peer_q.Prelude.{
  ℕ, ◌≡◌, refl, sym, ap, ◌∙◌, Str, true, false, some, arith, ==_self, less, at_most, at_most_self,
  Bool-cases, inl, inr, ◌⊎◌, nat_ordered, pair_ordered, str_ordered, Ordered, subst,
}
use peer_q.Prelude.Int.{ℤ, pos, ltb_ℤ}
use peer_q.Prelude.Dict.{lookup, lookup-insert}
use peer_q.Json.{Codec}
use peer_q.Crypto.{Ed25519, sign_task}
use peer_q.Consensus.Record.{claimed, running, done, is_terminal, FenceToken, next_for, TaskRecord}
use peer_q.Consensus.Lattice.{
  token_ordered, rest_ordered, lattice_ordered, tie_ordered, record_lattice_key,
}
use peer_q.Consensus.Lattice.Laws.{◌≼◌}
use peer_q.Node.{Node, seal_record, ticked}
use peer_q.Node.Worker.{
  HandlerResult, finished, crashed, held_record, with_outcome, is_superseded, store_sealed,
  broadcast_update, claim, start_running, commit,
}

abbrev pub token_key : TaskRecord → ℕ × Str
token_key r = (r.fence_token.epoch, r.fence_token.peer_id)

-- Python compares tuples by their first parts, where these differ.
module _ {ℓ κ} {A : Type ℓ} {B : Type κ} ⦃a : Ordered A⦄ ⦃b : Ordered B⦄ where
  less-first : (x y : A × B) → less x.0 y.0 ≡ true → at_most x y ≡ true
  less-first x y h = ground arith

  same-first : (x y : A × B) → x.0 ≡ y.0 → at_most x.1 y.1 ≡ true → at_most x y ≡ true
  same-first x y e h = ground (arith, a.eq_self x.0, e)

-- Of two records that are equally terminal the one with the greater token is greater.
≼-greater_token :
    (r s : TaskRecord)
    → is_terminal r.state ≡ is_terminal s.state
    → less ⦃o = token_ordered⦄ (token_key r) (token_key s) ≡ true
    → (r ≼ s) ≡ true
unfolding record_lattice_key lattice_ordered rest_ordered
≼-greater_token r s t h =
    same-first ⦃a = nat_ordered⦄ ⦃b = rest_ordered⦄ (record_lattice_key r) (record_lattice_key s)
      (rw t refl)
      (less-first ⦃a = token_ordered⦄ ⦃b = pair_ordered ⦃a = nat_ordered⦄ ⦃b = tie_ordered⦄⦄
        (record_lattice_key r).1 (record_lattice_key s).1 h)

-- A terminal record is greater than every other.
≼-terminal :
    (r s : TaskRecord) → is_terminal r.state ≡ false → is_terminal s.state ≡ true → (r ≼ s) ≡ true
unfolding record_lattice_key lattice_ordered
≼-terminal r s h k =
    less-first ⦃a = nat_ordered⦄ ⦃b = rest_ordered⦄ (record_lattice_key r) (record_lattice_key s)
      (rw (h, k) refl)

next_for-less :
    (t : FenceToken) (p : Str)
    → less ⦃o = token_ordered⦄ (t.epoch, t.peer_id) ((next_for t p).epoch, (next_for t p).peer_id)
      ≡ true
unfolding next_for token_ordered
next_for-less t p = ground arith

is_terminal_claimed : is_terminal claimed ≡ false
unfolding is_terminal
is_terminal_claimed = refl

is_terminal_running : is_terminal running ≡ false
unfolding is_terminal
is_terminal_running = refl

terminal-wins :
    (c s : TaskRecord) (token : FenceToken)
    → is_terminal s.state ≡ true
    → s.fence_token ≡ token
    → (is_terminal c.state ≡ false)
      ⊎ (less ⦃o = token_ordered⦄ (token_key c) (token.epoch, token.peer_id) ≡ true)
    → (c ≼ s) ≡ true
terminal-wins c s token over tokens (inl live) = ≼-terminal c s live over
terminal-wins c s token over tokens (inr lower) = elim (Bool-cases (is_terminal c.state)) [
  | inl e ↦ ≼-greater_token c s (e ∙ sym over) (rw tokens lower)
  | inr e ↦ ≼-terminal c s e over
]

module _ (ed : Ed25519) (codec : Codec) where
  -- Sealing changes the signature alone.
  abbrev pub SameClaim : TaskRecord → TaskRecord → Type 0
  SameClaim s r =
      (s.state ≡ r.state) × (s.fence_token ≡ r.fence_token) × (s.claimed_by ≡ r.claimed_by)

  pub seal_record-same : (n : Node) (r : TaskRecord) → SameClaim (seal_record ed codec n r) r
  unfolding seal_record sign_task
  seal_record-same n r = elim (Bool-cases n.security_enabled) [
    | inl e ↦ rw e (refl, refl, refl)
    | inr e ↦ rw e (refl, refl, refl)
  ]

  -- What a broadcast leaves in the table.
  broadcast-stores :
      (t : Str) (r : TaskRecord) (n : Node)
      → (s : TaskRecord) × (lookup t (broadcast_update ed codec t r n).tasks ≡ some s)
        × SameClaim s r
  unfolding broadcast_update store_sealed
  broadcast-stores t r n =
      let once : TaskRecord = seal_record ed codec n r in
      let twice : TaskRecord = seal_record ed codec n once in
      let (a, b, c) = seal_record-same n r in
      let (d, e, f) = seal_record-same n once in
      (twice, lookup-insert t t twice n.tasks ∙ rw (==_self t) refl, (d ∙ a, e ∙ b, f ∙ c))

  -- A claim of a record that is not terminal leaves the table with a record of this node that is
  -- claimed under a greater fence token and wins every merge with the record it was made from.
  pub claim-rises :
      (t : Str) (r : TaskRecord) (lease : ℤ) (n : Node)
      → is_terminal r.state ≡ false
      → (s : TaskRecord) × (lookup t (claim ed codec t r lease n).tasks ≡ some s)
        × (s.state ≡ claimed)
        × (s.claimed_by ≡ some n.node_id)
        × (less ⦃o = token_ordered⦄ (token_key r) (token_key s) ≡ true)
        × ((r ≼ s) ≡ true)
  unfolding claim
  claim-rises t r lease n open_ =
      let m : Node = ticked ed codec n in
      let token : FenceToken = next_for r.fence_token n.node_id in
      let (s, there, (state, fence, holder)) =
        broadcast-stores t (held_record claimed m t r token lease) m in
      let greater : less ⦃o = token_ordered⦄ (token_key r) (token_key s) ≡ true =
        rw fence (next_for-less r.fence_token n.node_id) in
      let live : is_terminal s.state ≡ false = rw state is_terminal_claimed in
      (s, there, state, holder, greater, ≼-greater_token r s (open_ ∙ sym live) greater)

  outcome_terminal :
      (o : HandlerResult) (r : TaskRecord) → is_terminal (with_outcome o r).state ≡ true
  unfolding is_terminal
  outcome_terminal (finished result) r = refl
  outcome_terminal (crashed error) r = refl

  outcome_token :
      (o : HandlerResult) (r : TaskRecord) → (with_outcome o r).fence_token ≡ r.fence_token
  outcome_token (finished result) r = refl
  outcome_token (crashed error) r = refl

  not_superseded :
      (c : TaskRecord) (token : FenceToken)
      → (is_terminal c.state ≡ false)
        ⊎ ((less ⦃o = token_ordered⦄ (token_key c) (token.epoch, token.peer_id) ≡ true)
            ⊎ (less ⦃o = token_ordered⦄ (token.epoch, token.peer_id) (token_key c) ≡ true))
      → is_superseded (some c) token ≡ false
      → (is_terminal c.state ≡ false)
        ⊎ (less ⦃o = token_ordered⦄ (token_key c) (token.epoch, token.peer_id) ≡ true)
  not_superseded c token (inl live) held = inl live
  not_superseded c token (inr (inl lower)) held = inr lower
  not_superseded c token (inr (inr greater)) held = absurd (ground (arith, greater, held))

  -- A commit, refused or not, leaves a record that wins every merge with the one that it found,
  -- unless it found a terminal record with the fence token of the claim itself.
  pub commit-rises :
      (t : Str) (r c : TaskRecord) (token : FenceToken) (lease now : ℤ) (o : HandlerResult)
      (n : Node)
      → lookup t n.tasks ≡ some c
      → (is_terminal c.state ≡ false)
        ⊎ ((less ⦃o = token_ordered⦄ (token_key c) (token.epoch, token.peer_id) ≡ true)
            ⊎ (less ⦃o = token_ordered⦄ (token.epoch, token.peer_id) (token_key c) ≡ true))
      → (s : TaskRecord) × (lookup t (commit ed codec t r token lease now o n).tasks ≡ some s)
        × ((c ≼ s) ≡ true)
  unfolding commit
  commit-rises t r c token lease now o n e h = elim (Bool-cases (ltb_ℤ lease now)) [
    | inl late ↦ rw late (c, e, at_most_self (record_lattice_key c))
    | inr early ↦ elim (Bool-cases (is_superseded (lookup t n.tasks) token)) [
      | inl lost ↦ rw (early, lost) (c, e, at_most_self (record_lattice_key c))
      | inr held ↦
          let m : Node = ticked ed codec n in
          let done_record : TaskRecord = with_outcome o (held_record done m t r token (pos 0)) in
          let (s, there, (state, fence, holder)) = broadcast-stores t done_record m in
          let over : is_terminal s.state ≡ true =
            ap is_terminal state ∙ outcome_terminal o (held_record done m t r token (pos 0)) in
          let tokens : s.fence_token ≡ token =
            fence ∙ outcome_token o (held_record done m t r token (pos 0)) in
          rw (early, held)
            (
              s,
              there,
              terminal-wins c s token over tokens
                  (not_superseded c token h (subst (λ x. is_superseded x token ≡ false) e held)),
            )
    ]
  ]

  -- Where the worker goes on to the running record, the table then has a record that is not
  -- terminal, whatever it had: a result that came in during the broadcast of the claim is lost.
  pub start_running-drops :
      (t : Str) (r : TaskRecord) (token : FenceToken) (lease : ℤ) (n : Node)
      → (s : TaskRecord) × (lookup t (start_running ed codec t r token lease n).tasks ≡ some s)
        × (s.state ≡ running)
        × (is_terminal s.state ≡ false)
  unfolding start_running store_sealed
  start_running-drops t r token lease n =
      let (state, fence, holder) = seal_record-same n (held_record running n t r token lease) in
      (
        seal_record ed codec n (held_record running n t r token lease),
        lookup-insert t t (seal_record ed codec n (held_record running n t r token lease)) n.tasks
            ∙ rw (==_self t) refl,
        state,
        rw state is_terminal_running,
      )
