-- ===== src/Consensus/Lattice/Laws.antt =====
-- The lattice key is a strict total order of the records of one task, up to their clocks.
use peer_q.Prelude.{
  ◌≡◌, refl, ap, Bool, true, arith, at_most, at_most-first, at_most-second, nat_ordered,
  pair_ordered,
}
use peer_q.Consensus.Record.{TaskState, TaskRecord, is_terminal, lattice_rank}
use peer_q.Consensus.Lattice.{
  LatticeKey, lattice_ordered, rest_ordered, token_ordered, tie_ordered, record_lattice_key,
}

infix 50 ◌≼◌
-- `a <= b` on lattice keys.
abbrev pub ◌≼◌ : TaskRecord → TaskRecord → Bool
◌≼◌ a b = at_most (record_lattice_key a) (record_lattice_key b)

pub lattice_rank-injective : (s t : TaskState) → lattice_rank s ≡ lattice_rank t → s ≡ t
unfolding lattice_rank
lattice_rank-injective s t h = ground arith

-- All fields but the clock agree.
abbrev pub SameFields : TaskRecord → TaskRecord → Type 0
SameFields r s = r ≡ record s { vector_clock = r.vector_clock }

-- Two records of one task with the same key differ at most in their clocks.
pub record_lattice_key-injective :
    (r s : TaskRecord)
    → r.task_id ≡ s.task_id
    → record_lattice_key r ≡ record_lattice_key s
    → SameFields r s
unfolding record_lattice_key
record_lattice_key-injective r s t h =
    let state : r.state ≡ s.state =
      lattice_rank-injective r.state s.state (ap (λ (k : LatticeKey). k.1.1.0) h) in
    ground (arith, h)

module _ (r s : TaskRecord) (h : (r ≼ s) ≡ true) where
  ≼-flag : at_most (record_lattice_key r).0 (record_lattice_key s).0 ≡ true
  unfolding lattice_ordered
  ≼-flag = at_most-first ⦃b = rest_ordered⦄ (record_lattice_key r) (record_lattice_key s) h

  -- The terminal flag never falls along the order.
  pub ≼-is_terminal : is_terminal r.state ≡ true → is_terminal s.state ≡ true
  unfolding record_lattice_key
  ≼-is_terminal t = ground (arith, ≼-flag, t)

  ≼-rest :
      is_terminal r.state ≡ is_terminal s.state
      → at_most ⦃o = rest_ordered⦄ (record_lattice_key r).1 (record_lattice_key s).1 ≡ true
  unfolding lattice_ordered record_lattice_key
  ≼-rest t =
      at_most-second ⦃a = nat_ordered⦄ ⦃b = rest_ordered⦄ (record_lattice_key r)
        (record_lattice_key s) (rw t refl) h

  -- Nor does the fence token, among records that are equally terminal.
  pub ≼-token :
      is_terminal r.state ≡ is_terminal s.state
      → at_most ⦃o = token_ordered⦄
          (r.fence_token.epoch, r.fence_token.peer_id)
          (s.fence_token.epoch, s.fence_token.peer_id)
        ≡ true
  unfolding rest_ordered record_lattice_key
  ≼-token t =
      at_most-first ⦃a = token_ordered⦄ ⦃b = pair_ordered ⦃a = nat_ordered⦄ ⦃b = tie_ordered⦄⦄
        (record_lattice_key r).1 (record_lattice_key s).1 (≼-rest t)
