-- ===== src/Consensus/Lattice.antt =====
-- `_record_lattice_key` of peerq/consensus.py: the source's tuple, as nested pairs. An optional
-- field is `(0, "")` or `(1, value)` there, and an `Option` with the same order here.
pub mod Laws
use peer_q.Prelude.{
  ℕ, Str, Bytes, Option, if◌then◌else◌, Ordered, nat_ordered, str_ordered, pair_ordered,
  option_ordered,
}
use peer_q.Prelude.Int.{ℤ, int_ordered}
use peer_q.Consensus.Record.{TaskRecord, is_terminal, lattice_rank}

-- `updated_by` and the tie-breakers behind it.
abbrev pub TieBreakers : Type 0
TieBreakers =
    Str × (Option Str × (Option Bytes × (Option Str × (Bytes × (ℤ × (Option Bytes × Option Str))))))

-- The fence token, the rank of the state, and the tie-breakers.
abbrev pub LatticeRest : Type 0
LatticeRest = (ℕ × Str) × (ℕ × TieBreakers)

abbrev pub LatticeKey : Type 0
LatticeKey = ℕ × LatticeRest

unfoldable pub tie_ordered : Ordered TieBreakers
tie_ordered = pair_ordered

unfoldable pub token_ordered : Ordered (ℕ × Str)
token_ordered = pair_ordered

unfoldable pub rest_ordered : Ordered LatticeRest
rest_ordered =
    pair_ordered ⦃a = token_ordered⦄ ⦃b = pair_ordered ⦃a = nat_ordered⦄ ⦃b = tie_ordered⦄⦄

-- Python's comparison of two such tuples.
instance unfoldable pub lattice_ordered : Ordered LatticeKey
lattice_ordered = pair_ordered ⦃a = nat_ordered⦄ ⦃b = rest_ordered⦄

unfoldable pub record_lattice_key : TaskRecord → LatticeKey
unfolding is_terminal lattice_rank
record_lattice_key r = (
  (if is_terminal r.state then 1 else 0),
  (
    (r.fence_token.epoch, r.fence_token.peer_id),
    (
      lattice_rank r.state,
      (
        r.updated_by,
        (
          r.claimed_by,
          (r.result, (r.error, (r.payload, (r.lease_expiry, (r.signature, r.signer_id))))),
        ),
      ),
    ),
  ),
)
