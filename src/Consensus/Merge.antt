-- ===== src/Consensus/Merge.antt =====
-- `merge_records` of peerq/consensus.py. The keyring of a merge is optional.
pub mod Laws
pub mod Keyring
use peer_q.Prelude.{
  ℕ, Str, Bytes, Bool, true, false, ◌&&◌, not, Option, none, some, if◌then◌else◌, pick, Ordered,
  ◌==◌, str_ordered,
}
use peer_q.Json.{Codec}
use peer_q.Errors.{Result, ok, err, value_error}
use peer_q.Consensus.Clock
use peer_q.Consensus.Record.{TaskRecord}
use peer_q.Consensus.Lattice.{lattice_ordered, record_lattice_key}
use peer_q.Crypto.{Ed25519, PeerKeyRing, verify_task_authorization}

-- The record with the greater key, the first at a tie, under the join of both vector clocks.
unfoldable pub join : TaskRecord → TaskRecord → TaskRecord
unfolding record_lattice_key
join r1 r2 = record (pick record_lattice_key r1 r2) {
  vector_clock = Clock.merge r1.vector_clock r2.vector_clock;
}

module _ (ed : Ed25519) (codec : Codec) where
  unfoldable pub merge_records : TaskRecord → TaskRecord → Option PeerKeyRing → Result TaskRecord
  merge_records r1 r2 none = if r1.task_id == r2.task_id then ok (join r1 r2) else err value_error
  merge_records r1 r2 (some keyring) =
      let valid1 = verify_task_authorization ed codec r1 keyring in
      let valid2 = verify_task_authorization ed codec r2 keyring in
      if not (r1.task_id == r2.task_id)
      then err value_error
      else if valid1 && not valid2
      then ok r1
      else if valid2 && not valid1
      then ok r2
      else if not valid1 && not valid2
      then err value_error
      else ok (join r1 r2)
