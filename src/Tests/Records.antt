-- ===== src/Tests/Records.antt =====
-- Task records and vector clocks: two concurrent updates of one task, and their signatures.
use peer_q.Prelude.{
  ◌≡◌, refl, true, false, none, some, if◌then◌else◌, arith, str_ordered, pick, ◌⊎◌,
}
use peer_q.Prelude.Dict.{lookup, member}
use peer_q.Json.{obj}
use peer_q.Json.Hex.{hex}
use peer_q.Errors.{ok, ◌>>=◌}
use peer_q.Crypto.{
  verify_task_signature, verify_task_authorization, sign_task, verify_peer, verify_key, owns_claim,
  canonical_task_bytes, canonical_document,
}
use peer_q.Consensus.Clock.{get, merge}
use peer_q.Consensus.Record.{is_terminal, TaskRecord}
use peer_q.Consensus.Lattice.{record_lattice_key, lattice_ordered}
use peer_q.Consensus.Lattice.Laws.{SameFields}
use peer_q.Consensus.Merge.{join, merge_records}
use peer_q.Consensus.Merge.Laws.{
  SameResult, merge_records_comm, merge_records_assoc, is_terminal-join,
}
use peer_q.Consensus.Merge.Keyring.{merge_records-fields}
use peer_q.Consensus.Wire.{to_dict, from_dict}
use peer_q.Consensus.Wire.RoundTrip.{IsWire, from_dict-to_dict}
use peer_q.Tests.Samples.{
  sum_ed, small_codec, alice, bob, key_of_alice, key_of_bob, both_keys, submitted, claimed_by_bob,
  finished,
}

merge_records_comm_example :
    SameResult
      (merge_records sum_ed small_codec finished claimed_by_bob none)
      (merge_records sum_ed small_codec claimed_by_bob finished none)
merge_records_comm_example = merge_records_comm sum_ed small_codec finished claimed_by_bob

merge_records_assoc_example :
    SameResult
      (merge_records sum_ed small_codec claimed_by_bob finished none >>= λ m.
        merge_records sum_ed small_codec submitted m none)
      (merge_records sum_ed small_codec submitted claimed_by_bob none >>= λ m.
        merge_records sum_ed small_codec m finished none)
merge_records_assoc_example =
    merge_records_assoc sum_ed small_codec submitted claimed_by_bob finished

is_terminal-join_example :
    is_terminal (join claimed_by_bob finished).state
    ≡ (if is_terminal claimed_by_bob.state then true else is_terminal finished.state)
is_terminal-join_example = is_terminal-join claimed_by_bob finished

pub finished-IsWire : IsWire finished
finished-IsWire = record {
  task_id = refl;
  payload = ground arith;
  payload_size = ground arith;
  result = ground arith;
  error = tt;
  claimed_by = refl;
  updated_by = refl;
  signer_id = tt;
  token = ground arith;
  clock_size = ground arith;
  clock_peers = (refl, (refl, tt));
  clock_positive = ground arith;
  signature = tt;
}

from_dict-to_dict_example : from_dict (obj (to_dict finished)) ≡ ok finished
from_dict-to_dict_example = from_dict-to_dict finished finished-IsWire

abbrev signed_by_bob : TaskRecord
signed_by_bob = sign_task sum_ed small_codec key_of_bob claimed_by_bob bob

abbrev signed_by_alice : TaskRecord
signed_by_alice = sign_task sum_ed small_codec key_of_alice finished alice

abbrev resubmitted : TaskRecord
resubmitted = sign_task sum_ed small_codec key_of_bob submitted bob

alice_authorized : verify_task_authorization sum_ed small_codec signed_by_alice both_keys ≡ true
unfolding verify_task_authorization verify_task_signature verify_peer verify_key owns_claim lookup
    canonical_task_bytes canonical_document hex sign_task
alice_authorized = refl

bob_authorized : verify_task_authorization sum_ed small_codec signed_by_bob both_keys ≡ true
unfolding verify_task_authorization verify_task_signature verify_peer verify_key owns_claim lookup
    canonical_task_bytes canonical_document hex sign_task
bob_authorized = refl

again_authorized : verify_task_authorization sum_ed small_codec resubmitted both_keys ≡ true
unfolding verify_task_authorization verify_task_signature verify_peer verify_key owns_claim lookup
    canonical_task_bytes canonical_document hex sign_task
again_authorized = refl

unsigned_merged :
    merge_records sum_ed small_codec finished signed_by_bob (some both_keys) ≡ ok signed_by_bob
unfolding verify_task_authorization verify_task_signature verify_peer verify_key owns_claim lookup
    canonical_task_bytes canonical_document hex sign_task merge_records
unsigned_merged = refl

-- Under this scheme the join of the two signed updates is not authorized, as its clock is new.
joined_refused :
    verify_task_authorization sum_ed small_codec (join signed_by_alice signed_by_bob) both_keys
    ≡ false
unfolding verify_task_authorization verify_task_signature verify_peer verify_key owns_claim lookup
    canonical_task_bytes canonical_document hex sign_task join merge record_lattice_key pick
    lattice_ordered get member
joined_refused = refl

merge_records-fields_example :
    ((verify_task_authorization sum_ed small_codec finished both_keys ≡ true)
      × SameFields signed_by_bob finished)
    ⊎ ((verify_task_authorization sum_ed small_codec signed_by_bob both_keys ≡ true)
        × SameFields signed_by_bob signed_by_bob)
merge_records-fields_example =
    merge_records-fields sum_ed small_codec finished signed_by_bob signed_by_bob both_keys
      unsigned_merged

-- A finished task falls back to a new submission of it.
joined_dropped :
    (merge_records sum_ed small_codec signed_by_alice signed_by_bob (some both_keys) >>= λ m.
    merge_records sum_ed small_codec m resubmitted (some both_keys))
    ≡ ok resubmitted
unfolding merge_records sign_task join peer_q.Prelude.pick lattice_ordered
joined_dropped = rw (alice_authorized, bob_authorized, joined_refused, again_authorized) refl
