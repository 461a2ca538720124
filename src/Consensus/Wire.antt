-- ===== src/Consensus/Wire.antt =====
-- `TaskRecord.to_dict` and `TaskRecord.from_dict` of peerq/consensus.py, on decoded JSON values.
pub mod RoundTrip
pub mod Sorted
pub mod Limits
use peer_q.Prelude.{
  ℕ, zero, suc, ◌*◌, Str, Bytes, Bool, true, false, not, ◌&&◌, Option, none, some, List, [], ◌∷◌,
  codes, leb, length, if◌then◌else◌, ◌==◌, str_ordered,
}
use peer_q.Prelude.Int.{ℤ, pos, negsuc}
use peer_q.Prelude.Dict.{Dict}
use peer_q.Json.{
  Json, null, bool, int, float, str, arr, obj, Fields, end, field, Float, finite, non_finite, fetch,
  count_fields, to_float,
}
use peer_q.Json.Hex.{hex, fromhex}
use peer_q.Errors.{Result, ok, err, value_error, ◌>>=◌, ◌>>◌, check}
use peer_q.Security.{
  max_task_id_length, max_peer_id_length, max_task_payload, max_task_result, max_error_length,
}
use peer_q.Crypto.{is_empty}
use peer_q.Consensus.Clock.{VectorClock, vector_clock}
use peer_q.Consensus.Record.{
  TaskState, pending, claimed, running, done, failed, FenceToken, TaskRecord, state_value,
}

abbrev pub str_or_none : Option Str → Json
str_or_none none = null
str_or_none (some s) = str s

abbrev pub hex_or_none : Option Bytes → Json
hex_or_none none = null
hex_or_none (some b) = str (hex b)

-- A clock as a JSON object.
unfoldable pub clock_fields : Dict Str ℕ → Fields
clock_fields [] = end
clock_fields ((k, v) ∷ d) = field k (int (pos v)) (clock_fields d)

unfoldable pub token_json : FenceToken → Json
token_json token = obj (
    field (codes "epoch") (int (pos token.epoch)) (field (codes "peer_id") (str token.peer_id) end))

unfoldable pub to_dict : TaskRecord → Fields
unfolding clock_fields token_json
to_dict r = field (codes "task_id") (str r.task_id) (
    field (codes "state") (str (state_value r.state)) (
      field (codes "payload") (str (hex r.payload)) (
        field (codes "result") (hex_or_none r.result) (
          field (codes "error") (str_or_none r.error) (
            field (codes "claimed_by") (str_or_none r.claimed_by) (
              field (codes "fence_token") (token_json r.fence_token) (
                field (codes "lease_expiry") (float (finite r.lease_expiry)) (
                  field (codes "vector_clock") (obj (clock_fields r.vector_clock.clock)) (
                    field (codes "updated_by") (str r.updated_by) (
                      field (codes "signature") (hex_or_none r.signature)
                        (field (codes "signer_id") (str_or_none r.signer_id) end)))))))))))

-- A text that is not empty and not longer than the limit.
abbrev bounded : ℕ → Str → Bool
bounded limit s = not (is_empty s) && leb (length s) limit

unfoldable pub read_task_id : Json → Result Str
read_task_id (str s) = do check (bounded max_task_id_length s) value_error; ok s
read_task_id _ = err value_error

unfoldable pub read_state : Json → Result TaskState
read_state (str s) =
    if s == codes "pending"
    then ok pending
    else if s == codes "claimed"
    then ok claimed
    else if s == codes "running"
    then ok running
    else if s == codes "done"
    then ok done
    else if s == codes "failed"
    then ok failed
    else err value_error
read_state _ = err value_error

abbrev decoded : Option Bytes → Result Bytes
decoded none = err value_error
decoded (some b) = ok b

unfoldable pub read_payload : Json → Result Bytes
read_payload (str s) = do
  check (leb (length s) (max_task_payload * 2)) value_error
  decoded (fromhex s)
read_payload _ = err value_error

unfoldable pub read_result : Json → Result (Option Bytes)
read_result null = ok none
read_result (str s) = do
  check (leb (length s) (max_task_result * 2)) value_error
  b ← decoded (fromhex s)
  ok (some b)
read_result _ = err value_error

unfoldable pub read_error : Json → Result (Option Str)
read_error null = ok none
read_error (str s) = do check (leb (length s) max_error_length) value_error; ok (some s)
read_error _ = err value_error

-- `claimed_by`, `updated_by` and `signer_id`.
unfoldable pub read_peer : Json → Result (Option Str)
read_peer null = ok none
read_peer (str s) = do check (bounded max_peer_id_length s) value_error; ok (some s)
read_peer _ = err value_error

abbrev token_parts : Json → Json → Result FenceToken
token_parts (int (pos epoch)) (str peer) = do
  check (leb (length peer) max_peer_id_length) value_error
  ok (record { epoch = epoch; peer_id = peer })
token_parts _ _ = err value_error

unfoldable pub read_token : Json → Result FenceToken
read_token (obj ft) = token_parts (fetch (codes "epoch") ft) (fetch (codes "peer_id") ft)
read_token _ = err value_error

abbrev counter_value : Json → Result ℕ
counter_value (int (pos n)) = ok n
counter_value _ = err value_error

unfoldable pub read_counters : Fields → Result (Dict Str ℕ)
read_counters end = ok []
read_counters (field peer counter rest) = do
  check (bounded max_peer_id_length peer) value_error
  n ← counter_value counter
  more ← read_counters rest
  ok ((peer, n) ∷ more)

unfoldable pub read_clock : Json → Result VectorClock
unfolding read_counters
read_clock (obj clock) = do
  check (leb (count_fields clock) 128) value_error
  d ← read_counters clock
  ok (vector_clock d)
read_clock _ = err value_error

abbrev finite_only : Float → Result ℤ
finite_only (finite t) = ok t
finite_only non_finite = err value_error

-- `isfinite(float(lease_expiry))`: the conversion of a huge int raises OverflowError.
unfoldable pub read_lease : Json → Result ℤ
read_lease (int n) = do f ← to_float n; finite_only f
read_lease (float f) = finite_only f
read_lease _ = err value_error

unfoldable pub read_signature : Json → Result (Option Bytes)
read_signature null = ok none
read_signature (str s) = do
  check (leb (length s) 128 && leb 128 (length s)) value_error
  b ← decoded (fromhex s)
  ok (some b)
read_signature _ = err value_error

-- `updated_by or ""`
abbrev or_blank : Option Str → Str
or_blank none = []
or_blank (some s) = s

abbrev pub read_all :
    Json
    → Json
    → Json
    → Json
    → Json
    → Json
    → Json
    → Json
    → Json
    → Json
    → Json
    → Json
    → Result TaskRecord
read_all task_id state payload result error claimed_by updated_by signer_id fence clock lease sig =
    do
      task_id' ← read_task_id task_id
      state' ← read_state state
      payload' ← read_payload payload
      result' ← read_result result
      error' ← read_error error
      claimed_by' ← read_peer claimed_by
      updated_by' ← read_peer updated_by
      signer_id' ← read_peer signer_id
      fence' ← read_token fence
      clock' ← read_clock clock
      lease' ← read_lease lease
      signature' ← read_signature sig
      ok (record {
        task_id = task_id';
        state = state';
        payload = payload';
        result = result';
        error = error';
        claimed_by = claimed_by';
        fence_token = fence';
        lease_expiry = lease';
        vector_clock = clock';
        updated_by = or_blank updated_by';
        signature = signature';
        signer_id = signer_id';
      })

unfoldable pub from_dict : Json → Result TaskRecord
from_dict (obj d) =
    read_all (fetch (codes "task_id") d) (fetch (codes "state") d) (fetch (codes "payload") d)
      (fetch (codes "result") d) (fetch (codes "error") d) (fetch (codes "claimed_by") d)
      (fetch (codes "updated_by") d) (fetch (codes "signer_id") d) (fetch (codes "fence_token") d)
      (fetch (codes "vector_clock") d) (fetch (codes "lease_expiry") d)
      (fetch (codes "signature") d)
from_dict _ = err value_error
