-- ===== src/Consensus/Wire/RoundTrip.antt =====
-- A record within the limits of the protocol survives `to_dict` and `from_dict`.
use peer_q.Prelude.{
  ℕ, ◌*◌, ◌≤◌, ◌<◌, ◌≡◌, refl, Str, Bytes, true, false, Option, none, some, [], ◌∷◌, arith, le→leb,
  length, All, codes, ltb,
}
use peer_q.Prelude.Int.{pos}
use peer_q.Prelude.Dict.{Dict}
use peer_q.Json.{str, obj, int, fetch, set_field, count_fields, to_float, float_limit}
use peer_q.Json.Hex.{hex, fromhex-hex, length-hex, AreBytes}
use peer_q.Errors.{ok, err, value_error, overflow_error}
use peer_q.Security.{
  max_task_id_length, max_peer_id_length, max_task_payload, max_task_result, max_error_length,
}
use peer_q.Consensus.Clock.{VectorClock, vector_clock}
use peer_q.Consensus.Clock.Laws.{select_id}
use peer_q.Consensus.Record.{
  TaskState, pending, claimed, running, done, failed, FenceToken, TaskRecord, state_value,
}
use peer_q.Consensus.Wire.{
  bounded, str_or_none, hex_or_none, clock_fields, token_json, to_dict, read_task_id, read_state,
  read_payload, read_result, read_error, read_peer, read_token, read_counters, read_clock,
  read_lease, read_signature, from_dict,
}

-- A predicate on the value of an optional field.
abbrev pub IfSome {ℓ} : {A : Type ℓ} → (A → Type 0) → Option A → Type 0
IfSome P none = Unit
IfSome P (some a) = P a

-- The limits of `from_dict`, on a record.
pub record IsWire (r : TaskRecord) : Type 0 where
  pub task_id : bounded max_task_id_length r.task_id ≡ true
  pub payload : AreBytes r.payload
  pub payload_size : length r.payload ≤ max_task_payload
  pub result : IfSome (λ b. AreBytes b × (length b ≤ max_task_result)) r.result
  pub error : IfSome (λ s. length s ≤ max_error_length) r.error
  pub claimed_by : IfSome (λ s. bounded max_peer_id_length s ≡ true) r.claimed_by
  pub updated_by : bounded max_peer_id_length r.updated_by ≡ true
  pub signer_id : IfSome (λ s. bounded max_peer_id_length s ≡ true) r.signer_id
  pub token : length r.fence_token.peer_id ≤ max_peer_id_length
  pub clock_size : length r.vector_clock.clock ≤ 128
  pub clock_peers : All (λ e. bounded max_peer_id_length e.0 ≡ true) r.vector_clock.clock
  pub clock_positive : All (λ e. 0 < e.1) r.vector_clock.clock
  pub signature : IfSome (λ b. AreBytes b × (length b ≡ 64)) r.signature

state-trip : (s : TaskState) → read_state (str (state_value s)) ≡ ok s
unfolding read_state
state-trip pending = refl
state-trip claimed = refl
state-trip running = refl
state-trip done = refl
state-trip failed = refl

payload-trip :
    (b : Bytes) → AreBytes b → length b ≤ max_task_payload → read_payload (str (hex b)) ≡ ok b
unfolding read_payload
payload-trip b h n =
    ground (arith, fromhex-hex b h, length-hex b, le→leb (length (hex b)) (max_task_payload * 2))

result-trip :
    (o : Option Bytes)
    → IfSome (λ b. AreBytes b × (length b ≤ max_task_result)) o
    → read_result (hex_or_none o) ≡ ok o
unfolding read_result
result-trip none h = refl
result-trip (some b) h =
    ground (arith, fromhex-hex b h.0, length-hex b, le→leb (length (hex b)) (max_task_result * 2))

error-trip :
    (o : Option Str)
    → IfSome (λ s. length s ≤ max_error_length) o
    → read_error (str_or_none o) ≡ ok o
unfolding read_error
error-trip none h = refl
error-trip (some s) h = ground (arith, le→leb (length s) max_error_length)

peer-trip :
    (o : Option Str)
    → IfSome (λ s. bounded max_peer_id_length s ≡ true) o
    → read_peer (str_or_none o) ≡ ok o
unfolding read_peer
peer-trip none h = refl
peer-trip (some s) h = rw h

token-trip :
    (t : FenceToken) → length t.peer_id ≤ max_peer_id_length → read_token (token_json t) ≡ ok t
unfolding read_token token_json fetch
token-trip t h = rw (le→leb (length t.peer_id) max_peer_id_length h)

counters-trip :
    (d : Dict Str ℕ)
    → All (λ e. bounded max_peer_id_length e.0 ≡ true) d
    → read_counters (clock_fields d) ≡ ok d
unfolding read_counters clock_fields
counters-trip [] h = refl
counters-trip ((k, v) ∷ d) h = rw (h.0, counters-trip d h.1)

count-clock_fields : (d : Dict Str ℕ) → count_fields (clock_fields d) ≡ length d
unfolding count_fields clock_fields
count-clock_fields [] = refl
count-clock_fields ((k, v) ∷ d) = omega (arith, count-clock_fields d)

clock-trip :
    (c : VectorClock)
    → length c.clock ≤ 128
    → All (λ e. bounded max_peer_id_length e.0 ≡ true) c.clock
    → All (λ e. 0 < e.1) c.clock
    → read_clock (obj (clock_fields c.clock)) ≡ ok c
unfolding read_clock vector_clock
clock-trip c n h p = rw (
  count-clock_fields c.clock,
  le→leb (length c.clock) 128 n,
  counters-trip c.clock h,
  select_id c.clock p,
)

signature-trip :
    (o : Option Bytes)
    → IfSome (λ b. AreBytes b × (length b ≡ 64)) o
    → read_signature (hex_or_none o) ≡ ok o
unfolding read_signature
signature-trip none h = refl
signature-trip (some b) h = ground (
  arith,
  fromhex-hex b h.0,
  length-hex b,
  h.1,
  le→leb (length (hex b)) 128,
  le→leb 128 (length (hex b)),
)

task_id-trip : (s : Str) → bounded max_task_id_length s ≡ true → read_task_id (str s) ≡ ok s
unfolding read_task_id
task_id-trip s h = rw h

-- Every record within the limits is read back from its dict as it was.
pub from_dict-to_dict : (r : TaskRecord) → IsWire r → from_dict (obj (to_dict r)) ≡ ok r
unfolding from_dict to_dict fetch read_lease
from_dict-to_dict r w = rw (
  task_id-trip r.task_id w.task_id,
  state-trip r.state,
  payload-trip r.payload w.payload w.payload_size,
  result-trip r.result w.result,
  error-trip r.error w.error,
  peer-trip r.claimed_by w.claimed_by,
  peer-trip (some r.updated_by) w.updated_by,
  peer-trip r.signer_id w.signer_id,
  token-trip r.fence_token w.token,
  clock-trip r.vector_clock w.clock_size w.clock_peers w.clock_positive,
  signature-trip r.signature w.signature,
)

-- `from_dict` refuses a text that is empty where the key is there: a record whose `updated_by` is
-- the empty default of `TaskRecord` is not read back from its own dict.
pub from_dict_blank_updated_by :
    (r : TaskRecord)
    → IsWire r
    → from_dict (obj (to_dict (record r { updated_by = [] }))) ≡ err value_error
unfolding from_dict to_dict fetch read_peer
from_dict_blank_updated_by r w =
    rw
      (
        task_id-trip r.task_id w.task_id,
        state-trip r.state,
        payload-trip r.payload w.payload w.payload_size,
        result-trip r.result w.result,
        error-trip r.error w.error,
      )
      (rw (peer-trip r.claimed_by w.claimed_by))

-- A lease that is an int from `float_limit` on makes `from_dict` raise OverflowError, which is no
-- ValueError, on a dict that is otherwise that of a record within the limits.
pub from_dict_huge_lease :
    (r : TaskRecord) (n : ℕ)
    → IsWire r
    → float_limit ≤ n
    → from_dict (obj (set_field (codes "lease_expiry") (int (pos n)) (to_dict r)))
      ≡ err overflow_error
unfolding from_dict to_dict fetch set_field read_lease to_float
from_dict_huge_lease r n w h =
    let large : ltb n float_limit ≡ false = ground arith in
    rw (
      task_id-trip r.task_id w.task_id,
      state-trip r.state,
      payload-trip r.payload w.payload w.payload_size,
      result-trip r.result w.result,
      error-trip r.error w.error,
      peer-trip r.claimed_by w.claimed_by,
      peer-trip (some r.updated_by) w.updated_by,
      peer-trip r.signer_id w.signer_id,
      token-trip r.fence_token w.token,
      clock-trip r.vector_clock w.clock_size w.clock_peers w.clock_positive,
      large,
    )
