-- ===== src/Consensus/Wire/Limits.antt =====
-- What `from_dict` accepts lies within the limits of the protocol.
use peer_q.Prelude.{
  ℕ, ◌*◌, ◌≤◌, ◌≡◌, Str, Bytes, true, Option, none, some, arith, leb, leb→le, length, All, codes,
  subst,
}
use peer_q.Prelude.Dict.{Dict}
use peer_q.Prelude.Int.{pos, negsuc}
use peer_q.Json.{Json, null, int, str, obj, Fields, end, field, fetch, count_fields}
use peer_q.Json.Hex.{length-fromhex}
use peer_q.Errors.{ok, check, value_error, >>=-inverse, ok-injective}
use peer_q.Security.{
  max_task_id_length, max_peer_id_length, max_task_payload, max_task_result, max_error_length,
}
use peer_q.Consensus.Clock.{VectorClock}
use peer_q.Consensus.Clock.Laws.{IsNormal, vector_clock-IsNormal, length-vector_clock}
use peer_q.Consensus.Record.{FenceToken, TaskRecord}
use peer_q.Consensus.Wire.{
  bounded, counter_value, read_task_id, read_payload, read_result, read_error, read_peer,
  read_token, read_clock, read_counters, read_state, read_lease, read_signature, read_all,
  token_parts, from_dict,
}

-- A predicate on the value of an optional field.
abbrev pub IfSome {ℓ} : {A : Type ℓ} → (A → Type 0) → Option A → Type 0
IfSome P none = Unit
IfSome P (some a) = P a

task_id-limit : (j : Json) (s : Str) → read_task_id j ≡ ok s → bounded max_task_id_length s ≡ true
unfolding read_task_id
task_id-limit (str t) s h = ground arith
task_id-limit null s h = ground arith
task_id-limit _ s h = ground arith

payload-limit : (j : Json) (b : Bytes) → read_payload j ≡ ok b → length b ≤ max_task_payload
unfolding read_payload
payload-limit (str t) b h =
    ground (arith, length-fromhex t b, leb→le (length t) (max_task_payload * 2))
payload-limit null b h = ground arith
payload-limit _ b h = ground arith

result-limit :
    (j : Json) (o : Option Bytes)
    → read_result j ≡ ok o
    → IfSome (λ b. length b ≤ max_task_result) o
unfolding read_result
result-limit j none h = tt
result-limit (str t) (some b) h =
    ground (arith, length-fromhex t b, leb→le (length t) (max_task_result * 2))
result-limit null (some b) h = ground arith
result-limit _ (some b) h = ground arith

error-limit :
    (j : Json) (o : Option Str) → read_error j ≡ ok o → IfSome (λ s. length s ≤ max_error_length) o
unfolding read_error
error-limit j none h = tt
error-limit (str t) (some s) h = ground (arith, leb→le (length t) max_error_length)
error-limit null (some s) h = ground arith
error-limit _ (some s) h = ground arith

peer-limit :
    (j : Json) (o : Option Str)
    → read_peer j ≡ ok o
    → IfSome (λ s. bounded max_peer_id_length s ≡ true) o
unfolding read_peer
peer-limit j none h = tt
peer-limit (str t) (some s) h = ground arith
peer-limit null (some s) h = ground arith
peer-limit _ (some s) h = ground arith

counters-limit :
    (fs : Fields) (d : Dict Str ℕ)
    → read_counters fs ≡ ok d
    → All (λ e. bounded max_peer_id_length e.0 ≡ true) d × (length d ≡ count_fields fs)
unfolding read_counters count_fields
counters-limit end d h = ground arith
counters-limit (field peer counter rest) d h =
    let (u, a, h1) = >>=-inverse (check (bounded max_peer_id_length peer) value_error) _ h in
    let (n, b, h2) = >>=-inverse (counter_value counter) _ h1 in
    let (more, c, h3) = >>=-inverse (read_counters rest) _ h2 in
    ground (arith, counters-limit rest more c)

clock-limit :
    (j : Json) (c : VectorClock) → read_clock j ≡ ok c → IsNormal c × (length c.clock ≤ 128)
unfolding read_clock
clock-limit (obj fs) c h =
    let (u, a, h1) = >>=-inverse (check (leb (count_fields fs) 128) value_error) _ h in
    let (d, b, h2) = >>=-inverse (read_counters fs) _ h1 in
    ground (
      arith,
      vector_clock-IsNormal d,
      length-vector_clock d,
      counters-limit fs d b,
      leb→le (count_fields fs) 128,
    )
clock-limit null c h = ground arith
clock-limit _ c h = ground arith

token_parts-limit :
    (a b : Json) (t : FenceToken) → token_parts a b ≡ ok t → length t.peer_id ≤ max_peer_id_length
token_parts-limit (int (pos e)) (str p) t h = ground (arith, leb→le (length p) max_peer_id_length)
token_parts-limit (int (pos e)) null t h = ground arith
token_parts-limit (int (pos e)) _ t h = ground arith
token_parts-limit (int (negsuc e)) b t h = ground arith
token_parts-limit null b t h = ground arith
token_parts-limit _ b t h = ground arith

token-limit :
    (j : Json) (t : FenceToken) → read_token j ≡ ok t → length t.peer_id ≤ max_peer_id_length
unfolding read_token
token-limit (obj d) t h =
    token_parts-limit (fetch (codes "epoch") d) (fetch (codes "peer_id") d) t h
token-limit null t h = ground arith
token-limit _ t h = ground arith

-- The sizes that an accepted record keeps to: its identifiers, payload, result, error, fence token
-- and clock are bounded, and no counter of the clock is zero.
pub record InLimits (r : TaskRecord) : Type 0 where
  pub task_id : bounded max_task_id_length r.task_id ≡ true
  pub payload : length r.payload ≤ max_task_payload
  pub result : IfSome (λ b. length b ≤ max_task_result) r.result
  pub error : IfSome (λ s. length s ≤ max_error_length) r.error
  pub claimed_by : IfSome (λ s. bounded max_peer_id_length s ≡ true) r.claimed_by
  pub signer_id : IfSome (λ s. bounded max_peer_id_length s ≡ true) r.signer_id
  pub token : length r.fence_token.peer_id ≤ max_peer_id_length
  pub clock : IsNormal r.vector_clock × (length r.vector_clock.clock ≤ 128)

read_all-InLimits :
    (a b c d e f g h i j k l : Json) (r : TaskRecord)
    → read_all a b c d e f g h i j k l ≡ ok r
    → InLimits r
read_all-InLimits a b c d e f g h i j k l r p =
    let (task_id, ra, p1) = >>=-inverse (read_task_id a) _ p in
    let (state, rb, p2) = >>=-inverse (read_state b) _ p1 in
    let (payload, rc, p3) = >>=-inverse (read_payload c) _ p2 in
    let (result, rd, p4) = >>=-inverse (read_result d) _ p3 in
    let (error, re, p5) = >>=-inverse (read_error e) _ p4 in
    let (claimed_by, rf, p6) = >>=-inverse (read_peer f) _ p5 in
    let (updated_by, rg, p7) = >>=-inverse (read_peer g) _ p6 in
    let (signer_id, rh, p8) = >>=-inverse (read_peer h) _ p7 in
    let (token, ri, p9) = >>=-inverse (read_token i) _ p8 in
    let (clock, rj, p10) = >>=-inverse (read_clock j) _ p9 in
    let (lease, rk, p11) = >>=-inverse (read_lease k) _ p10 in
    let (signature, rl, p12) = >>=-inverse (read_signature l) _ p11 in
    subst InLimits (ok-injective p12) (record {
      task_id = task_id-limit a task_id ra;
      payload = payload-limit c payload rc;
      result = result-limit d result rd;
      error = error-limit e error re;
      claimed_by = peer-limit f claimed_by rf;
      signer_id = peer-limit h signer_id rh;
      token = token-limit i token ri;
      clock = clock-limit j clock rj;
    })

-- Every record that `from_dict` accepts, from whatever JSON value, is within the limits.
pub from_dict-InLimits : (j : Json) (r : TaskRecord) → from_dict j ≡ ok r → InLimits r
unfolding from_dict
from_dict-InLimits (obj d) r h = read_all-InLimits _ _ _ _ _ _ _ _ _ _ _ _ r h
from_dict-InLimits null r h = ground arith
from_dict-InLimits _ r h = ground arith
