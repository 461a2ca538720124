-- ===== src/Crypto.antt =====
-- peerq/crypto.py: signatures of task records and the ring of authorized peers. The Ed25519
-- primitives of the `cryptography` package are a parameter; a key is its raw bytes.
pub mod Laws
use peer_q.Prelude.{
  ℕ, ◌≡◌, Str, Bytes, Bool, true, false, not, ◌&&◌, ◌||◌, Option, none, some, List, [], ◌∷◌, codes,
  leb, length, if◌then◌else◌, ◌==◌, less, str_ordered, option_ordered,
}
use peer_q.Prelude.Int.{pos}
use peer_q.Prelude.Dict.{Dict, lookup, insert, remove, has}
use peer_q.Json.{Json, null, int, str, arr, obj, Items, nil, cons, end, field, Codec}
use peer_q.Json.Hex.{hex, fromhex}
use peer_q.Errors.{Result, ok, err, value_error, invalid_key, ◌>>=◌, ◌>>◌, check}
use peer_q.Security.{max_peer_id_length}
use peer_q.Consensus.Record.{TaskRecord, state_value}

pub record Ed25519 : Type 0 where
  pub public_key : Bytes → Bytes
  pub sign : Bytes → Bytes → Bytes
  -- public key, signature, data
  pub verify : Bytes → Bytes → Bytes → Bool
  -- whether `from_public_bytes` takes 32 bytes as a key
  pub loads_key : Bytes → Bool
  pub verify-sign :
      (key message : Bytes) → verify (public_key key) (sign key message) message ≡ true
  pub length-sign : (key message : Bytes) → length (sign key message) ≡ 64

-- `PeerKeyRing._keys`
abbrev pub PeerKeyRing : Type 0
PeerKeyRing = Dict Str Bytes

-- The kinds of key that `add_peer` takes.
pub data KeyArg : Type 0 where
  wrapper raw : Bytes → KeyArg
  text : Str → KeyArg

-- `value is None`
abbrev pub is_none {ℓ} : {A : Type ℓ} → Option A → Bool
is_none none = true
is_none (some _) = false

-- `not value` of a text.
abbrev pub is_empty : Str → Bool
is_empty [] = true
is_empty (_ ∷ _) = false

module _ (ed : Ed25519) where
  -- `Ed25519PublicKeyWrapper.from_bytes`
  unfoldable pub from_bytes : Bytes → Result Bytes
  from_bytes bytes = do
    check (leb (length bytes) 32 && leb 32 (length bytes)) invalid_key
    check (ed.loads_key bytes) invalid_key
    ok bytes

  -- `Ed25519PublicKeyWrapper.from_hex`
  unfoldable pub from_hex : Str → Result Bytes
  unfolding from_bytes
  from_hex hex_str = elim (fromhex hex_str) [
    | none ↦ err invalid_key
    | some bytes ↦ from_bytes bytes
  ]

  -- `Ed25519PublicKeyWrapper.verify`
  unfoldable pub verify_key : Bytes → Bytes → Bytes → Bool
  verify_key key signature message =
      leb (length signature) 64 && leb 64 (length signature) && ed.verify key signature message

  unfoldable pub parse_key : KeyArg → Result Bytes
  unfolding from_bytes from_hex
  parse_key (wrapper key) = ok key
  parse_key (raw key) = from_bytes key
  parse_key (text key) = from_hex key

  -- `PeerKeyRing.add_peer`; the ring is unchanged where it raises.
  unfoldable pub add_peer : PeerKeyRing → Str → KeyArg → Result PeerKeyRing
  unfolding parse_key
  add_peer ring peer_id public_key = do
    check (not (is_empty peer_id) && leb (length peer_id) max_peer_id_length) value_error
    key ← parse_key public_key
    ok (insert peer_id key ring)

  unfoldable pub remove_peer : PeerKeyRing → Str → PeerKeyRing
  remove_peer ring peer_id = remove peer_id ring

  unfoldable pub has_peer : PeerKeyRing → Str → Bool
  has_peer ring peer_id = has peer_id ring

  -- `PeerKeyRing.verify`
  unfoldable pub verify_peer : PeerKeyRing → Str → Bytes → Bytes → Bool
  unfolding verify_key
  verify_peer ring peer_id signature message = elim (lookup peer_id ring) [
    | none ↦ false
    | some key ↦ verify_key key signature message
  ]

abbrev str_or_null : Option Str → Json
str_or_null none = null
str_or_null (some s) = str s

abbrev hex_or_null : Option Bytes → Json
hex_or_null none = null
hex_or_null (some b) = str (hex b)

-- `sorted(clock.items())`, by insertion; the keys of a dict are distinct.
insert_item : Str × ℕ → List (Str × ℕ) → List (Str × ℕ)
insert_item e [] = e ∷ []
insert_item e (f ∷ fs) = if less e.0 f.0 then e ∷ f ∷ fs else f ∷ insert_item e fs

sorted_items : List (Str × ℕ) → List (Str × ℕ)
unfolding insert_item
sorted_items [] = []
sorted_items (e ∷ es) = insert_item e (sorted_items es)

pairs_json : List (Str × ℕ) → Items
pairs_json [] = nil
pairs_json ((k, v) ∷ es) = cons (arr (cons (str k) (cons (int (pos v)) nil))) (pairs_json es)

module _ (codec : Codec) where
  -- The signed document: every field but the signature.
  unfoldable pub canonical_document : TaskRecord → Json
  unfolding sorted_items pairs_json
  canonical_document task = obj (
      field (codes "claimed_by") (str_or_null task.claimed_by) (
        field (codes "error") (str_or_null task.error) (
          field (codes "fence_epoch") (int (pos task.fence_token.epoch)) (
            field (codes "fence_peer") (str task.fence_token.peer_id) (
              field (codes "lease_expiry") (str (codec.fixed6 task.lease_expiry)) (
                field (codes "payload") (str (hex task.payload)) (
                  field (codes "result") (hex_or_null task.result) (
                    field (codes "signer_id") (str_or_null task.signer_id) (
                      field (codes "state") (str (state_value task.state)) (
                        field (codes "task_id") (str task.task_id) (
                          field (codes "updated_by") (str task.updated_by) (
                            field (codes "vector_clock")
                              (arr (pairs_json (sorted_items task.vector_clock.clock)))
                              end))))))))))))

  unfoldable pub canonical_task_bytes : TaskRecord → Bytes
  unfolding canonical_document
  canonical_task_bytes task = codec.dumps (canonical_document task)

module _ (ed : Ed25519) (codec : Codec) where
  -- `sign_task`, with the private key of the pair.
  unfoldable pub sign_task : Bytes → TaskRecord → Str → TaskRecord
  sign_task key task signer_id =
      let staged = record task { signer_id = some signer_id; signature = none } in
      record staged { signature = some (ed.sign key (canonical_task_bytes codec staged)) }

  unfoldable pub verify_task_signature : TaskRecord → PeerKeyRing → Bool
  verify_task_signature task ring = elim task.signature [
    | none ↦ false
    | some signature ↦ elim task.signer_id [
      | none ↦ false
      | some signer_id ↦
          verify_peer ed ring signer_id signature
            (canonical_task_bytes codec (record task { signature = none }))
    ]
  ]

  -- The claim of a task names its signer and the peer of its fence token.
  unfoldable pub owns_claim : TaskRecord → Bool
  owns_claim task = elim task.claimed_by [
    | none ↦ true
    | some peer ↦ task.signer_id == some peer && task.fence_token.peer_id == peer
  ]

  unfoldable pub verify_task_authorization : TaskRecord → PeerKeyRing → Bool
  unfolding verify_task_signature owns_claim
  verify_task_authorization task ring =
      if verify_task_signature task ring then owns_claim task else false
