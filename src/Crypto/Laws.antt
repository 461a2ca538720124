-- ===== src/Crypto/Laws.antt =====
-- What a signed record satisfies, and what an authorized record is known to be.
use peer_q.Prelude.{
  ◌≡◌, Str, Bytes, true, false, none, some, arith, ==_iff, ==_self, Option-cases, inl, inr,
  str_ordered, option_ordered,
}
use peer_q.Prelude.Dict.{lookup}
use peer_q.Json.{Codec}
use peer_q.Consensus.Record.{TaskRecord}
use peer_q.Crypto.{
  Ed25519, PeerKeyRing, verify_key, verify_peer, canonical_task_bytes, sign_task,
  verify_task_signature, owns_claim, verify_task_authorization,
}

module _ (ed : Ed25519) (codec : Codec) where
  -- A record signed with the key that the ring holds for the signer verifies.
  pub verify_task_signature-sign_task :
      (key : Bytes) (task : TaskRecord) (signer : Str) (ring : PeerKeyRing)
      → lookup signer ring ≡ some (ed.public_key key)
      → verify_task_signature ed codec (sign_task ed codec key task signer) ring ≡ true
  unfolding verify_task_signature sign_task verify_peer verify_key
  verify_task_signature-sign_task key task signer ring h =
      let message : Bytes =
        canonical_task_bytes codec (record task { signature = none; signer_id = some signer }) in
      ground (arith, ed.verify-sign key message, ed.length-sign key message)

  -- A record that the peer itself claims and signs is authorized under a ring with its key.
  pub verify_task_authorization-sign_task :
      (key : Bytes) (task : TaskRecord) (peer : Str) (ring : PeerKeyRing)
      → lookup peer ring ≡ some (ed.public_key key)
      → task.claimed_by ≡ some peer
      → task.fence_token.peer_id ≡ peer
      → verify_task_authorization ed codec (sign_task ed codec key task peer) ring ≡ true
  unfolding verify_task_authorization owns_claim sign_task
  verify_task_authorization-sign_task key task peer ring h c f =
      ground (arith, verify_task_signature-sign_task key task peer ring h, ==_self peer, c, f)

  -- What an authorized record is known to be: it carries a signature by a peer of the ring, over
  -- all its other fields, and where it is claimed, the signer is the claimant and the owner of the
  -- fence token.
  pub record IsAuthorized (task : TaskRecord) (ring : PeerKeyRing) : Type 0 where
    pub signature : Bytes
    pub signer : Str
    pub signed : task.signature ≡ some signature
    pub named : task.signer_id ≡ some signer
    pub verified :
        verify_peer ed ring signer signature
          (canonical_task_bytes codec (record task { signature = none }))
        ≡ true
    pub claimant :
        (p : Str) → task.claimed_by ≡ some p → (signer ≡ p) × (task.fence_token.peer_id ≡ p)

  IsAuthorized-parts :
      (task : TaskRecord) (ring : PeerKeyRing) (signature : Bytes) (signer : Str)
      → task.signature ≡ some signature
      → task.signer_id ≡ some signer
      → verify_task_authorization ed codec task ring ≡ true
      → IsAuthorized task ring
  unfolding verify_task_authorization verify_task_signature owns_claim
  IsAuthorized-parts task ring signature signer s n h = record {
    signature = signature;
    signer = signer;
    signed = s;
    named = n;
    verified = ground arith;
    claimant = λ p c. ground (arith, ==_iff signer p, ==_iff task.fence_token.peer_id p);
  }

  -- Every record that the check accepts has what `IsAuthorized` says: no record is accepted without
  -- a signature that verifies, or with a claim by another peer than the signer.
  pub verify_task_authorization-IsAuthorized :
      (task : TaskRecord) (ring : PeerKeyRing)
      → verify_task_authorization ed codec task ring ≡ true
      → IsAuthorized task ring
  unfolding verify_task_authorization verify_task_signature
  verify_task_authorization-IsAuthorized task ring h = elim (Option-cases task.signature) [
    | inl s ↦ absurd (ground arith)
    | inr (signature, s) ↦ elim (Option-cases task.signer_id) [
      | inl n ↦ absurd (ground arith)
      | inr (signer, n) ↦ IsAuthorized-parts task ring signature signer s n h
    ]
  ]

  -- Under a ring without the signer's key no record is authorized: revoking a peer's key refuses
  -- all that it signed.
  pub revoked_refused :
      (task : TaskRecord) (ring : PeerKeyRing) (signer : Str)
      → task.signer_id ≡ some signer
      → lookup signer ring ≡ none
      → verify_task_authorization ed codec task ring ≡ false
  unfolding verify_task_authorization verify_task_signature verify_peer
  revoked_refused task ring signer n h = ground arith
