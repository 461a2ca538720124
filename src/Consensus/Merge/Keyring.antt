-- ===== src/Consensus/Merge/Keyring.antt =====
-- The merge under a keyring: whose fields its result has.
use peer_q.Prelude.{
  ◌≡◌, refl, ap, subst, ◌⊎◌, inl, inr, Bool, true, false, not, ◌&&◌, some, arith, if◌then◌else◌,
  ◌==◌, str_ordered, pick,
}
use peer_q.Json.{Codec}
use peer_q.Errors.{ok, err, value_error, ok-injective}
use peer_q.Crypto.{Ed25519, PeerKeyRing, verify_task_authorization}
use peer_q.Consensus.Record.{TaskRecord}
use peer_q.Consensus.Lattice.{lattice_ordered, record_lattice_key}
use peer_q.Consensus.Lattice.Laws.{SameFields}
use peer_q.Consensus.Merge.{join, merge_records}

pick_either :
    (r s : TaskRecord) → (pick record_lattice_key r s ≡ r) ⊎ (pick record_lattice_key r s ≡ s)
unfolding pick
pick_either r s = ground arith

join-fields : (r s : TaskRecord) → SameFields (join r s) r ⊎ SameFields (join r s) s
unfolding join
join-fields r s = elim (pick_either r s) [
  | inl e ↦ inl (ap {B = TaskRecord} (λ x. record x { vector_clock = (join r s).vector_clock }) e)
  | inr e ↦ inr (ap {B = TaskRecord} (λ x. record x { vector_clock = (join r s).vector_clock }) e)
]

-- The merge's choice, on the values of its tests.
fields_of :
    (r s m : TaskRecord) (same a b : Bool)
    → (if not same
        then err value_error
        else if a && not b
        then ok r
        else if b && not a
        then ok s
        else if not a && not b
        then err value_error
        else ok (join r s))
      ≡ ok m
    → ((a ≡ true) × SameFields m r) ⊎ ((b ≡ true) × SameFields m s)
fields_of r s m false a b h = cc
fields_of r s m true false false h = cc
fields_of r s m true true false h = inl (refl, subst (λ x. SameFields x r) (ok-injective h) refl)
fields_of r s m true false true h = inr (refl, subst (λ x. SameFields x s) (ok-injective h) refl)
fields_of r s m true true true h =
    subst (λ x. ((true ≡ true) × SameFields x r) ⊎ ((true ≡ true) × SameFields x s))
      (ok-injective h) (elim (join-fields r s) [ inl e ↦ inl (refl, e) | inr e ↦ inr (refl, e) ])

module _ (ed : Ed25519) (codec : Codec) where
  -- Under a keyring every merge that succeeds has all fields but the clock from an argument that the
  -- keyring authorizes: an unauthorized record contributes none.
  pub merge_records-fields :
      (r s m : TaskRecord) (ring : PeerKeyRing)
      → merge_records ed codec r s (some ring) ≡ ok m
      → ((verify_task_authorization ed codec r ring ≡ true) × SameFields m r)
        ⊎ ((verify_task_authorization ed codec s ring ≡ true) × SameFields m s)
  unfolding merge_records
  merge_records-fields r s m ring h =
      fields_of r s m (r.task_id == s.task_id) (verify_task_authorization ed codec r ring)
        (verify_task_authorization ed codec s ring) h
