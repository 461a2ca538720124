-- ===== src/Consensus/Merge/Laws.antt =====
-- Without a keyring the merge of the records of one task is a join semilattice, and what the order
-- of the key means for the winner.
use peer_q.Prelude.{
  ◌≡◌, refl, sym, ap, inl, inr, true, false, none, arith, if◌then◌else◌, at_most-total, pick,
  pick_self, pick-upper, pick_assoc, pick_comm, Bool-cases, ==_iff, ==_self, pick-view, str_ordered,
  ◌==◌, ◌∙◌,
}
use peer_q.Json.{Codec}
use peer_q.Errors.{Result, ok, err, ◌>>=◌}
use peer_q.Crypto.{Ed25519}
use peer_q.Consensus.Clock
use peer_q.Consensus.Clock.{VectorClock}
use peer_q.Consensus.Clock.Order.{SameClock, merge_semilattice, ◌⊑◌}
use peer_q.Consensus.Clock.Laws.{get-merge}
use peer_q.Consensus.Record.{TaskRecord, is_terminal}
use peer_q.Consensus.Lattice.{lattice_ordered, record_lattice_key}
use peer_q.Consensus.Merge.{join, merge_records}
use peer_q.Consensus.Lattice.Laws.{◌≼◌, SameFields, record_lattice_key-injective, ≼-is_terminal}

-- The records agree: the same fields, and clocks with the same counters.
abbrev pub SameRecord : TaskRecord → TaskRecord → Type 0
SameRecord r s = SameFields r s × SameClock r.vector_clock s.vector_clock

key-join :
    (r s : TaskRecord)
    → record_lattice_key (join r s) ≡ record_lattice_key (pick record_lattice_key r s)
unfolding record_lattice_key join
key-join r s = refl

abbrev with_clock : TaskRecord → VectorClock → TaskRecord
with_clock r c = record r { vector_clock = c }

-- The clock is no part of the key.
key-with_clock :
    (r : TaskRecord) (c : VectorClock) → record_lattice_key (with_clock r c) ≡ record_lattice_key r
unfolding record_lattice_key
key-with_clock r c = refl

-- Both records lie below their join, in the order of the keys and in that of the clocks.
pub join-upper :
    (r s : TaskRecord)
    → ((r ≼ join r s) ≡ true)
      × ((s ≼ join r s) ≡ true)
      × (r.vector_clock ⊑ (join r s).vector_clock)
      × (s.vector_clock ⊑ (join r s).vector_clock)
unfolding join
join-upper r s = (
  (pick-upper record_lattice_key r s).0,
  (pick-upper record_lattice_key r s).1,
  λ p. omega (arith, get-merge r.vector_clock s.vector_clock p),
  λ p. omega (arith, get-merge r.vector_clock s.vector_clock p),
)

join_assoc : (r s u : TaskRecord) → SameRecord (join r (join s u)) (join (join r s) u)
unfolding join
join_assoc r s u =
    let all : VectorClock =
      Clock.merge r.vector_clock (Clock.merge s.vector_clock u.vector_clock) in
    let view : TaskRecord → TaskRecord = λ x. with_clock x all in
    (
      pick-view record_lattice_key view {a = r} {b = join s u} {b' = pick record_lattice_key s u}
            refl (key-join s u) refl refl
          ∙ ap view (pick_assoc record_lattice_key r s u)
          ∙ sym (
              pick-view record_lattice_key view {a = join r s} {a' = pick record_lattice_key r s}
                {b = u} (key-join r s) refl refl refl),
      (merge_semilattice r.vector_clock s.vector_clock u.vector_clock).1,
    )

tied :
    (r s : TaskRecord) (c : VectorClock)
    → r.task_id ≡ s.task_id
    → record_lattice_key r ≡ record_lattice_key s
    → with_clock (pick record_lattice_key r s) c ≡ with_clock (pick record_lattice_key s r) c
unfolding pick
tied r s c t e =
    let same : with_clock r c ≡ with_clock s c =
      ap (λ x. with_clock x c) (record_lattice_key-injective r s t e) in
    ground (arith, same)

join_comm : (r s : TaskRecord) → r.task_id ≡ s.task_id → SameRecord (join r s) (join s r)
unfolding join
join_comm r s t =
    let both : VectorClock = Clock.merge r.vector_clock s.vector_clock in
    (
      (elim (pick_comm record_lattice_key r s) [
        | inl e ↦ ap (λ x. with_clock x both) e
        | inr e ↦ tied r s both t e
      ]),
      (merge_semilattice r.vector_clock s.vector_clock r.vector_clock).0,
    )

join_self : (r : TaskRecord) → SameRecord (join r r) r
unfolding join
join_self r = (
  ap (λ x. with_clock x (Clock.merge r.vector_clock r.vector_clock))
      (pick_self record_lattice_key r),
  (merge_semilattice r.vector_clock r.vector_clock r.vector_clock).2,
)

-- Two results agree: the same error, or records that agree.
abbrev pub SameResult : Result TaskRecord → Result TaskRecord → Type 0
SameResult (ok r) (ok s) = SameRecord r s
SameResult (err e) (err f) = e ≡ f
SameResult _ _ = ⊥

task_id-join : (r s : TaskRecord) → r.task_id ≡ s.task_id → (join r s).task_id ≡ r.task_id
unfolding join pick
task_id-join r s t = ground (arith, t)

-- The joined record is terminal exactly when one of the two is.
pub is_terminal-join :
    (r s : TaskRecord)
    → is_terminal (join r s).state ≡ (if is_terminal r.state then true else is_terminal s.state)
unfolding join pick
is_terminal-join r s = ground (
  arith,
  ≼-is_terminal r s,
  ≼-is_terminal s r,
  at_most-total (record_lattice_key s) (record_lattice_key r),
)

module _ (ed : Ed25519) (codec : Codec) where
  -- Without a keyring the merge is commutative, whatever the two records.
  pub merge_records_comm :
      (r s : TaskRecord)
      → SameResult (merge_records ed codec r s none) (merge_records ed codec s r none)
  unfolding merge_records
  merge_records_comm r s = elim (Bool-cases (r.task_id == s.task_id)) [
    | inl e ↦
        let t : r.task_id ≡ s.task_id = (==_iff r.task_id s.task_id).0 e in
        let e' : (s.task_id == r.task_id) ≡ true = (==_iff s.task_id r.task_id).1 (sym t) in
        rw (e, e') (join_comm r s t)
    | inr n ↦
        let n' : (s.task_id == r.task_id) ≡ false =
          ground (arith, ==_iff r.task_id s.task_id, ==_iff s.task_id r.task_id) in
        rw (n, n') refl
  ]

  -- A merge of a record with itself agrees with the record.
  pub merge_records_self : (r : TaskRecord) → SameResult (merge_records ed codec r r none) (ok r)
  unfolding merge_records
  merge_records_self r = rw (==_self r.task_id) (join_self r)

  -- Without a keyring the merge is associative, the refusals of foreign tasks included.
  pub merge_records_assoc :
      (r s u : TaskRecord)
      → SameResult
          (merge_records ed codec s u none >>= λ m. merge_records ed codec r m none)
          (merge_records ed codec r s none >>= λ m. merge_records ed codec m u none)
  unfolding merge_records
  merge_records_assoc r s u = elim (Bool-cases (r.task_id == s.task_id)) [
    | inl e ↦ elim (Bool-cases (s.task_id == u.task_id)) [
      | inl f ↦
          let t : r.task_id ≡ s.task_id = (==_iff r.task_id s.task_id).0 e in
          let v : s.task_id ≡ u.task_id = (==_iff s.task_id u.task_id).0 f in
          let left : (r.task_id == (join s u).task_id) ≡ true =
            (==_iff r.task_id (join s u).task_id).1 (t ∙ sym (task_id-join s u v)) in
          let right : ((join r s).task_id == u.task_id) ≡ true =
            (==_iff (join r s).task_id u.task_id).1 (task_id-join r s t ∙ t ∙ v) in
          rw (e, f, left, right) (join_assoc r s u)
      | inr g ↦
          let t : r.task_id ≡ s.task_id = (==_iff r.task_id s.task_id).0 e in
          let right : ((join r s).task_id == u.task_id) ≡ false = rw (task_id-join r s t ∙ t) g in
          rw (e, g, right) refl
    ]
    | inr n ↦ elim (Bool-cases (s.task_id == u.task_id)) [
      | inl f ↦
          let v : s.task_id ≡ u.task_id = (==_iff s.task_id u.task_id).0 f in
          let left : (r.task_id == (join s u).task_id) ≡ false = rw (task_id-join s u v) n in
          rw (n, f, left) refl
      | inr g ↦ rw (n, g) refl
    ]
  ]
