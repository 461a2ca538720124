-- ===== src/Node/Growth.antt =====
-- What the steps of the worker and of the reclaim pass of peerq/node.py keep of the table.
use peer_q.Prelude.{
  ℕ, ◌≡◌, Str, Bool, true, not, some, List, arith, if_cases, inl, inr, Option-cases, str_ordered,
}
use peer_q.Prelude.Int.{ℤ, pos, ltb_ℤ}
use peer_q.Prelude.Dict.{lookup, has, insert, member, length-insert, has-insert, has-lookup-some}
use peer_q.Errors.{Result, ok, err}
use peer_q.Json.{Codec}
use peer_q.Crypto.{Ed25519}
use peer_q.Consensus.Record.{TaskRecord, FenceToken, next_for, claimed, running, done}
use peer_q.Queue.{Queue, put_nowait}
use peer_q.Node.{Node, seal_record, ticked, queued}
use peer_q.Node.Table.{IsBounded}
use peer_q.Node.Worker.{
  HandlerResult, take_task, is_superseded, store_sealed, broadcast_update, claim, start_running,
  commit, reclaim, is_reclaimable, reset_record, held_record, with_outcome,
}
use peer_q.Node.Loop.{Phase, idle, claiming, executing}

-- No task leaves the table, and the table keeps its bound.
pub record IsGrown (n m : Node) : Type 0 where
  pub kept : (k : Str) → has k n.tasks ≡ true → has k m.tasks ≡ true
  pub bounded : IsBounded n → IsBounded m

pub IsGrown-refl : (n : Node) → IsGrown n n
IsGrown-refl n = record { kept = λ k h. h; bounded = λ h. h }

pub IsGrown-trans : (n m o : Node) → IsGrown n m → IsGrown m o → IsGrown n o
IsGrown-trans n m o a b = record {
  kept = λ k h. b.kept k (a.kept k h);
  bounded = λ h. b.bounded (a.bounded h);
}

pub kept-insert :
    (task_id k : Str) (r : TaskRecord) (n : Node)
    → has k n.tasks ≡ true
    → has k (insert task_id r n.tasks) ≡ true
kept-insert task_id k r n h = ground (arith, has-insert task_id k r n.tasks, h)

-- The phase's task is in the table.
abbrev pub Holds : Phase → Node → Type 0
Holds idle n = Unit
Holds (claiming task_id r token lease_exp) n = has task_id n.tasks ≡ true
Holds (executing task_id r token lease_exp) n = has task_id n.tasks ≡ true

pub Holds-grown : (phase : Phase) (n m : Node) → IsGrown n m → Holds phase n → Holds phase m
Holds-grown idle n m g h = tt
Holds-grown (claiming task_id r token lease_exp) n m g h = g.kept task_id h
Holds-grown (executing task_id r token lease_exp) n m g h = g.kept task_id h

module _ (ed : Ed25519) (codec : Codec) where
  -- A write of a task that is in the table.
  store_sealed-IsGrown :
      (task_id : Str) (r : TaskRecord) (n : Node)
      → has task_id n.tasks ≡ true
      → IsGrown n (store_sealed ed codec task_id r n)
  unfolding store_sealed
  store_sealed-IsGrown task_id r n h =
      let sealed : TaskRecord = seal_record ed codec n r in
      record {
        kept = λ k known. kept-insert task_id k sealed n known;
        bounded = λ b. ground (arith, length-insert task_id sealed n.tasks, h, b);
      }

  broadcast_update-IsGrown :
      (task_id : Str) (r : TaskRecord) (n : Node)
      → has task_id n.tasks ≡ true
      → IsGrown n (broadcast_update ed codec task_id r n)
  unfolding broadcast_update
  broadcast_update-IsGrown task_id r n h =
      store_sealed-IsGrown task_id (seal_record ed codec n r) n h

  ticked-IsGrown : (n m : Node) → IsGrown (ticked ed codec n) m → IsGrown n m
  ticked-IsGrown n m g = record { kept = g.kept; bounded = g.bounded }

  pub take_task-has :
      (n : Node) (task_id : Str) (now : ℤ) (is_suspected : Str → Bool) (r : TaskRecord)
      → take_task n task_id now is_suspected ≡ some r
      → has task_id n.tasks ≡ true
  unfolding take_task
  take_task-has n task_id now is_suspected r h = elim (Option-cases (lookup task_id n.tasks)) [
    | inl gone ↦ ground (arith, gone, h)
    | inr (found, e) ↦ has-lookup-some task_id n.tasks found e
  ]

  pub claim-IsGrown :
      (task_id : Str) (r : TaskRecord) (lease_exp : ℤ) (n : Node)
      → has task_id n.tasks ≡ true
      → IsGrown n (claim ed codec task_id r lease_exp n)
  unfolding claim
  claim-IsGrown task_id r lease_exp n h =
      let m : Node = ticked ed codec n in
      ticked-IsGrown n _ (
        broadcast_update-IsGrown task_id
          (held_record claimed m task_id r (next_for r.fence_token n.node_id) lease_exp) m h)

  pub start_running-IsGrown :
      (task_id : Str) (r : TaskRecord) (token : FenceToken) (lease_exp : ℤ) (n : Node)
      → has task_id n.tasks ≡ true
      → IsGrown n (start_running ed codec task_id r token lease_exp n)
  unfolding start_running
  start_running-IsGrown task_id r token lease_exp n h =
      store_sealed-IsGrown task_id (held_record running n task_id r token lease_exp) n h

  pub commit-IsGrown :
      (task_id : Str) (r : TaskRecord) (token : FenceToken) (lease_exp now : ℤ)
      (outcome : HandlerResult) (n : Node)
      → has task_id n.tasks ≡ true
      → IsGrown n (commit ed codec task_id r token lease_exp now outcome n)
  unfolding commit
  commit-IsGrown task_id r token lease_exp now outcome n h =
      if_cases (IsGrown n) (ltb_ℤ lease_exp now) (λ _. IsGrown-refl n)
        (λ _.
          if_cases (IsGrown n) (is_superseded (lookup task_id n.tasks) token) (λ _. IsGrown-refl n)
            (λ _.
              let m : Node = ticked ed codec n in
              ticked-IsGrown n _ (
                broadcast_update-IsGrown task_id
                  (with_outcome outcome (held_record done m task_id r token (pos 0))) m h)))

  queued-IsGrown :
      (task_id : Str) (n : Node) (q : Result (Queue Str)) → IsGrown n (queued ed codec task_id n q)
  queued-IsGrown task_id n (ok q) = record { kept = λ k h. h; bounded = λ h. h }
  queued-IsGrown task_id n (err e) = IsGrown-refl n

  pub reclaim-IsGrown :
      (score : Str → Str → ℕ) (has_handler locked : Bool) (task_id : Str) (r : TaskRecord) (now : ℤ)
      (is_suspected : Str → Bool) (live_peers : List Str) (n : Node)
      → has task_id n.tasks ≡ true
      → IsGrown n
          (reclaim ed codec score has_handler locked task_id r now is_suspected live_peers n)
  unfolding reclaim
  reclaim-IsGrown score has_handler locked task_id r now is_suspected live_peers n h =
      if_cases (IsGrown n)
        (not (is_reclaimable ed codec score task_id r now is_suspected live_peers n))
        (λ _. IsGrown-refl n)
        (λ _.
          if_cases (IsGrown n) (not has_handler)
            (λ _.
              let m : Node = ticked ed codec n in
              ticked-IsGrown n _
                (broadcast_update-IsGrown task_id (reset_record ed codec score task_id r m) m h))
            (λ _.
              if_cases (IsGrown n) (member task_id n.queued_task_ids) (λ _. IsGrown-refl n)
                (λ _. queued-IsGrown task_id n (put_nowait locked task_id (pos 10) n.queue))))
