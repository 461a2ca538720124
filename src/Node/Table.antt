-- ===== src/Node/Table.antt =====
-- The task table never outgrows `max_tasks`, and gossip does not undo a finished task where records
-- are not signed.
use peer_q.Prelude.{
  ◌≤◌, ◌≡◌, refl, Str, Bytes, Bool, true, false, ◌||◌, Option, none, some, arith, if◌then◌else◌,
  ltb, length, ◌==◌, ==_iff, ◌∙◌, subst, ap, Bool-cases, inl, inr, str_ordered, option_ordered,
}
use peer_q.Prelude.Int.{ℤ, pos}
use peer_q.Prelude.Dict.{lookup, has, insert, member, length-insert, lookup-insert}
use peer_q.Errors.{Error, Result, ok, err}
use peer_q.Json.{Codec, Fields, end, field}
use peer_q.Crypto.{Ed25519}
use peer_q.Consensus.Record.{TaskState, pending, is_terminal, TaskRecord}
use peer_q.Consensus.Merge.{merge_records}
use peer_q.Consensus.Merge.Laws.{is_terminal-join}
use peer_q.Consensus.Wire.{from_dict}
use peer_q.Queue.{Queue, put_nowait}
use peer_q.Node.{
  Node, Received, stop_at, queued, enqueue_in, enqueue_pending, submit_record, settle_entry,
  keep_merged, accepts, receive_decoded, receive_record, receive_gossip, seal_record, new_record,
  ticked,
}

abbrev pub IsBounded : Node → Type 0
IsBounded n = length n.tasks ≤ n.max_tasks

-- Queueing changes neither the table nor its bound.
abbrev pub SameTable : Node → Node → Type 0
SameTable m n =
    (m.tasks ≡ n.tasks) × (m.max_tasks ≡ n.max_tasks) × (m.security_enabled ≡ n.security_enabled)

pub stop-kept :
    (P : Node → Type 0) (o : Option Error) (first more : Received)
    → P first.node
    → P more.node
    → P (stop_at o first more).node
stop-kept P none first more h k = k
stop-kept P (some e) first more h k = h

module _ (ed : Ed25519) (codec : Codec) where
  pub queued-tasks :
      (task_id : Str) (n : Node) (q : Result (Queue Str))
      → SameTable (queued ed codec task_id n q) n
  queued-tasks task_id n (ok q) = (refl, refl, refl)
  queued-tasks task_id n (err e) = (refl, refl, refl)

  enqueue_in-tasks :
      (s : TaskState) (locked : Bool) (task_id : Str) (p : ℤ) (n : Node)
      → SameTable (enqueue_in ed codec s locked task_id p n) n
  enqueue_in-tasks pending locked task_id p n =
      elim (Bool-cases (member task_id n.queued_task_ids)) [
        | inl e ↦ rw e (refl, refl, refl)
        | inr e ↦ rw e (queued-tasks task_id n (put_nowait locked task_id p n.queue))
      ]
  enqueue_in-tasks _ locked task_id p n = (refl, refl, refl)

  pub enqueue-tasks :
      (locked : Bool) (task_id : Str) (p : ℤ) (r : TaskRecord) (n : Node)
      → SameTable (enqueue_pending ed codec locked task_id p r n) n
  unfolding enqueue_pending
  enqueue-tasks locked task_id p r n = enqueue_in-tasks r.state locked task_id p n

  -- A submission that succeeds leaves the table within `max_tasks`.
  pub submit_record-IsBounded :
      (task_id : Str) (payload : Bytes) (n m : Node)
      → IsBounded n
      → submit_record ed codec task_id payload n ≡ ok m
      → IsBounded m
  unfolding submit_record
  submit_record-IsBounded task_id payload n m h e = ground (
    arith,
    length-insert task_id
        (seal_record ed codec n (new_record ed codec task_id payload (ticked ed codec n))) n.tasks,
  )

  keep-IsBounded :
      (locked : Bool) (task_id : Str) (remote : TaskRecord) (n : Node) (r : Result TaskRecord)
      → IsBounded n
      → (has task_id n.tasks || ltb (length n.tasks) n.max_tasks) ≡ true
      → IsBounded (keep_merged ed codec locked task_id remote n r)
  keep-IsBounded locked task_id remote n (err e) h room = h
  keep-IsBounded locked task_id remote n (ok merged) h room =
      let stored : Node = record n { tasks = insert task_id merged n.tasks } in
      ground (
        arith,
        enqueue-tasks locked task_id (pos 0) merged stored,
        length-insert task_id merged n.tasks,
      )

  accepts-room :
      (sender task_id : Str) (remote : TaskRecord) (n : Node)
      → accepts ed codec sender task_id remote n ≡ true
      → (has task_id n.tasks || ltb (length n.tasks) n.max_tasks) ≡ true
  unfolding accepts
  accepts-room sender task_id remote n h = ground arith

  decoded-IsBounded :
      (locked : Bool) (sender task_id : Str) (n : Node) (r : Result TaskRecord)
      → IsBounded n
      → IsBounded (receive_decoded ed codec locked sender task_id n r).node
  decoded-IsBounded locked sender task_id n (err e) h = h
  decoded-IsBounded locked sender task_id n (ok remote) h =
      elim (Bool-cases (accepts ed codec sender task_id remote n)) [
        | inl e ↦ rw e (
            keep-IsBounded locked task_id remote n
              (settle_entry ed codec task_id remote n (lookup task_id n.tasks)) h
              (accepts-room sender task_id remote n e))
        | inr e ↦ rw e h
      ]

  -- A gossip message leaves a table within `max_tasks` within it, whoever sent it and whatever its
  -- entries are, also where one of them raises.
  pub receive_gossip-IsBounded :
      (locked : Bool) (sender : Str) (tasks : Fields) (n : Node)
      → IsBounded n
      → IsBounded (receive_gossip ed codec locked sender tasks n).node
  unfolding receive_gossip receive_record
  receive_gossip-IsBounded locked sender end n h = h
  receive_gossip-IsBounded locked sender (field task_id raw rest) n h =
      let first : Received = receive_record ed codec locked sender task_id raw n in
      let kept : IsBounded first.node =
        decoded-IsBounded locked sender task_id n (from_dict raw) h in
      stop-kept IsBounded first.escaped first
        (receive_gossip ed codec locked sender rest first.node) kept
        (receive_gossip-IsBounded locked sender rest first.node kept)

  -- The table has the task, in a terminal state.
  abbrev pub IsFinished : Str → Node → Type 0
  IsFinished t n =
      (n.security_enabled ≡ false)
      × (r : TaskRecord) × (lookup t n.tasks ≡ some r)
      × (is_terminal r.state ≡ true)

  IsFinished-same : (t : Str) (m n : Node) → SameTable m n → IsFinished t n → IsFinished t m
  IsFinished-same t m n (s, _, u) (open_, r, e, f) = (u ∙ open_, r, rw s e, f)

  insert-IsFinished :
      (t k : Str) (x : TaskRecord) (n : Node)
      → IsFinished t n
      → (k ≡ t → is_terminal x.state ≡ true)
      → IsFinished t (record n { tasks = insert k x n.tasks })
  insert-IsFinished t k x n (open_, r, e, f) h = elim (Bool-cases (k == t)) [
    | inl same ↦ (open_, x, lookup-insert k t x n.tasks ∙ rw same refl, h ((==_iff k t).0 same))
    | inr other ↦ (open_, r, lookup-insert k t x n.tasks ∙ rw other e, f)
  ]

  is_terminal-merge :
      (r remote x : TaskRecord)
      → is_terminal r.state ≡ true
      → merge_records ed codec r remote none ≡ ok x
      → is_terminal x.state ≡ true
  unfolding merge_records
  is_terminal-merge r remote x f h = ground (arith, is_terminal-join r remote)

  -- The record that the handler is about to store, where the task is finished already.
  settle-IsFinished :
      (t k : Str) (remote x : TaskRecord) (n : Node)
      → IsFinished t n
      → settle_entry ed codec k remote n (lookup k n.tasks) ≡ ok x
      → k ≡ t
      → is_terminal x.state ≡ true
  settle-IsFinished t k remote x n (open_, r, e, f) h same =
      let known : lookup k n.tasks ≡ some r = ap (λ j. lookup j n.tasks) same ∙ e in
      let merged : merge_records ed codec r remote none ≡ ok x =
        subst (λ b. merge_records ed codec r remote (if b then some n.keyring else none) ≡ ok x)
          open_ (subst (λ o. settle_entry ed codec k remote n o ≡ ok x) known h) in
      is_terminal-merge r remote x f merged

  keep-IsFinished :
      (t k : Str) (locked : Bool) (remote : TaskRecord) (n : Node) (o : Result TaskRecord)
      → settle_entry ed codec k remote n (lookup k n.tasks) ≡ o
      → IsFinished t n
      → IsFinished t (keep_merged ed codec locked k remote n o)
  keep-IsFinished t k locked remote n (err e) s h = h
  keep-IsFinished t k locked remote n (ok x) s h =
      let stored : Node = record n { tasks = insert k x n.tasks } in
      IsFinished-same t (keep_merged ed codec locked k remote n (ok x)) stored
        (enqueue-tasks locked k (pos 0) x stored)
        (insert-IsFinished t k x n h (settle-IsFinished t k remote x n h s))

  decoded-IsFinished :
      (t k : Str) (locked : Bool) (sender : Str) (n : Node) (o : Result TaskRecord)
      → IsFinished t n
      → IsFinished t (receive_decoded ed codec locked sender k n o).node
  decoded-IsFinished t k locked sender n (err e) h = h
  decoded-IsFinished t k locked sender n (ok remote) h =
      elim (Bool-cases (accepts ed codec sender k remote n)) [
        | inl e ↦ rw e (
            keep-IsFinished t k locked remote n
              (settle_entry ed codec k remote n (lookup k n.tasks)) refl h)
        | inr e ↦ rw e h
      ]

  -- Without signatures no gossip message, whatever its entries, takes a finished task out of the
  -- table or back to a state that is not terminal.
  pub receive_gossip-IsFinished :
      (t : Str) (locked : Bool) (sender : Str) (tasks : Fields) (n : Node)
      → IsFinished t n
      → IsFinished t (receive_gossip ed codec locked sender tasks n).node
  unfolding receive_gossip receive_record
  receive_gossip-IsFinished t locked sender end n h = h
  receive_gossip-IsFinished t locked sender (field k raw rest) n h =
      let first : Received = receive_record ed codec locked sender k raw n in
      let kept : IsFinished t first.node =
        decoded-IsFinished t k locked sender n (from_dict raw) h in
      stop-kept (IsFinished t) first.escaped first
        (receive_gossip ed codec locked sender rest first.node) kept
        (receive_gossip-IsFinished t locked sender rest first.node kept)
