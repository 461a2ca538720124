-- ===== src/Node/Worker.antt =====
-- The steps of `_worker_loop` and of the pass of `_reclaim_loop` of peerq/node.py between two awaits.
-- Who is suspected, the end of the lease and what the task's function returns are arguments; SHA-256
-- is the parameter `score`.
use peer_q.Prelude.{
  ℕ, Str, Bytes, Bool, true, false, not, ◌&&◌, ◌||◌, Option, none, some, List, [], ◌∷◌,
  if◌then◌else◌, ltb, ◌==◌, less, str_ordered, nat_ordered, option_ordered,
}
use peer_q.Prelude.Int.{ℤ, pos, ltb_ℤ, leb_ℤ}
use peer_q.Prelude.Dict.{lookup, insert, member}
use peer_q.Json.{Codec}
use peer_q.Crypto.{Ed25519}
use peer_q.Consensus.Record.{
  TaskState, pending, claimed, running, done, failed, is_terminal, FenceToken, next_for, TaskRecord,
  task_record,
}
use peer_q.Consensus.Lattice.{token_ordered}
use peer_q.Queue.{put_nowait}
use peer_q.Node.{Node, seal_record, ticked, queued}

-- `state in (TaskState.CLAIMED, TaskState.RUNNING)`
abbrev pub is_held : TaskState → Bool
is_held claimed = true
is_held running = true
is_held _ = false

-- `claimed_by or ""`
abbrev pub holder_of : Option Str → Str
holder_of none = []
holder_of (some p) = p

-- Another peer holds the task under a lease that runs, and is not suspected.
unfoldable pub is_active_claim : Node → TaskRecord → ℤ → (Str → Bool) → Bool
is_active_claim n r now is_suspected =
    is_held r.state
    && not (r.claimed_by == some n.node_id)
    && ltb_ℤ now r.lease_expiry
    && not (is_suspected (holder_of r.claimed_by))

abbrev pub workable : Node → Option TaskRecord → ℤ → (Str → Bool) → Option TaskRecord
workable n none now is_suspected = none
workable n (some r) now is_suspected =
    if is_terminal r.state || is_active_claim n r now is_suspected then none else some r

-- The record that the worker goes on with, for the task id that it took from the queue.
unfoldable pub take_task : Node → Str → ℤ → (Str → Bool) → Option TaskRecord
take_task n task_id now is_suspected = workable n (lookup task_id n.tasks) now is_suspected

-- The outcome of the task's function.
pub data HandlerResult : Type 0 where
  finished : Option Bytes → HandlerResult
  crashed : Str → HandlerResult

abbrev pub held_record : TaskState → Node → Str → TaskRecord → FenceToken → ℤ → TaskRecord
held_record state n task_id r token lease_exp = record (task_record task_id state r.payload) {
  claimed_by = some n.node_id;
  fence_token = token;
  lease_expiry = lease_exp;
  vector_clock = n.vector_clock;
  updated_by = n.node_id;
}

abbrev pub with_outcome : HandlerResult → TaskRecord → TaskRecord
with_outcome (finished result) r = record r { state = done; result = result }
with_outcome (crashed error) r = record r { state = failed; error = some error }

-- `current is not None and current.fence_token > new_token`
abbrev pub is_superseded : Option TaskRecord → FenceToken → Bool
is_superseded none token = false
is_superseded (some c) token =
    less ⦃o = token_ordered⦄ (token.epoch, token.peer_id)
      (c.fence_token.epoch, c.fence_token.peer_id)

module _ (ed : Ed25519) (codec : Codec) where
  -- `self._tasks[task_id] = self._seal_record(record)`
  unfoldable pub store_sealed : Str → TaskRecord → Node → Node
  store_sealed task_id r n = record n { tasks = insert task_id (seal_record ed codec n r) n.tasks }

  -- The store of `_broadcast_task_update`, which seals the record again.
  unfoldable pub broadcast_update : Str → TaskRecord → Node → Node
  broadcast_update task_id r n = store_sealed task_id (seal_record ed codec n r) n

  -- The claim, up to the first send of its broadcast.
  unfoldable pub claim : Str → TaskRecord → ℤ → Node → Node
  claim task_id r lease_exp n =
      let m = ticked ed codec n in
      let token = next_for r.fence_token n.node_id in
      broadcast_update task_id (held_record claimed m task_id r token lease_exp) m

  -- The running record replaces the entry, whatever it is by then.
  unfoldable pub start_running : Str → TaskRecord → FenceToken → ℤ → Node → Node
  start_running task_id r token lease_exp n =
      store_sealed task_id (held_record running n task_id r token lease_exp) n

  -- The end of the task: its result is stored unless the lease ran out or the claim was superseded.
  unfoldable pub commit : Str → TaskRecord → FenceToken → ℤ → ℤ → HandlerResult → Node → Node
  commit task_id r token lease_exp now outcome n =
      if ltb_ℤ lease_exp now
      then n
      else if is_superseded (lookup task_id n.tasks) token
      then n
      else let m = ticked ed codec n in
        broadcast_update task_id (with_outcome outcome (held_record done m task_id r token (pos 0)))
          m

  module _ (score : Str → Str → ℕ) where
    -- `max(candidate_peers, key=_score)`: the first of the greatest.
    unfoldable pub best : Str → Str → List Str → Str
    best task_id p [] = p
    best task_id p (q ∷ qs) =
        best task_id (if ltb (score task_id p) (score task_id q) then q else p) qs

    unfoldable pub rendezvous_reclaimer : Str → List Str → Option Str
    rendezvous_reclaimer task_id [] = none
    rendezvous_reclaimer task_id (p ∷ ps) = some (best task_id p ps)

    -- The reset record of a node without a handler.
    abbrev pub reset_record : Str → TaskRecord → Node → TaskRecord
    reset_record task_id r n = record (task_record task_id pending r.payload) {
      fence_token = next_for r.fence_token n.node_id;
      vector_clock = n.vector_clock;
      updated_by = n.node_id;
    }

    -- The peers that the failure detector does not suspect, the node first.
    unfoldable pub is_reclaimable : Str → TaskRecord → ℤ → (Str → Bool) → List Str → Node → Bool
    is_reclaimable task_id r now is_suspected live_peers n =
        is_held r.state
        && not (r.claimed_by == some n.node_id)
        && leb_ℤ r.lease_expiry now
        && is_suspected (holder_of r.claimed_by)
        && rendezvous_reclaimer task_id live_peers == some n.node_id

    -- One entry of the pass.
    unfoldable pub reclaim :
        Bool → Bool → Str → TaskRecord → ℤ → (Str → Bool) → List Str → Node → Node
    reclaim has_handler locked task_id r now is_suspected live_peers n =
        let m = ticked ed codec n in
        if not (is_reclaimable task_id r now is_suspected live_peers n)
        then n
        else if not has_handler
        then broadcast_update task_id (reset_record task_id r m) m
        else if member task_id n.queued_task_ids
        then n
        else queued ed codec task_id n (put_nowait locked task_id (pos 10) n.queue)
