-- ===== src/Node/Loop.antt =====
-- The coroutines of peerq/node.py beside each other: what may happen to the table while the worker
-- of `_worker_loop` is between two of its awaits.
use peer_q.Prelude.{ℕ, ◌≡◌, Str, Bytes, Bool, true, some, List, str_ordered}
use peer_q.Prelude.Int.{ℤ}
use peer_q.Prelude.Dict.{has}
use peer_q.Errors.{ok}
use peer_q.Json.{Codec, Fields}
use peer_q.Crypto.{Ed25519}
use peer_q.Consensus.Record.{FenceToken, next_for, TaskRecord}
use peer_q.Queue.{Queue}
use peer_q.Node.{Node, receive_gossip, submit_record}
use peer_q.Node.Worker.{HandlerResult, take_task, claim, start_running, commit, reclaim}

-- Where the worker is: at the queue, in the broadcast of its claim, or in the task's function.
pub data Phase : Type 0 where
  idle : Phase
  claiming executing : Str → TaskRecord → FenceToken → ℤ → Phase

pub record Running : Type 0 where
  pub node : Node
  pub phase : Phase

abbrev pub at : Node → Phase → Running
at n phase = record { node = n; phase = phase }

module _ (ed : Ed25519) (codec : Codec) (score : Str → Str → ℕ) where
  -- One stretch between two awaits of one of the coroutines.
  pub data Step : Running → Running → Type 0 where
    hears :
        (locked : Bool) (sender : Str) (tasks : Fields) (n : Node) (phase : Phase)
        → Step (at n phase) (at (receive_gossip ed codec locked sender tasks n).node phase)
    submits :
        (task_id : Str) (payload : Bytes) (n m : Node) (phase : Phase)
        → submit_record ed codec task_id payload n ≡ ok m
        → Step (at n phase) (at m phase)
    -- Whatever a put or a get makes of the queue and of the ids beside it.
    queues :
        (queue : Queue Str) (ids : List Str) (n : Node) (phase : Phase)
        → Step (at n phase) (at (record n { queue = queue; queued_task_ids = ids }) phase)
    -- The worker takes a task id from the queue and claims it; the lease may end at any time.
    takes :
        (task_id : Str) (now lease_exp : ℤ) (is_suspected : Str → Bool) (n : Node) (r : TaskRecord)
        → take_task n task_id now is_suspected ≡ some r
        → Step (at n idle) (
            at
              (claim ed codec task_id r lease_exp n)
              (claiming task_id r (next_for r.fence_token n.node_id) lease_exp))
    starts :
        (task_id : Str) (r : TaskRecord) (token : FenceToken) (lease_exp : ℤ) (n : Node)
        → Step (at n (claiming task_id r token lease_exp)) (
            at
              (start_running ed codec task_id r token lease_exp n)
              (executing task_id r token lease_exp))
    ends :
        (task_id : Str) (r : TaskRecord) (token : FenceToken) (lease_exp now : ℤ)
        (outcome : HandlerResult) (n : Node)
        → Step
            (at n (executing task_id r token lease_exp))
            (at (commit ed codec task_id r token lease_exp now outcome n) idle)
    -- An entry of the snapshot that the reclaim pass goes over.
    reclaims :
        (has_handler locked : Bool) (task_id : Str) (r : TaskRecord) (now : ℤ)
        (is_suspected : Str → Bool) (live_peers : List Str) (n : Node) (phase : Phase)
        → has task_id n.tasks ≡ true
        → Step (at n phase) (
            at
              (reclaim ed codec score has_handler locked task_id r now is_suspected live_peers n)
              phase)

  pub data Reach (start : Running) : Running → Type 0 where
    here : Reach start start
    onward : {w v : Running} → Reach start w → Step w v → Reach start v
