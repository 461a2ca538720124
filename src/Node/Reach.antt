-- ===== src/Node/Reach.antt =====
-- The table of a running node of peerq/node.py, over every interleaving of its coroutines.
use peer_q.Prelude.{ℕ, ◌≡◌, ap, ◌∙◌, Str, Bytes, Bool, true, arith, if_cases, str_ordered}
use peer_q.Prelude.Int.{pos}
use peer_q.Prelude.Dict.{lookup, has, insert}
use peer_q.Errors.{Result, ok, err}
use peer_q.Json.{Codec, Fields, end, field}
use peer_q.Crypto.{Ed25519}
use peer_q.Consensus.Record.{TaskRecord}
use peer_q.Consensus.Wire.{from_dict}
use peer_q.Node.{
  Node, Received, receive_gossip, receive_record, receive_decoded, keep_merged, settle_entry,
  accepts, submit_record, seal_record, new_record, ticked,
}
use peer_q.Node.Table.{stop-kept, enqueue-tasks, submit_record-IsBounded, receive_gossip-IsBounded}
use peer_q.Node.Loop.{
  idle, Running, at, Step, hears, submits, queues, takes, starts, ends, reclaims, Reach, here,
  onward,
}
use peer_q.Node.Growth.{
  IsGrown, IsGrown-refl, IsGrown-trans, kept-insert, Holds, Holds-grown, take_task-has,
  claim-IsGrown, start_running-IsGrown, commit-IsGrown, reclaim-IsGrown,
}

module _ (ed : Ed25519) (codec : Codec) where
  keep_merged-kept :
      (locked : Bool) (task_id k : Str) (remote : TaskRecord) (n : Node) (r : Result TaskRecord)
      → has k n.tasks ≡ true
      → has k (keep_merged ed codec locked task_id remote n r).tasks ≡ true
  keep_merged-kept locked task_id k remote n (err e) h = h
  keep_merged-kept locked task_id k remote n (ok merged) h =
      let stored : Node = record n { tasks = insert task_id merged n.tasks } in
      ap (has k) (enqueue-tasks ed codec locked task_id (pos 0) merged stored).0
      ∙ kept-insert task_id k merged n h

  decoded-kept :
      (locked : Bool) (sender task_id k : Str) (n : Node) (r : Result TaskRecord)
      → has k n.tasks ≡ true
      → has k (receive_decoded ed codec locked sender task_id n r).node.tasks ≡ true
  decoded-kept locked sender task_id k n (err e) h = h
  decoded-kept locked sender task_id k n (ok remote) h =
      if_cases (λ (m : Node). has k m.tasks ≡ true) (accepts ed codec sender task_id remote n)
        (λ _.
          keep_merged-kept locked task_id k remote n
            (settle_entry ed codec task_id remote n (lookup task_id n.tasks)) h)
        (λ _. h)

  receive_gossip-kept :
      (locked : Bool) (sender k : Str) (tasks : Fields) (n : Node)
      → has k n.tasks ≡ true
      → has k (receive_gossip ed codec locked sender tasks n).node.tasks ≡ true
  unfolding receive_gossip receive_record
  receive_gossip-kept locked sender k end n h = h
  receive_gossip-kept locked sender k (field task_id raw rest) n h =
      let first : Received = receive_record ed codec locked sender task_id raw n in
      let kept : has k first.node.tasks ≡ true =
        decoded-kept locked sender task_id k n (from_dict raw) h in
      stop-kept (λ m. has k m.tasks ≡ true) first.escaped first
        (receive_gossip ed codec locked sender rest first.node) kept
        (receive_gossip-kept locked sender k rest first.node kept)

  submit_record-kept :
      (task_id k : Str) (payload : Bytes) (n m : Node)
      → submit_record ed codec task_id payload n ≡ ok m
      → has k n.tasks ≡ true
      → has k m.tasks ≡ true
  unfolding submit_record
  submit_record-kept task_id k payload n m e h = ground (
    arith,
    kept-insert task_id k
        (seal_record ed codec n (new_record ed codec task_id payload (ticked ed codec n))) n h,
  )

  module _ (score : Str → Str → ℕ) where
    -- A step grows the table, and leaves the worker with a task of the table.
    Step-IsGrown :
        (w v : Running)
        → Step ed codec score w v
        → Holds w.phase w.node
        → IsGrown w.node v.node × Holds v.phase v.node
    Step-IsGrown w v (hears locked sender tasks n phase) h =
        let g : IsGrown n (receive_gossip ed codec locked sender tasks n).node = record {
          kept = λ k known. receive_gossip-kept locked sender k tasks n known;
          bounded = λ b. receive_gossip-IsBounded ed codec locked sender tasks n b;
        } in
        (g, Holds-grown phase n v.node g h)
    Step-IsGrown w v (submits task_id payload n m phase e) h =
        let g : IsGrown n m = record {
          kept = λ k known. submit_record-kept task_id k payload n m e known;
          bounded = λ b. submit_record-IsBounded ed codec task_id payload n m b e;
        } in
        (g, Holds-grown phase n m g h)
    Step-IsGrown w v (queues queue ids n phase) h =
        let g : IsGrown n v.node = record { kept = λ k known. known; bounded = λ b. b } in
        (g, Holds-grown phase n v.node g h)
    Step-IsGrown w v (takes task_id now lease_exp is_suspected n r e) h =
        let known : has task_id n.tasks ≡ true =
          take_task-has ed codec n task_id now is_suspected r e in
        let g : IsGrown n v.node = claim-IsGrown ed codec task_id r lease_exp n known in
        (g, g.kept task_id known)
    Step-IsGrown w v (starts task_id r token lease_exp n) h =
        let g : IsGrown n v.node = start_running-IsGrown ed codec task_id r token lease_exp n h in
        (g, g.kept task_id h)
    Step-IsGrown w v (ends task_id r token lease_exp now outcome n) h =
        (commit-IsGrown ed codec task_id r token lease_exp now outcome n h, tt)
    Step-IsGrown w v (reclaims has_handler locked task_id r now is_suspected live_peers n phase e)
          h =
        let g : IsGrown n v.node =
          reclaim-IsGrown ed codec score has_handler locked task_id r now is_suspected live_peers n
            e in
        (g, Holds-grown phase n v.node g h)

    -- However the coroutines of a node interleave from a start with an idle worker, no task leaves
    -- the table, a table within `max_tasks` stays within it, and the task that the worker is at is
    -- in the table.
    pub Reach-IsGrown :
        (n : Node) (w : Running)
        → Reach ed codec score (at n idle) w
        → IsGrown n w.node × Holds w.phase w.node
    Reach-IsGrown n w here = (IsGrown-refl n, tt)
    Reach-IsGrown n w (onward {w = u} before step) =
        let (g, h) = Reach-IsGrown n u before in
        let (next, held) = Step-IsGrown u w step h in (IsGrown-trans n u.node w.node g next, held)
