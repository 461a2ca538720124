-- ===== src/Exporter.antt =====
-- `format_cluster_status` of peerq/exporter.py: what a node reports of its peers, its queue and its
-- tasks.
pub mod Counts
pub mod Html
pub mod Markup
pub mod Injection
pub mod Boxes
pub mod Prometheus
pub mod Server
pub mod Access
use peer_q.Prelude.{
  ℕ, zero, suc, ◌+◌, Str, Bool, true, false, Option, none, some, List, [], ◌∷◌, codes, length,
  if◌then◌else◌, ◌==◌, str_ordered,
}
use peer_q.Prelude.Int.{ℤ, pos}
use peer_q.Prelude.Dict.{Dict, lookup, insert}
use peer_q.Json.{
  Json, Items, Fields, null, int, str, float, arr, obj, nil, cons, end, field, finite,
}
use peer_q.Consensus.Clock
use peer_q.Consensus.Record.{
  TaskState, pending, claimed, running, done, failed, state_value, TaskRecord,
}
use peer_q.Consensus.Wire.{clock_fields, str_or_none}
use peer_q.Queue.{qsize}
use peer_q.Flow.{Flow, get_credits}
use peer_q.Failure.{Floats, is_suspected}
use peer_q.Metrics.{MetricsCollector}
use peer_q.Node.Worker.{is_held}
use peer_q.Node.Receive.{Peer}

-- What the exporter reads of a `PeerNode`.
pub record StatusNode : Type 0 where
  pub peer : Peer
  pub peers : List Str
  pub metrics : MetricsCollector

pub record Lease : Type 0 where
  pub task_id : Str
  pub claimed_by : Option Str
  pub fence_epoch : ℕ
  pub fence_peer : Str
  pub lease_expiry : ℤ

pub record ClusterStatus : Type 0 where
  pub node_id : Str
  pub known_peers : List Str
  pub live_peers : List Str
  pub suspected_peers : List Str
  pub depth : ℕ
  pub peer_credits : Dict Str ℤ
  pub total : ℕ
  pub by_state : Dict Str ℕ
  pub active_leases : List Lease
  pub vector_clock : Dict Str ℕ

-- The live peers and the suspected ones, in the order of the peers.
unfoldable pub split_peers : (Str → Bool) → List Str → List Str × List Str
split_peers suspected [] = ([], [])
split_peers suspected (p ∷ ps) =
    let (live, lost) = split_peers suspected ps in
    if suspected p then (live, p ∷ lost) else (p ∷ live, lost)

-- `{state.value: 0 for state in TaskState}`
abbrev pub no_tasks : Dict Str ℕ
no_tasks =
    (state_value pending, 0)
    ∷ (state_value claimed, 0)
    ∷ (state_value running, 0)
    ∷ (state_value done, 0)
    ∷ (state_value failed, 0)
    ∷ []

abbrev pub count_of : Option ℕ → ℕ
count_of none = 0
count_of (some n) = n

abbrev pub tallied : TaskState → Dict Str ℕ → Dict Str ℕ
tallied s d = insert (state_value s) (count_of (lookup (state_value s) d) + 1) d

-- The loop over the tasks, on the counts so far.
unfoldable pub count_states : Dict Str TaskRecord → Dict Str ℕ → Dict Str ℕ
count_states [] d = d
count_states ((k, t) ∷ ts) d = count_states ts (tallied t.state d)

abbrev pub lease_of : TaskRecord → Lease
lease_of t = record {
  task_id = t.task_id;
  claimed_by = t.claimed_by;
  fence_epoch = t.fence_token.epoch;
  fence_peer = t.fence_token.peer_id;
  lease_expiry = t.lease_expiry;
}

unfoldable pub list_leases : Dict Str TaskRecord → List Lease
list_leases [] = []
list_leases ((k, t) ∷ ts) =
    let rest = list_leases ts in if is_held t.state then lease_of t ∷ rest else rest

-- The loop over the peers, on the credits so far.
unfoldable pub list_credits : Flow → List Str → Dict Str ℤ → Dict Str ℤ
list_credits f [] d = d
list_credits f (p ∷ ps) d = list_credits f ps (insert p (get_credits f p) d)

module _ {F : Type 0} (fl : Floats F) (variance_floor : F) where
  -- `is_suspected(peer, timestamp=now)`, under the default threshold 8.0.
  abbrev pub suspects : StatusNode → ℤ → Str → Bool
  suspects b now p =
      is_suspected fl variance_floor p (fl.of_micro (pos 8000000)) now b.peer.failure_detector

  unfoldable pub format_cluster_status : StatusNode → ℤ → ClusterStatus
  format_cluster_status b now =
      let n = b.peer.node in
      let (live, lost) = split_peers (suspects b now) b.peers in
      record {
        node_id = n.node_id;
        known_peers = b.peers;
        live_peers = live;
        suspected_peers = lost;
        depth = qsize n.queue;
        peer_credits = list_credits b.peer.flow_controller b.peers [];
        total = length n.tasks;
        by_state = count_states n.tasks no_tasks;
        active_leases = list_leases n.tasks;
        vector_clock = Clock.to_dict n.vector_clock;
      }

abbrev pub str_items : List Str → Items
str_items [] = nil
str_items (s ∷ ss) = cons (str s) (str_items ss)

abbrev pub credit_fields : Dict Str ℤ → Fields
credit_fields [] = end
credit_fields ((k, v) ∷ d) = field k (int v) (credit_fields d)

abbrev pub lease_json : Lease → Json
lease_json l = obj (
    field (codes "task_id") (str l.task_id) (
      field (codes "claimed_by") (str_or_none l.claimed_by) (
        field (codes "fence_epoch") (int (pos l.fence_epoch)) (
          field (codes "fence_peer") (str l.fence_peer)
            (field (codes "lease_expiry") (float (finite l.lease_expiry)) end)))))

abbrev pub lease_items : List Lease → Items
lease_items [] = nil
lease_items (l ∷ ls) = cons (lease_json l) (lease_items ls)

abbrev pub topology_json : ClusterStatus → Json
topology_json s = obj (
    field (codes "known_peers") (arr (str_items s.known_peers)) (
      field (codes "live_peers") (arr (str_items s.live_peers))
        (field (codes "suspected_peers") (arr (str_items s.suspected_peers)) end)))

abbrev pub queue_json : ClusterStatus → Json
queue_json s = obj (
    field (codes "depth") (int (pos s.depth))
      (field (codes "peer_credits") (obj (credit_fields s.peer_credits)) end))

abbrev pub tasks_json : ClusterStatus → Json
tasks_json s = obj (
    field (codes "total") (int (pos s.total)) (
      field (codes "by_state") (obj (clock_fields s.by_state))
        (field (codes "active_leases") (arr (lease_items s.active_leases)) end)))

-- The dictionary that `format_cluster_status` returns.
unfoldable pub status_json : ClusterStatus → Json
status_json s = obj (
    field (codes "node_id") (str s.node_id) (
      field (codes "cluster_topology") (topology_json s) (
        field (codes "queue") (queue_json s) (
          field (codes "tasks") (tasks_json s)
            (field (codes "vector_clock") (obj (clock_fields s.vector_clock)) end)))))
