-- ===== src/Exporter/Counts.antt =====
-- The report of `format_cluster_status` of peerq/exporter.py beside what the node has: every peer is
-- on one side, every task is counted under its state, and the leases are those of the held tasks.
use peer_q.Prelude.{
  ℕ, ◌+◌, ◌≡◌, refl, ap, ◌∙◌, Str, Bool, true, false, not, ◌&&◌, some, List, [], ◌∷◌, arith, length,
  if◌then◌else◌, Bool-cases, ◌==◌, ==_iff, str_ordered,
}
use peer_q.Prelude.Int.{ℤ}
use peer_q.Prelude.Dict.{Dict, lookup, lookup-insert, member}
use peer_q.Consensus.Record.{
  TaskState, pending, claimed, running, done, failed, state_value, TaskRecord,
}
use peer_q.Failure.{Floats}
use peer_q.Node.Worker.{is_held}
use peer_q.Exporter.{
  StatusNode, ClusterStatus, split_peers, count_states, tallied, count_of, no_tasks, list_leases,
  suspects, format_cluster_status, lease_of,
}

-- The number of tasks in a state.
abbrev pub is_state : TaskState → TaskState → Bool
is_state s t = state_value t == state_value s

unfoldable pub number_in : TaskState → Dict Str TaskRecord → ℕ
number_in s [] = 0
number_in s ((k, t) ∷ ts) = (if is_state s t.state then 1 else 0) + number_in s ts

-- The report on peers and tasks is right.
pub record IsCensus (suspected : Str → Bool) (b : StatusNode) (s : ClusterStatus) : Type 0 where
  pub live : (p : Str) → member p s.live_peers ≡ (member p b.peers && not (suspected p))
  pub lost : (p : Str) → member p s.suspected_peers ≡ (member p b.peers && suspected p)
  pub sides : length s.live_peers + length s.suspected_peers ≡ length s.known_peers
  pub states :
      (t : TaskState) → lookup (state_value t) s.by_state ≡ some (number_in t b.peer.node.tasks)
  pub leases :
      length s.active_leases
      ≡ number_in claimed b.peer.node.tasks + number_in running b.peer.node.tasks
  pub total :
      s.total
      ≡ number_in pending b.peer.node.tasks
        + length s.active_leases
        + number_in done b.peer.node.tasks
        + number_in failed b.peer.node.tasks

module _ (suspected : Str → Bool) where
  split_peers-live :
      (p : Str) (ps : List Str)
      → member p (split_peers suspected ps).0 ≡ (member p ps && not (suspected p))
  unfolding split_peers member
  split_peers-live p [] = refl
  split_peers-live p (q ∷ ps) =
      ground (arith, ==_iff p q, Bool-cases (suspected q), split_peers-live p ps)

  split_peers-lost :
      (p : Str) (ps : List Str)
      → member p (split_peers suspected ps).1 ≡ (member p ps && suspected p)
  unfolding split_peers member
  split_peers-lost p [] = refl
  split_peers-lost p (q ∷ ps) =
      ground (arith, ==_iff p q, Bool-cases (suspected q), split_peers-lost p ps)

  split_peers-length :
      (ps : List Str)
      → let (live, lost) = split_peers suspected ps in length live + length lost ≡ length ps
  unfolding split_peers
  split_peers-length [] = refl
  split_peers-length (q ∷ ps) = ground (arith, Bool-cases (suspected q), split_peers-length ps)

tallied-same :
    (t s : TaskState) (d : Dict Str ℕ) (n : ℕ)
    → lookup (state_value t) d ≡ some n
    → lookup (state_value t) (tallied s d) ≡ some (n + (if is_state t s then 1 else 0))
tallied-same t s d n h = ground (
  arith,
  h,
  lookup-insert (state_value s) (state_value t) (count_of (lookup (state_value s) d) + 1) d,
  ==_iff (state_value s) (state_value t),
)

count_states-lem :
    (ts : Dict Str TaskRecord) (d : Dict Str ℕ) (t : TaskState) (n : ℕ)
    → lookup (state_value t) d ≡ some n
    → lookup (state_value t) (count_states ts d) ≡ some (n + number_in t ts)
unfolding count_states number_in
count_states-lem [] d t n h = h ∙ ap some (omega arith)
count_states-lem ((k, r) ∷ ts) d t n h =
    count_states-lem ts (tallied r.state d) t _ (tallied-same t r.state d n h)
    ∙ ap some (omega arith)

lookup-no_tasks : (t : TaskState) → lookup (state_value t) no_tasks ≡ some 0
unfolding lookup
lookup-no_tasks pending = refl
lookup-no_tasks claimed = refl
lookup-no_tasks running = refl
lookup-no_tasks done = refl
lookup-no_tasks failed = refl

-- The number of tasks in a state adds one where the state is this one.
abbrev one_if : TaskState → TaskState → ℕ
one_if s t = if is_state s t then 1 else 0

one_if-held : (t : TaskState) → (if is_held t then 1 else 0) ≡ one_if claimed t + one_if running t
one_if-held pending = refl
one_if-held claimed = refl
one_if-held running = refl
one_if-held done = refl
one_if-held failed = refl

one_if-all :
    (t : TaskState)
    → one_if pending t + one_if claimed t + one_if running t + one_if done t + one_if failed t ≡ 1
one_if-all pending = refl
one_if-all claimed = refl
one_if-all running = refl
one_if-all done = refl
one_if-all failed = refl

length-list_leases :
    (ts : Dict Str TaskRecord)
    → length (list_leases ts) ≡ number_in claimed ts + number_in running ts
unfolding list_leases number_in
length-list_leases [] = refl
length-list_leases ((k, t) ∷ ts) =
    let rest = list_leases ts in
    if_length (is_held t.state) ∙ omega (arith, one_if-held t.state, length-list_leases ts)
  where
    if_length :
        (b : Bool)
        → length (if b then lease_of t ∷ list_leases ts else list_leases ts)
          ≡ (if b then 1 else 0) + length (list_leases ts)
    if_length true = omega arith
    if_length false = omega arith

length-number_in :
    (ts : Dict Str TaskRecord)
    → length ts
      ≡ number_in pending ts
        + number_in claimed ts
        + number_in running ts
        + number_in done ts
        + number_in failed ts
unfolding number_in
length-number_in [] = refl
length-number_in ((k, t) ∷ ts) = omega (arith, one_if-all t.state, length-number_in ts)

-- For every node and time, the report of `format_cluster_status` splits the known peers into those
-- that the failure detector suspects and the others, counts every task once under its state, and
-- lists as many leases as tasks are claimed or running.
pub format_cluster_status-IsCensus :
    {F : Type 0} (fl : Floats F) (variance_floor : F) (b : StatusNode) (now : ℤ)
    → IsCensus (suspects fl variance_floor b now) b (format_cluster_status fl variance_floor b now)
unfolding format_cluster_status
format_cluster_status-IsCensus fl variance_floor b now =
    let suspected = suspects fl variance_floor b now in
    let tasks = b.peer.node.tasks in
    record {
      live = λ p. split_peers-live suspected p b.peers;
      lost = λ p. split_peers-lost suspected p b.peers;
      sides = split_peers-length suspected b.peers;
      states = λ t. count_states-lem tasks no_tasks t 0 (lookup-no_tasks t) ∙ ap some (omega arith);
      leases = length-list_leases tasks;
      total = omega (arith, length-number_in tasks, length-list_leases tasks);
    }
