-- ===== src/Exporter/Boxes.antt =====
-- The boxes of the task states on the dashboard of peerq/exporter.py.
use peer_q.Prelude.{ℕ, ◌+◌, ◌≡◌, refl, ap, Str, false, none, [], ◌∷◌, codes, ◌==◌, str_ordered}
use peer_q.Prelude.Int.{ℤ}
use peer_q.Prelude.Dict.{Dict, lookup, lookup-insert}
use peer_q.Consensus.Record.{
  TaskState, pending, claimed, running, done, failed, state_value, TaskRecord,
}
use peer_q.Failure.{Floats}
use peer_q.Exporter.{StatusNode, count_states, tallied, count_of, no_tasks, format_cluster_status}
use peer_q.Exporter.Counts.{number_in, format_cluster_status-IsCensus}
use peer_q.Exporter.Html.{StateBoxes, state_boxes}

-- A name that is the value of no state.
abbrev IsForeign : Str → Type 0
IsForeign name = (t : TaskState) → (state_value t == name) ≡ false

count_states-foreign :
    (name : Str) (ts : Dict Str TaskRecord) (d : Dict Str ℕ)
    → IsForeign name
    → lookup name d ≡ none
    → lookup name (count_states ts d) ≡ none
unfolding count_states
count_states-foreign name [] d foreign h = h
count_states-foreign name ((k, r) ∷ ts) d foreign h =
    count_states-foreign name ts (tallied r.state d) foreign (
      rw
        (
          lookup-insert (state_value r.state) name (count_of (lookup (state_value r.state) d) + 1)
              d,
          foreign r.state,
        )
        h)

submitted-IsForeign : IsForeign (codes "submitted")
submitted-IsForeign pending = refl
submitted-IsForeign claimed = refl
submitted-IsForeign running = refl
submitted-IsForeign done = refl
submitted-IsForeign failed = refl

completed-IsForeign : IsForeign (codes "completed")
completed-IsForeign pending = refl
completed-IsForeign claimed = refl
completed-IsForeign running = refl
completed-IsForeign done = refl
completed-IsForeign failed = refl

timed_out-IsForeign : IsForeign (codes "timed_out")
timed_out-IsForeign pending = refl
timed_out-IsForeign claimed = refl
timed_out-IsForeign running = refl
timed_out-IsForeign done = refl
timed_out-IsForeign failed = refl

-- A box whose name is foreign shows zero.
foreign_box :
    (name : Str) (ts : Dict Str TaskRecord)
    → IsForeign name
    → lookup name no_tasks ≡ none
    → count_of (lookup name (count_states ts no_tasks)) ≡ 0
foreign_box name ts foreign h = ap count_of (count_states-foreign name ts no_tasks foreign h)

-- What the boxes show of a node's tasks.
pub record AreBoxes (ts : Dict Str TaskRecord) (boxes : StateBoxes) : Type 0 where
  pub submitted : boxes.submitted ≡ 0
  pub in_claim : boxes.in_claim ≡ number_in claimed ts
  pub in_run : boxes.in_run ≡ number_in running ts
  pub completed : boxes.completed ≡ 0
  pub in_failure : boxes.in_failure ≡ number_in failed ts
  pub timed_out : boxes.timed_out ≡ 0

-- The dashboard shows the claimed, the running and the failed tasks of any node, and hides the pending
-- and the done ones: its boxes look up the names submitted, completed and timed_out, which no state
-- has, and show zero there.
pub state_boxes-AreBoxes :
    {F : Type 0} (fl : Floats F) (variance_floor : F) (b : StatusNode) (now : ℤ)
    → AreBoxes b.peer.node.tasks (state_boxes (format_cluster_status fl variance_floor b now))
unfolding state_boxes format_cluster_status lookup
state_boxes-AreBoxes fl variance_floor b now =
    let ts = b.peer.node.tasks in
    let census = format_cluster_status-IsCensus fl variance_floor b now in
    record {
      submitted = foreign_box (codes "submitted") ts submitted-IsForeign refl;
      in_claim = ap count_of (census.states claimed);
      in_run = ap count_of (census.states running);
      completed = foreign_box (codes "completed") ts completed-IsForeign refl;
      in_failure = ap count_of (census.states failed);
      timed_out = foreign_box (codes "timed_out") ts timed_out-IsForeign refl;
    }
