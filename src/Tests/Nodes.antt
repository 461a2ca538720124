-- ===== src/Tests/Nodes.antt =====
-- A node without signatures, with one finished task and room for two, hears of that task again.
use peer_q.Prelude.{
  ◌≡◌, refl, true, false, [], ◌∷◌, codes, str_ordered, ℕ, Str, some, inl, ◌≤◌, arith,
}
use peer_q.Prelude.Int.{pos}
use peer_q.Prelude.Dict.{lookup, has, insert}
use peer_q.Json.{obj, Fields, field, end, fetch, null}
use peer_q.Errors.{ok, queue_full}
use peer_q.Consensus.Wire.{to_dict}
use peer_q.Consensus.Record.{task_record, pending, is_terminal, TaskRecord, next_for}
use peer_q.Queue.{new_queue, reject_on_full, full, qsize}
use peer_q.Consensus.Clock.{increment}
use peer_q.Node.{Node, seal_record, receive_gossip, submit_record}
use peer_q.Node.Table.{IsFinished, receive_gossip-IsFinished}
use peer_q.Consensus.Lattice.Laws.{◌≼◌}
use peer_q.Node.Worker.{take_task, is_active_claim, claim, commit, crashed}
use peer_q.Node.Loop.{idle, claiming, at, submits, takes, here, onward}
use peer_q.Node.Growth.{IsGrown}
use peer_q.Node.Reach.{Reach-IsGrown}
use peer_q.Node.Fence.{commit-rises}
use peer_q.Tests.Samples.{
  sum_ed, small_codec, alice, key_of_alice, both_keys, submitted, claimed_by_bob, finished,
}
use peer_q.Node.Submit.{IsFresh, submit_task, refused, submit_task_refused}
use peer_q.Prelude.Sorted.{count_less}
use peer_q.Wal.{tasks_fields}
use peer_q.Node.Gossip.{gossip_tasks, gossip_tasks_starved}

abbrev idle_node : Node
idle_node = record {
  node_id = alice;
  identity = key_of_alice;
  keyring = both_keys;
  security_enabled = false;
  max_tasks = 2;
  tasks = (codes "t", finished) ∷ [];
  queue = new_queue (pos 5) reject_on_full;
  queued_task_ids = [];
  vector_clock = record { clock = (alice, 2) ∷ [] };
}

abbrev news : Fields
news =
    field (codes "t") (obj (to_dict claimed_by_bob))
      (field (codes "t") (obj (to_dict submitted)) end)

abbrev after_submit : Node
after_submit = record idle_node {
  tasks =
      (codes "t", finished)
      ∷ (
        codes "u",
        record (task_record (codes "u") pending (1 ∷ [])) {
          vector_clock = record { clock = (alice, 3) ∷ [] };
          updated_by = alice;
        },
      )
      ∷ [];
  vector_clock = record { clock = (alice, 3) ∷ [] };
}

submitted_u : submit_record sum_ed small_codec (codes "u") (1 ∷ []) idle_node ≡ ok after_submit
unfolding submit_record has insert increment seal_record lookup
submitted_u = refl

idle_node-IsFinished : IsFinished sum_ed small_codec (codes "t") idle_node
unfolding lookup is_terminal
idle_node-IsFinished = (refl, finished, refl, refl)

receive_gossip-IsFinished_example :
    IsFinished sum_ed small_codec
      (codes "t")
      (receive_gossip sum_ed small_codec true alice news idle_node).node
receive_gossip-IsFinished_example =
    receive_gossip-IsFinished sum_ed small_codec (codes "t") true alice news idle_node
      idle_node-IsFinished

abbrev no_score : Str → Str → ℕ
no_score _ _ = 0

abbrev new_u : TaskRecord
new_u = record (task_record (codes "u") pending (1 ∷ [])) {
  vector_clock = record { clock = (alice, 3) ∷ [] };
  updated_by = alice;
}

takes_u : take_task after_submit (codes "u") (pos 0) (λ _. false) ≡ some new_u
unfolding take_task lookup is_terminal is_active_claim
takes_u = refl

Reach-IsGrown_example :
    IsGrown idle_node (claim sum_ed small_codec (codes "u") new_u (pos 5) after_submit)
    × (has (codes "u") (claim sum_ed small_codec (codes "u") new_u (pos 5) after_submit).tasks
        ≡ true)
Reach-IsGrown_example =
    Reach-IsGrown sum_ed small_codec no_score idle_node
      (at (claim sum_ed small_codec (codes "u") new_u (pos 5) after_submit)
        (claiming (codes "u") new_u (next_for new_u.fence_token alice) (pos 5)))
      (onward (onward here (submits (codes "u") (1 ∷ []) idle_node after_submit idle submitted_u))
        (takes (codes "u") (pos 0) (pos 5) (λ _. false) after_submit new_u takes_u))

finds_u : lookup (codes "u") after_submit.tasks ≡ some new_u
unfolding lookup
finds_u = refl

live_u : is_terminal new_u.state ≡ false
unfolding is_terminal
live_u = refl

commit-rises_example :
    (s : TaskRecord) × (lookup
        (codes "u")
        (commit sum_ed small_codec
          (codes "u")
          new_u
          (next_for new_u.fence_token alice)
          (pos 5)
          (pos 4)
          (crashed [])
          after_submit).tasks
      ≡ some s)
    × ((new_u ≼ s) ≡ true)
commit-rises_example =
    commit-rises sum_ed small_codec (codes "u") new_u new_u (next_for new_u.fence_token alice)
      (pos 5) (pos 4) (crashed []) after_submit finds_u (inl live_u)

abbrev full_node : Node
full_node = record idle_node {
  queue = record (new_queue (pos 1) reject_on_full) {
    heap = record { priority_neg = pos 0; seq = 0; item = codes "z" } ∷ [];
  };
}

abbrev after_full : Node
after_full = record after_submit { queue = full_node.queue }

full_recorded : submit_record sum_ed small_codec (codes "u") (1 ∷ []) full_node ≡ ok after_full
unfolding submit_record has insert increment seal_record lookup
full_recorded = refl

queue_is_full : full full_node.queue ≡ true
unfolding full qsize
queue_is_full = refl

submit_task_refused_example :
    (k : Node) × (submit_task sum_ed small_codec (codes "u") (1 ∷ []) (pos 0) full_node
      ≡ refused queue_full k)
    × IsFresh sum_ed small_codec (codes "u") k
submit_task_refused_example =
    submit_task_refused sum_ed small_codec (codes "u") (1 ∷ []) (pos 0) full_node after_full
      full_recorded queue_is_full refl

one_below : 1 ≤ count_less (codes "u") after_submit.tasks
unfolding count_less
one_below = omega arith

gossip_tasks_starved_example : fetch (codes "u") (tasks_fields (gossip_tasks 1 after_submit)) ≡ null
gossip_tasks_starved_example = gossip_tasks_starved 1 (codes "u") after_submit one_below
