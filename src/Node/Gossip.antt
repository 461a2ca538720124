-- ===== src/Node/Gossip.antt =====
-- The payload of `_gossip_loop` of peerq/node.py; the partner is the generator's choice.
use peer_q.Prelude.{
  ℕ, ◌≤◌, ◌≡◌, refl, subst, sym, Str, Bool, true, false, Option, none, some, List, [], ◌∷◌, arith,
  if◌then◌else◌, if_split, inl, inr, take, codes, ◌==◌, str_ordered,
}
use peer_q.Prelude.Dict.{Dict, has}
use peer_q.Prelude.Sorted.{
  sorted_items, count_less, sorted_items-IsSorted, count_less-sorted_items, has-take,
}
use peer_q.Json.{null, obj, Fields, end, field, fetch}
use peer_q.Consensus.Record.{TaskRecord}
use peer_q.Wal.{tasks_fields}
use peer_q.Node.{Node}

-- `sorted(self._tasks.items())[:self.security.max_gossip_tasks]`
unfoldable pub gossip_tasks : ℕ → Node → Dict Str TaskRecord
gossip_tasks max_gossip_tasks n = take max_gossip_tasks (sorted_items n.tasks)

abbrev pub is_nil {ℓ} : {A : Type ℓ} → List A → Bool
is_nil [] = true
is_nil (x ∷ xs) = false

-- The payload of a round; there is none without peers or tasks.
unfoldable pub gossip_payload : ℕ → List Str → Node → Option Fields
gossip_payload max_gossip_tasks peers n =
    if is_nil peers
    then none
    else if is_nil n.tasks
    then none
    else some (field (codes "tasks") (obj (tasks_fields (gossip_tasks max_gossip_tasks n))) end)

fetch-tasks_fields :
    (k : Str) (d : Dict Str TaskRecord) → has k d ≡ false → fetch k (tasks_fields d) ≡ null
unfolding fetch tasks_fields has
fetch-tasks_fields k [] h = refl
fetch-tasks_fields k ((j, r) ∷ d) h = elim (if_split (λ b. b ≡ false) (j == k) h) [
  | inl (_, impossible) ↦ ground (arith, impossible)
  | inr (other, rest) ↦ rw other (fetch-tasks_fields k d rest)
]

-- A task whose id has as many ids of the table below it as a gossip message may hold is in no
-- message of the periodic gossip, however often it runs.
pub gossip_tasks_starved :
    (max_gossip_tasks : ℕ) (k : Str) (n : Node)
    → max_gossip_tasks ≤ count_less k n.tasks
    → fetch k (tasks_fields (gossip_tasks max_gossip_tasks n)) ≡ null
unfolding gossip_tasks
gossip_tasks_starved max_gossip_tasks k n h =
    fetch-tasks_fields k (take max_gossip_tasks (sorted_items n.tasks)) (
      has-take max_gossip_tasks k (sorted_items n.tasks) (sorted_items-IsSorted n.tasks)
        (subst (λ c. max_gossip_tasks ≤ c) (sym (count_less-sorted_items k n.tasks)) h))
