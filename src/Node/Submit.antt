-- ===== src/Node/Submit.antt =====
-- The whole of `submit_task` of peerq/node.py, with its call of the queue, on a node without a log.
use peer_q.Prelude.{
  ◌≡◌, refl, ◌⊎◌, ◌∙◌, subst, sym, Str, Bytes, true, not, ◌&&◌, ◌||◌, some, arith, leb, ltb, length,
  ==_self, str_ordered, inl, inr, [],
}
use peer_q.Prelude.Int.{ℤ}
use peer_q.Prelude.Dict.{lookup, has, insert, lookup-insert}
use peer_q.Errors.{Error, Result, ok, err, queue_full, value_error, check-inverse, ok-injective}
use peer_q.Json.{Codec}
use peer_q.Security.{max_task_id_length, max_task_payload}
use peer_q.Crypto.{Ed25519, is_empty}
use peer_q.Consensus.Record.{TaskRecord, pending}
use peer_q.Queue.{Queue, reject_on_full, Outcome, returned, raised, waits, put, full}
use peer_q.Node.{Node, seal_record, new_record, ticked, submit_record, added}
use peer_q.Node.Fence.{seal_record-same}

-- How a submission ends: with an exception, in the queue, or asleep until the queue has room.
pub data Submission : Type 0 where
  refused : Error → Node → Submission
  accepted asleep : Node → Submission

put-full :
    (item : Str) (priority : ℤ) (q : Queue Str)
    → full q ≡ true
    → q.policy ≡ reject_on_full
    → put item priority q ≡ raised q
unfolding put
put-full item priority q f r = ground (arith, f, r)

module _ (ed : Ed25519) (codec : Codec) where
  -- `self._queue.put(task_id, priority=priority)` and the id behind it.
  abbrev pub after_put : Str → Node → Outcome Str → Submission
  after_put task_id n (returned q _) = accepted (added ed codec task_id (record n { queue = q }))
  after_put task_id n (raised q) = refused queue_full (record n { queue = q })
  after_put task_id n (waits q) = asleep (record n { queue = q })

  abbrev pub recorded : Str → ℤ → Node → Result Node → Submission
  recorded task_id priority n (err e) = refused e n
  recorded task_id priority n (ok m) = after_put task_id m (put task_id priority m.queue)

  unfoldable pub submit_task : Str → Bytes → ℤ → Node → Submission
  submit_task task_id payload priority n =
      recorded task_id priority n (submit_record ed codec task_id payload n)

  abbrev pub node_of : Submission → Node
  node_of (refused e n) = n
  node_of (accepted n) = n
  node_of (asleep n) = n

  -- The table has the task as a fresh one: pending, and with the fence token of no claim.
  pub record IsFresh (task_id : Str) (n : Node) : Type 0 where
    pub stored : TaskRecord
    pub found : lookup task_id n.tasks ≡ some stored
    pub state : stored.state ≡ pending
    pub fence_token : stored.fence_token ≡ record { epoch = 0; peer_id = [] }

  submit_record-IsFresh :
      (task_id : Str) (payload : Bytes) (n m : Node)
      → submit_record ed codec task_id payload n ≡ ok m
      → IsFresh task_id m × (m.queue ≡ n.queue)
  unfolding submit_record
  submit_record-IsFresh task_id payload n m h =
      let c : Node = ticked ed codec n in
      let r : TaskRecord = new_record ed codec task_id payload c in
      let sealed : TaskRecord = seal_record ed codec n r in
      let (_, h1) =
        check-inverse (not (is_empty task_id) && leb (length task_id) max_task_id_length)
          value_error _ h in
      let (_, h2) = check-inverse (leb (length payload) max_task_payload) value_error _ h1 in
      let (_, h3) =
        check-inverse (has task_id n.tasks || ltb (length n.tasks) n.max_tasks) queue_full _ h2 in
      let built : Node = record c { tasks = insert task_id sealed n.tasks } in
      let same : built ≡ m = ok-injective h3 in
      let (state, fence, _) = seal_record-same ed codec n r in
      subst (λ x. IsFresh task_id x × (x.queue ≡ n.queue)) same
        (
          record {
            stored = sealed;
            found = lookup-insert task_id task_id sealed n.tasks ∙ rw (==_self task_id) refl;
            state = state;
            fence_token = fence;
          },
          refl,
        )

  after_put-IsFresh :
      (task_id : Str) (n : Node) (o : Outcome Str)
      → IsFresh task_id n
      → IsFresh task_id (node_of (after_put task_id n o))
  after_put-IsFresh task_id n (returned q v) f = record {
    stored = f.stored;
    found = f.found;
    state = f.state;
    fence_token = f.fence_token;
  }
  after_put-IsFresh task_id n (raised q) f = record {
    stored = f.stored;
    found = f.found;
    state = f.state;
    fence_token = f.fence_token;
  }
  after_put-IsFresh task_id n (waits q) f = record {
    stored = f.stored;
    found = f.found;
    state = f.state;
    fence_token = f.fence_token;
  }

  recorded-IsFresh :
      (task_id : Str) (payload : Bytes) (priority : ℤ) (n : Node) (r : Result Node)
      → submit_record ed codec task_id payload n ≡ r
      → IsFresh task_id (node_of (recorded task_id priority n r))
        ⊎ ((e : Error) × (recorded task_id priority n r ≡ refused e n))
  recorded-IsFresh task_id payload priority n (err e) h = inr (e, refl)
  recorded-IsFresh task_id payload priority n (ok m) h = inl (
      after_put-IsFresh task_id m (put task_id priority m.queue)
        (submit_record-IsFresh task_id payload n m h).0)

  -- A submission either raises and leaves the node as it was, or leaves the table with the task as a
  -- fresh one, whatever the table had under its id.
  pub submit_task-IsFresh :
      (task_id : Str) (payload : Bytes) (priority : ℤ) (n : Node)
      → IsFresh task_id (node_of (submit_task task_id payload priority n))
        ⊎ ((e : Error) × (submit_task task_id payload priority n ≡ refused e n))
  unfolding submit_task
  submit_task-IsFresh task_id payload priority n =
      recorded-IsFresh task_id payload priority n (submit_record ed codec task_id payload n) refl

  -- Where the record is made and the queue is full and rejects, the submission raises, and the
  -- table has the task all the same.
  pub submit_task_refused :
      (task_id : Str) (payload : Bytes) (priority : ℤ) (n m : Node)
      → submit_record ed codec task_id payload n ≡ ok m
      → full n.queue ≡ true
      → n.queue.policy ≡ reject_on_full
      → (k : Node) × (submit_task task_id payload priority n ≡ refused queue_full k)
        × IsFresh task_id k
  unfolding submit_task
  submit_task_refused task_id payload priority n m h f r =
      let (fresh, same) = submit_record-IsFresh task_id payload n m h in
      let rejected : put task_id priority m.queue ≡ raised m.queue =
        subst (λ q. put task_id priority q ≡ raised q) (sym same)
          (put-full task_id priority n.queue f r) in
      (m, rw h (rw rejected refl), fresh)
