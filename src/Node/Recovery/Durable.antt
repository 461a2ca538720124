-- ===== src/Node/Recovery/Durable.antt =====
-- What `_recover_from_wal` of peerq/node.py makes of the records that a node wrote: the table does not
-- shrink, stays within its bound, and has every task of the log.
use peer_q.Prelude.{
  ℕ, ◌≤◌, ◌≡◌, ◌⊎◌, refl, sym, subst, ◌∙◌, Str, Bool, true, Option, none, some, List, [], ◌∷◌,
  arith, map, length, All, if_cases, Bool-cases, inl, inr, ==_self, str_ordered,
}
use peer_q.Prelude.Int.{ℤ, pos}
use peer_q.Prelude.Dict.{
  Dict, lookup, member, has, insert, has-lookup-some, has-insert, length-insert,
}
use peer_q.Errors.{Result, ok, err}
use peer_q.Json.{Codec}
use peer_q.Crypto.{Ed25519}
use peer_q.Consensus.Record.{TaskState, pending, TaskRecord}
use peer_q.Queue.{Queue, put_nowait}
use peer_q.Consensus.Merge.{merge_records}
use peer_q.Consensus.Wire.{clock_fields, to_dict}
use peer_q.Consensus.Wire.RoundTrip.{IsWire}
use peer_q.Consensus.Wire.Sorted.{as_read, from_dict-sort_fields}
use peer_q.Json.Sorted.{sort_fields, sort_fields-clock_fields}
use peer_q.Prelude.Sorted.{sorted_items}
use peer_q.Wal.{WalRecord, record_task, record_clock}
use peer_q.Node.{Node, merge_ring, queued, enqueue_in, enqueue_pending}
use peer_q.Node.Table.{enqueue-tasks}
use peer_q.Node.Recovery.{
  Recovered, recovered, counters, filter_counters, restored, settled, is_trusted, has_room,
  task_restored, recover_record, recover_records, requeue, recover_from_wal,
}

-- A node that has at least the tasks of another, and the same settings.
pub record IsGrown (n m : Node) : Type 0 where
  pub kept : (k : Str) → has k n.tasks ≡ true → has k m.tasks ≡ true
  pub size : length n.tasks ≤ length m.tasks
  pub bounded : length n.tasks ≤ n.max_tasks → length m.tasks ≤ m.max_tasks
  pub limit : m.max_tasks ≡ n.max_tasks
  pub secure : m.security_enabled ≡ n.security_enabled
  pub ring : m.keyring ≡ n.keyring

IsGrown-same :
    (n m : Node)
    → m.tasks ≡ n.tasks
    → m.max_tasks ≡ n.max_tasks
    → m.security_enabled ≡ n.security_enabled
    → m.keyring ≡ n.keyring
    → IsGrown n m
IsGrown-same n m t l s r = record {
  kept = λ k h. subst (λ d. has k d ≡ true) (sym t) h;
  size = ground (arith, t);
  bounded = λ h. ground (arith, t, l);
  limit = l;
  secure = s;
  ring = r;
}

IsGrown-trans : (n m q : Node) → IsGrown n m → IsGrown m q → IsGrown n q
IsGrown-trans n m q a b = record {
  kept = λ k h. b.kept k (a.kept k h);
  size = omega (arith, a.size, b.size);
  bounded = λ h. b.bounded (a.bounded h);
  limit = b.limit ∙ a.limit;
  secure = b.secure ∙ a.secure;
  ring = b.ring ∙ a.ring;
}

module _ (ed : Ed25519) (codec : Codec) where
  insert-IsGrown :
      (k : Str) (t : TaskRecord) (n : Node)
      → has_room ed codec k n ≡ true
      → IsGrown n (record n { tasks = insert k t n.tasks })
  insert-IsGrown k t n room = record {
    kept = λ j h. ground (arith, h, has-insert k j t n.tasks);
    size = ground (arith, length-insert k t n.tasks);
    bounded = λ h. ground (arith, length-insert k t n.tasks, room);
    limit = refl;
    secure = refl;
    ring = refl;
  }

  settled-IsGrown :
      (k : Str) (t : TaskRecord) (n : Node) (o : Option TaskRecord)
      → has_room ed codec k n ≡ true
      → IsGrown n (settled ed codec k t n o)
  settled-IsGrown k t n none room = insert-IsGrown k t n room
  settled-IsGrown k t n (some r) room =
      restored-IsGrown (merge_records ed codec r t (merge_ring ed codec n))
    where
      restored-IsGrown : (m : Result TaskRecord) → IsGrown n (restored ed codec k n m)
      restored-IsGrown (ok m) = insert-IsGrown k m n room
      restored-IsGrown (err e) = IsGrown-same n n refl refl refl refl

  settled-has :
      (k : Str) (t : TaskRecord) (n : Node) (o : Option TaskRecord)
      → lookup k n.tasks ≡ o
      → has k (settled ed codec k t n o).tasks ≡ true
  settled-has k t n none h = ground (arith, has-insert k k t n.tasks, ==_self k)
  settled-has k t n (some r) h = restored-has (merge_records ed codec r t (merge_ring ed codec n))
    where
      restored-has : (m : Result TaskRecord) → has k (restored ed codec k n m).tasks ≡ true
      restored-has (ok m) = ground (arith, has-insert k k m n.tasks, ==_self k)
      restored-has (err e) = has-lookup-some k n.tasks r h

-- What a node writes to its log: a task, or its clock.
pub data Written : Type 0 where
  task_written : TaskRecord → Written
  clock_written : Dict Str ℕ → Written

-- The record that `replay` yields for it, at some offset: the log holds it with sorted keys.
abbrev pub as_record : ℕ × Written → WalRecord
as_record (offset, task_written r) = record {
  offset = offset;
  record_type = record_task;
  payload = sort_fields (to_dict r);
}
as_record (offset, clock_written d) = record {
  offset = offset;
  record_type = record_clock;
  payload = sort_fields (clock_fields d);
}

abbrev pub IsWritten : ℕ × Written → Type 0
IsWritten (offset, task_written r) = IsWire r
IsWritten (offset, clock_written d) = Unit

counters-clock_fields : (d : Dict Str ℕ) → filter_counters (clock_fields d) ≡ counters d
unfolding filter_counters clock_fields
counters-clock_fields [] = refl
counters-clock_fields ((k, n) ∷ d) = rw (counters-clock_fields d) refl

counters-sorted :
    (d : Dict Str ℕ) → filter_counters (sort_fields (clock_fields d)) ≡ counters (sorted_items d)
counters-sorted d = rw (sort_fields-clock_fields d) (counters-clock_fields (sorted_items d))

module _ (ed : Ed25519) (codec : Codec) where
  -- A task that the node trusts is in its table, unless the table is full.
  abbrev pub KeptTask : TaskRecord → Node → Type 0
  KeptTask t q =
      is_trusted ed codec t q ≡ true
      → (has t.task_id q.tasks ≡ true) ⊎ (q.max_tasks ≤ length q.tasks)

  abbrev pub Kept : ℕ × Written → Node → Type 0
  Kept (offset, task_written r) q = KeptTask (as_read r) q
  Kept (offset, clock_written d) q = Unit

  Kept-grown : (w : ℕ × Written) (m q : Node) → IsGrown m q → Kept w m → Kept w q
  Kept-grown (offset, task_written r) m q g k = λ trust.
      elim (k (ground (arith, trust, g.secure, g.ring))) [
        | inl there ↦ inl (g.kept r.task_id there)
        | inr full ↦ inr (omega (arith, full, g.size, g.limit))
      ]
  Kept-grown (offset, clock_written d) m q g k = tt

  all_grown :
      (ws : List (ℕ × Written)) (m q : Node)
      → IsGrown m q
      → All (λ w. Kept w m) ws
      → All (λ w. Kept w q) ws
  all_grown [] m q g h = tt
  all_grown (w ∷ ws) m q g (h, hs) = (Kept-grown w m q g h, all_grown ws m q g hs)

  -- How the recovery of one record, or of several, goes on.
  pub record Goes (Done : Node → Type 0) (n : Node) (result : Recovered) : Type 0 where
    pub node : Node
    pub returned : result ≡ recovered node
    pub grown : IsGrown n node
    pub done : Done node

  task_restored-Goes :
      (r : TaskRecord) (n : Node) → Goes (KeptTask r) n (task_restored ed codec n (ok r))
  task_restored-Goes r n = elim (Bool-cases (is_trusted ed codec r n)) [
    | inl trust ↦ elim (Bool-cases (has_room ed codec r.task_id n)) [
      | inl room ↦ record {
        node = settled ed codec r.task_id r n (lookup r.task_id n.tasks);
        returned = rw (trust, room) refl;
        grown = settled-IsGrown ed codec r.task_id r n (lookup r.task_id n.tasks) room;
        done = λ _. inl (settled-has ed codec r.task_id r n (lookup r.task_id n.tasks) refl);
      }
      | inr none_left ↦ record {
        node = n;
        returned = rw (trust, none_left) refl;
        grown = IsGrown-same n n refl refl refl refl;
        done = λ _. inr (ground (arith, none_left));
      }
    ]
    | inr doubt ↦ record {
      node = n;
      returned = rw doubt refl;
      grown = IsGrown-same n n refl refl refl refl;
      done = λ trust. ground (arith, trust, doubt);
    }
  ]

  recover_record-Goes :
      (w : ℕ × Written) (n : Node)
      → IsWritten w
      → Goes (Kept w) n (recover_record ed codec (as_record w) n)
  unfolding recover_record
  recover_record-Goes (offset, task_written r) n wire =
      rw (from_dict-sort_fields r wire) (task_restored-Goes (as_read r) n)
  recover_record-Goes (offset, clock_written d) n wire = rw (counters-sorted d) (record {
    node = _;
    returned = refl;
    grown = IsGrown-same n _ refl refl refl refl;
    done = tt;
  })

  recover_records-Goes :
      (ws : List (ℕ × Written)) (n : Node)
      → All IsWritten ws
      → Goes (λ q. All (λ w. Kept w q) ws) n (recover_records ed codec (map as_record ws) n)
  unfolding recover_records
  recover_records-Goes [] n h = record {
    node = n;
    returned = refl;
    grown = IsGrown-same n n refl refl refl refl;
    done = tt;
  }
  recover_records-Goes (w ∷ ws) n (h, hs) =
      let first = recover_record-Goes w n h in
      let rest = recover_records-Goes ws first.node hs in
      record {
        node = rest.node;
        returned = rw first.returned rest.returned;
        grown = IsGrown-trans n first.node rest.node first.grown rest.grown;
        done = (Kept-grown w first.node rest.node rest.grown first.done, rest.done);
      }

  queued-ring :
      (k : Str) (n : Node) (o : Result (Queue Str)) → (queued ed codec k n o).keyring ≡ n.keyring
  queued-ring k n (ok q) = refl
  queued-ring k n (err e) = refl

  enqueue_in-ring :
      (s : TaskState) (locked : Bool) (k : Str) (p : ℤ) (n : Node)
      → (enqueue_in ed codec s locked k p n).keyring ≡ n.keyring
  enqueue_in-ring pending locked k p n =
      if_cases {A = Node} (λ m. m.keyring ≡ n.keyring) (member k n.queued_task_ids) (λ _. refl)
        (λ _. queued-ring k n (put_nowait locked k p n.queue))
  enqueue_in-ring _ locked k p n = refl

  enqueue-ring :
      (locked : Bool) (k : Str) (p : ℤ) (t : TaskRecord) (n : Node)
      → (enqueue_pending ed codec locked k p t n).keyring ≡ n.keyring
  unfolding enqueue_pending
  enqueue-ring locked k p t n = enqueue_in-ring t.state locked k p n

  requeue-IsGrown :
      (locked : Bool) (ts : Dict Str TaskRecord) (n : Node)
      → IsGrown n (requeue ed codec locked ts n)
  unfolding requeue
  requeue-IsGrown locked [] n = IsGrown-same n n refl refl refl refl
  requeue-IsGrown locked ((k, t) ∷ ts) n =
      let m = enqueue_pending ed codec locked k (pos 0) t n in
      let (tasks, limit, secure) = enqueue-tasks ed codec locked k (pos 0) t n in
      IsGrown-trans n m _ (IsGrown-same n m tasks limit secure (enqueue-ring locked k (pos 0) t n))
        (requeue-IsGrown locked ts m)

  -- A log of tasks and clocks that a node wrote recovers without an exception, whatever the node has
  -- before: it keeps its tasks, its settings and the bound of its table, and has every task of the
  -- log that is authorized as it is read under its ring, or any task without security, unless the table
  -- is full.
  pub recover_from_wal-Goes :
      (locked : Bool) (ws : List (ℕ × Written)) (n : Node)
      → All IsWritten ws
      → Goes
          (λ q. All (λ w. Kept w q) ws)
          n
          (recover_from_wal ed codec locked (record { records = map as_record ws; error = none }) n)
  unfolding recover_from_wal
  recover_from_wal-Goes locked ws n h =
      let first = recover_records-Goes ws n h in
      let m = first.node in
      let q = requeue ed codec locked m.tasks m in
      let grown = requeue-IsGrown locked m.tasks m in
      record {
        node = q;
        returned = rw first.returned refl;
        grown = IsGrown-trans n m q first.grown grown;
        done = all_grown ws m q grown first.done;
      }
