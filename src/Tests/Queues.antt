-- ===== src/Tests/Queues.antt =====
-- The task queue and the simulated clock: a bounded queue of two items, and a clock with a
-- cancelled and a pending sleeper.
use peer_q.Prelude.{
  ℕ, ◌≡◌, refl, true, false, List, [], ◌∷◌, arith, if◌then◌else◌, inr, nat_ordered, pair_ordered,
}
use peer_q.Prelude.Int.{pos, negsuc, int_ordered}
use peer_q.Errors.{ok, err, queue_full}
use peer_q.Queue.{
  reject_on_full, block_on_full, Queue, new_queue, full, put_nowait, get_nowait, Event,
  call_put_nowait, call_put, call_get, run_woken, run_notify, run, consumer,
}
use peer_q.Queue.Invariant.{IsQueue, run-IsQueue}
use peer_q.Queue.Spec.{view, enqueue, stored, put_nowait-view}
use peer_q.Queue.Wakeups.{IsLive, run-IsLive, crossed, IsStuck, crossed-IsStuck}
use peer_q.Queue.Best.{IsBest, get_nowait-IsBest}

-- 8 of priority 5 came before 9 of priority 0; a consumer waits, with a notification due.
abbrev two_items : Queue ℕ
two_items = record {
  maxsize = pos 3;
  policy = reject_on_full;
  heap =
      record { priority_neg = negsuc 4; seq = 0; item = 8 }
      ∷ record { priority_neg = pos 0; seq = 1; item = 9 }
      ∷ [];
  seq = 2;
  waiting = consumer ∷ [];
  woken = [];
  notifies = 1;
}

two_items-IsQueue : IsQueue two_items
two_items-IsQueue = record {
  ordered = ((refl, tt), (tt, tt));
  used = ground arith;
  bounded = inr (ground arith);
}

two_items-IsLive : IsLive two_items
two_items-IsLive = record {
  policy = refl;
  waiting = (tt, tt);
  woken = tt;
  live = inr (inr (omega arith));
}

abbrev calls : List (Event ℕ)
calls =
    call_put 7 (pos 5) ∷ call_put_nowait false 6 (pos 1) ∷ run_notify ∷ run_woken ∷ call_get ∷ []

run-IsQueue_example : IsQueue (run calls two_items)
run-IsQueue_example = run-IsQueue calls two_items two_items-IsQueue

run-IsLive_example : IsLive (run calls two_items)
run-IsLive_example = run-IsLive calls two_items two_items-IsLive

put_nowait-view_example :
    stored (put_nowait false 7 (pos 5) two_items)
    ≡ (if full two_items then err queue_full else ok (enqueue 7 (pos 5) (view two_items)))
put_nowait-view_example = put_nowait-view false 7 (pos 5) two_items two_items-IsQueue

get_nowait-IsBest_example : IsBest two_items (get_nowait true two_items)
get_nowait-IsBest_example = get_nowait-IsBest true two_items two_items-IsQueue

crossed-IsStuck_example :
    IsStuck {A = ℕ} (run (crossed 1 2 3 (pos 0)) (new_queue (pos 1) block_on_full))
crossed-IsStuck_example = crossed-IsStuck 1 2 3 (pos 0)
