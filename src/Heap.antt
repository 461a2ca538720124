-- ===== src/Heap.antt =====
-- The part of Python's heapq that peerq/queue.py and peerq/clock.py use. heapq promises that
-- `heap[0]` is the smallest item and that `heappop` removes it; a list in ascending order is the
-- representation here, and the program looks only at `heap[0]`, `len(heap)`, push and pop.
pub mod Laws
use peer_q.Prelude.{
  Bool, true, false, Option, none, some, List, [], ◌∷◌, if◌then◌else◌, Ordered, less,
}

module _ {ℓ κ} {A : Type ℓ} {K : Type κ} ⦃o : Ordered K⦄ (key : A → K) where
  -- `heappush(heap, x)`
  unfoldable pub heappush : A → List A → List A
  heappush x [] = x ∷ []
  heappush x (y ∷ ys) = if less (key x) (key y) then x ∷ y ∷ ys else y ∷ heappush x ys
