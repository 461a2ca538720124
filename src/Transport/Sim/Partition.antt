-- ===== src/Transport/Sim/Partition.antt =====
-- Partitions of `SimNetwork` of peerq/transport.py: which links they block, and that no message
-- arrives over a blocked link.
use peer_q.Prelude.{
  ◌≡◌, Str, Bool, true, false, not, ◌&&◌, ◌||◌, List, [], ◌∷◌, arith, select, ◌==◌, ==_iff,
  str_ordered, pair_ordered,
}
use peer_q.Prelude.Dict.{member}
use peer_q.Transport.Sim.{
  SimNetwork, add, discard, block, block_all, partition, unblock, unblock_all, heal_partition,
  is_blocked,
}

-- Whether a partition of the two groups is between the ends of a link.
abbrev pub separates : List Str → List Str → Bool → Str × Str → Bool
separates group_a group_b symmetric link =
    (member link.0 group_a && member link.1 group_b)
    || (symmetric && (member link.0 group_b && member link.1 group_a))

member-add :
    (l k : Str × Str) (links : List (Str × Str))
    → member l (add k links) ≡ (l == k || member l links)
unfolding member
member-add l k links = ground (arith, ==_iff l k)

member-discard :
    (l k : Str × Str) (links : List (Str × Str))
    → member l (discard k links) ≡ (not (l == k) && member l links)
unfolding member select
member-discard l k [] = ground arith
member-discard l k (j ∷ links) =
    ground (arith, ==_iff l k, ==_iff l j, ==_iff j k, member-discard l k links)

pair_equal : (l k : Str × Str) → (l == k) ≡ (l.0 == k.0 && l.1 == k.1)
pair_equal l k = ground arith

-- The links between one node of the first group and the second group.
abbrev between : Str → List Str → Bool → Str → Str → Bool
between a bs symmetric x y = (x == a && member y bs) || (symmetric && (y == a && member x bs))

member-block :
    (symmetric : Bool) (a : Str) (bs : List Str) (x y : Str) (links : List (Str × Str))
    → member (x, y) (block symmetric a bs links)
      ≡ (between a bs symmetric x y || member (x, y) links)
unfolding block member
member-block symmetric a [] x y links = ground arith
member-block true a (b ∷ bs) x y links = ground (
  arith,
  member-block true a bs x y (add (b, a) (add (a, b) links)),
  member-add (x, y) (b, a) (add (a, b) links),
  member-add (x, y) (a, b) links,
  pair_equal (x, y) (a, b),
  pair_equal (x, y) (b, a),
)
member-block false a (b ∷ bs) x y links = ground (
  arith,
  member-block false a bs x y (add (a, b) links),
  member-add (x, y) (a, b) links,
  pair_equal (x, y) (a, b),
)

member-block_all :
    (symmetric : Bool) (as_ bs : List Str) (x y : Str) (links : List (Str × Str))
    → member (x, y) (block_all symmetric as_ bs links)
      ≡ (separates as_ bs symmetric (x, y) || member (x, y) links)
unfolding block_all member
member-block_all symmetric [] bs x y links = ground arith
member-block_all symmetric (a ∷ as_) bs x y links = ground (
  arith,
  member-block_all symmetric as_ bs x y (block symmetric a bs links),
  member-block symmetric a bs x y links,
)

member-unblock :
    (symmetric : Bool) (a : Str) (bs : List Str) (x y : Str) (links : List (Str × Str))
    → member (x, y) (unblock symmetric a bs links)
      ≡ (not (between a bs symmetric x y) && member (x, y) links)
unfolding unblock member
member-unblock symmetric a [] x y links = ground arith
member-unblock true a (b ∷ bs) x y links = ground (
  arith,
  member-unblock true a bs x y (discard (b, a) (discard (a, b) links)),
  member-discard (x, y) (b, a) (discard (a, b) links),
  member-discard (x, y) (a, b) links,
  pair_equal (x, y) (a, b),
  pair_equal (x, y) (b, a),
)
member-unblock false a (b ∷ bs) x y links = ground (
  arith,
  member-unblock false a bs x y (discard (a, b) links),
  member-discard (x, y) (a, b) links,
  pair_equal (x, y) (a, b),
)

member-unblock_all :
    (symmetric : Bool) (as_ bs : List Str) (x y : Str) (links : List (Str × Str))
    → member (x, y) (unblock_all symmetric as_ bs links)
      ≡ (not (separates as_ bs symmetric (x, y)) && member (x, y) links)
unfolding unblock_all member
member-unblock_all symmetric [] bs x y links = ground arith
member-unblock_all symmetric (a ∷ as_) bs x y links = ground (
  arith,
  member-unblock_all symmetric as_ bs x y (unblock symmetric a bs links),
  member-unblock symmetric a bs x y links,
)

-- A partition blocks the links between its groups beside those that were blocked, and to heal it
-- frees all of those, also such as were blocked before; for every link and every two groups.
pub is_blocked-partition :
    (group_a group_b : List Str) (symmetric : Bool) (source target : Str) (n : SimNetwork)
    → (is_blocked source target (partition group_a group_b symmetric n)
        ≡ (separates group_a group_b symmetric (source, target) || is_blocked source target n))
      × (is_blocked source target
            (heal_partition group_a group_b symmetric (partition group_a group_b symmetric n))
          ≡ (not (separates group_a group_b symmetric (source, target))
              && is_blocked source target n))
unfolding is_blocked partition heal_partition
is_blocked-partition group_a group_b symmetric source target n = ground (
  arith,
  member-block_all symmetric group_a group_b source target n.blocked_links,
  member-unblock_all symmetric group_a group_b source target
      (block_all symmetric group_a group_b n.blocked_links),
)
