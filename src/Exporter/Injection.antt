-- ===== src/Exporter/Injection.antt =====
-- The page that `get_dashboard_html` of peerq/exporter.py makes of the report on a node.
use peer_q.Prelude.{
  ℕ, ◌≡◌, sym, ◌∙◌, length-map, Str, Bool, true, List, [], ◌∷◌, arith, map, length, All, Bool-cases,
  ==_iff, ==_self, str_ordered,
}
use peer_q.Prelude.Int.{ℤ}
use peer_q.Prelude.Dict.{member}
use peer_q.Failure.{Floats}
use peer_q.Metrics.{MetricsCollector, CeilProduct}
use peer_q.Exporter.{StatusNode, ClusterStatus, format_cluster_status}
use peer_q.Exporter.Counts.{IsCensus, format_cluster_status-IsCensus}
use peer_q.Exporter.Html.{Page, escape, get_dashboard}
use peer_q.Exporter.Markup.{
  IsPlain, SameMarkup, IsListed, escape-IsPlain, peers-SameMarkup, credits-SameMarkup,
  leases-SameMarkup, vclock-SameMarkup,
}

member-map :
    (f : Str → Str) (p : Str) (ps : List Str) → member p ps ≡ true → member (f p) (map f ps) ≡ true
unfolding member
member-map f p [] h = h
member-map f p (q ∷ ps) h =
    ground (arith, ==_iff p q, ==_iff (f p) (f q), ==_self (f p), member-map f p ps)

-- What holds of the members holds of their escaped names.
All-escape :
    (P : Str → Type 0) (ps : List Str)
    → ((p : Str) → member p ps ≡ true → P (escape p))
    → All P (map escape ps)
unfolding member
All-escape P [] h = tt
All-escape P (p ∷ ps) h =
    (h p (ground (arith, ==_self p)), All-escape P ps (λ q k. h q (ground arith)))

side :
    (suspected : Str → Bool) (b : StatusNode) (s : ClusterStatus) (p : Str)
    → IsCensus suspected b s
    → member p b.peers ≡ true
    → IsListed (map escape s.live_peers) (map escape s.suspected_peers) (escape p)
side suspected b s p census h = (
  ground (
    arith,
    h,
    Bool-cases (suspected p),
    census.live p,
    census.lost p,
    member-map escape p s.live_peers,
    member-map escape p s.suspected_peers,
  ),
  escape-IsPlain p,
)

-- Two pages with the same markup in the same places.
pub record IsSamePage (p q : Page) : Type 0 where
  pub node_tag : IsPlain p.node_tag
  pub peers : SameMarkup p.peers q.peers
  pub credits : SameMarkup p.credits q.credits
  pub leases : SameMarkup p.leases q.leases
  pub clock : SameMarkup p.clock q.clock

-- Two reports with as many entries of each kind.
pub record IsSameSize (s t : ClusterStatus) : Type 0 where
  pub peers : length s.known_peers ≡ length t.known_peers
  pub credits : length s.peer_credits ≡ length t.peer_credits
  pub leases : length s.active_leases ≡ length t.active_leases
  pub clock : length s.vector_clock ≡ length t.vector_clock

module _ {F : Type 0} (fl : Floats F) (variance_floor : F) where
  peers-IsListed :
      (b : StatusNode) (now : ℤ)
      → let s = format_cluster_status fl variance_floor b now in
        All
          (IsListed (map escape s.live_peers) (map escape s.suspected_peers))
          (map escape s.known_peers)
  unfolding format_cluster_status
  peers-IsListed b now =
      All-escape _ b.peers
        (λ p h. side _ b _ p (format_cluster_status-IsCensus fl variance_floor b now) h)

  -- No text of a node, a peer or a task adds markup to the dashboard: where floats are formatted
  -- without markup, the pages of two nodes whose reports have as many peers, credits, leases and
  -- clock entries have the same characters < > " ' in the same order, whatever their names, ids and
  -- holders are, and the name of the node has none.
  pub get_dashboard-IsSamePage :
      (ceil_product : CeilProduct) (fixed2 : ℤ → Str) (in_ms : ℕ → Str) (m n : MetricsCollector)
      (b c : StatusNode) (now later : ℤ)
      → ((z : ℤ) → IsPlain (fixed2 z))
      → IsSameSize
          (format_cluster_status fl variance_floor b now)
          (format_cluster_status fl variance_floor c later)
      → IsSamePage
          (get_dashboard ceil_product fixed2 in_ms m
            (format_cluster_status fl variance_floor b now)
            now)
          (get_dashboard ceil_product fixed2 in_ms n
            (format_cluster_status fl variance_floor c later)
            later)
  unfolding get_dashboard
  get_dashboard-IsSamePage ceil_product fixed2 in_ms m n b c now later plain size =
      let s = format_cluster_status fl variance_floor b now in
      let t = format_cluster_status fl variance_floor c later in
      record {
        node_tag = escape-IsPlain s.node_id;
        peers =
            peers-SameMarkup _ _ _ _ _ _ (peers-IsListed b now) (peers-IsListed c later) (
              length-map escape s.known_peers ∙ size.peers ∙ sym (length-map escape t.known_peers));
        credits = credits-SameMarkup s.peer_credits t.peer_credits size.credits;
        leases =
            leases-SameMarkup fixed2 now later s.active_leases t.active_leases plain size.leases;
        clock = vclock-SameMarkup s.vector_clock t.vector_clock size.clock;
      }
