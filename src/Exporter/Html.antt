-- ===== src/Exporter/Html.antt =====
-- The parts of the page of `get_dashboard_html` of peerq/exporter.py that depend on the node. The
-- fixed text around them is a template; the formatting of floats is a parameter.
use peer_q.Prelude.{
  ℕ, zero, suc, ◌+◌, ◌/◌, ◌%◌, Str, Option, none, some, List, [], ◌∷◌, ◌++◌, codes, map, length,
  if◌then◌else◌, ltb, ◌==◌, str_ordered, nat_ordered,
}
use peer_q.Prelude.Int.{ℤ, pos, negsuc, ◌-ℤ◌, leb_ℤ}
use peer_q.Prelude.Dict.{Dict, lookup, member}
use peer_q.Prelude.Sorted.{sorted_items}
use peer_q.Metrics.{
  LogLinearHistogram, MetricsCollector, get_counter, get_histogram, CeilProduct, quantile,
  counter_names,
}
use peer_q.Exporter.{ClusterStatus, Lease, count_of}

-- `str(n)` of an int; the fuel `n` is enough.
unfoldable pub digits : ℕ → ℕ → Str
digits zero n = (48 + n % 10) ∷ []
digits (suc fuel) n =
    if ltb n 10 then (48 + n % 10) ∷ [] else digits fuel (n / 10) ++ (48 + n % 10) ∷ []

unfoldable pub decimal : ℤ → Str
decimal (pos n) = digits n n
decimal (negsuc n) = 45 ∷ digits (suc n) (suc n)

-- `html.escape` of a character, and of a text.
abbrev pub escape_char : ℕ → Str
escape_char c =
    if c == 38
    then codes "&amp;"
    else if c == 60
    then codes "&lt;"
    else if c == 62
    then codes "&gt;"
    else if c == 34
    then codes "&quot;"
    else if c == 39
    then codes "&#x27;"
    else c ∷ []

unfoldable pub escape : Str → Str
escape [] = []
escape (c ∷ cs) = escape_char c ++ escape cs

-- `str` of a text or None
abbrev pub text_or_none : Option Str → Str
text_or_none none = codes "None"
text_or_none (some s) = s

-- `" ".join(texts)` and `"".join(texts)`
unfoldable pub join : Str → List Str → Str
join sep [] = []
join sep (s ∷ []) = s
join sep (s ∷ t ∷ ts) = s ++ (sep ++ join sep (t ∷ ts))

abbrev pub live_tag : Str
live_tag = codes "<span class=\"badge badge-success\"><span class=\"dot dot-green\"></span>"

abbrev pub lost_tag : Str
lost_tag = codes "<span class=\"badge badge-warning\"><span class=\"dot dot-amber\"></span>"

unfoldable pub peer_badge : List Str → List Str → Str → Str
peer_badge live suspected p =
    if member p live
    then live_tag ++ (p ++ codes " (live)</span>")
    else if member p suspected
    then lost_tag ++ (p ++ codes " (suspected)</span>")
    else codes "<span class=\"badge badge-neutral\">" ++ (p ++ codes "</span>")

-- On the escaped names.
unfoldable pub peers_html : List Str → List Str → List Str → Str
peers_html live suspected [] =
    codes "<span class=\"text-muted\">Single node (standalone mode)</span>"
peers_html live suspected (p ∷ ps) = join (codes " ") (map (peer_badge live suspected) (p ∷ ps))

-- `max(0.0, exp - now)`
abbrev pub remaining : ℤ → ℤ → ℤ
remaining exp now = if leb_ℤ (exp -ℤ now) (pos 0) then pos 0 else exp -ℤ now

abbrev pub table_head : Str
table_head =
    codes
      "<table><thead><tr><th>Task ID</th><th>Claimed By</th><th>Fence Epoch</th><th>Lease Expiry</th><th>Remaining</th></tr></thead><tbody>"

abbrev pub table_end : Str
table_end = codes "</tbody></table>"

-- `fixed2` formats a number of microseconds in seconds, `.2f`.
module _ (fixed2 : ℤ → Str) where
  unfoldable pub lease_row : ℤ → Lease → Str
  lease_row now l =
      codes "<tr><td><code>"
      ++ (escape l.task_id
          ++ (codes "</code></td><td><code>"
              ++ (escape (text_or_none l.claimed_by)
                  ++ (codes "</code></td><td>"
                      ++ (decimal (pos l.fence_epoch)
                          ++ (codes "</td><td>"
                              ++ (fixed2 l.lease_expiry
                                  ++ (codes "s</td><td>"
                                      ++ (fixed2 (remaining l.lease_expiry now)
                                          ++ codes "s</td></tr>")))))))))

  unfoldable pub leases_table : ℤ → List Lease → Str
  leases_table now [] = codes "<p class=\"text-muted\">No active leases currently held.</p>"
  leases_table now (l ∷ ls) = table_head ++ (join [] (map (lease_row now) (l ∷ ls)) ++ table_end)

unfoldable pub clock_badge : Str × ℕ → Str
clock_badge (k, v) =
    codes "<span class=\"badge badge-neutral\"><code>"
    ++ (escape k ++ (codes "</code>: " ++ (decimal (pos v) ++ codes "</span>")))

unfoldable pub vclock_html : Dict Str ℕ → Str
vclock_html [] = codes "<span class=\"text-muted\">Empty</span>"
vclock_html (e ∷ es) = join (codes " ") (map clock_badge (sorted_items (e ∷ es)))

unfoldable pub credit_badge : Str × ℤ → Str
credit_badge (k, v) =
    codes "<span class=\"badge badge-neutral\"><code>"
    ++ (escape k ++ (codes "</code>: " ++ (decimal v ++ codes " credits</span>")))

unfoldable pub credits_html : Dict Str ℤ → Str
credits_html [] = codes "<span class=\"text-muted\">No peer connections</span>"
credits_html (e ∷ es) = join (codes " ") (map credit_badge (sorted_items (e ∷ es)))

-- The number in the box of a state, which the template looks up by a name.
abbrev pub box : ClusterStatus → Str → ℕ
box s name = count_of (lookup name s.by_state)

pub record StateBoxes : Type 0 where
  pub submitted : ℕ
  pub in_claim : ℕ
  pub in_run : ℕ
  pub completed : ℕ
  pub in_failure : ℕ
  pub timed_out : ℕ

unfoldable pub state_boxes : ClusterStatus → StateBoxes
state_boxes s = record {
  submitted = box s (codes "submitted");
  in_claim = box s (codes "claimed");
  in_run = box s (codes "running");
  completed = box s (codes "completed");
  in_failure = box s (codes "failed");
  timed_out = box s (codes "timed_out");
}

-- `_format_quantile`: `fixed2` formats half microseconds in milliseconds, `.2f`.
unfoldable pub format_quantile : CeilProduct → (ℕ → Str) → Option LogLinearHistogram → ℤ → ℕ → Str
format_quantile ceil_product fixed2 none numerator denominator = codes "N/A"
format_quantile ceil_product fixed2 (some h) numerator denominator =
    if h.total_count == 0
    then codes "N/A"
    else fixed2 (quantile ceil_product numerator denominator h) ++ codes " ms"

-- What the template takes from the node; the latencies are those of tasks and of gossip.
pub record Page : Type 0 where
  pub node_tag : Str
  pub total_tasks : ℕ
  pub queue_depth : ℕ
  pub leases_count : ℕ
  pub live_count : ℕ
  pub known_count : ℕ
  pub boxes : StateBoxes
  pub counters : List ℤ
  pub peers : Str
  pub credits : Str
  pub leases : Str
  pub clock : Str
  pub latencies : List Str
  pub local_clock : ℤ

-- `get_dashboard_html` up to the template; `fixed2` and `in_ms` format floats.
unfoldable pub get_dashboard :
    CeilProduct → (ℤ → Str) → (ℕ → Str) → MetricsCollector → ClusterStatus → ℤ → Page
get_dashboard ceil_product fixed2 in_ms m s now =
    let task = get_histogram (codes "task_latency") m in
    let gossip = get_histogram (codes "gossip_latency") m in
    record {
      node_tag = escape s.node_id;
      total_tasks = s.total;
      queue_depth = s.depth;
      leases_count = length s.active_leases;
      live_count = length s.live_peers;
      known_count = length s.known_peers;
      boxes = state_boxes s;
      counters = map (λ k. get_counter k m) counter_names;
      peers =
          peers_html (map escape s.live_peers) (map escape s.suspected_peers)
            (map escape s.known_peers);
      credits = credits_html s.peer_credits;
      leases = leases_table fixed2 now s.active_leases;
      clock = vclock_html s.vector_clock;
      latencies =
          format_quantile ceil_product in_ms task (pos 50) 100
          ∷ format_quantile ceil_product in_ms task (pos 99) 100
          ∷ format_quantile ceil_product in_ms gossip (pos 50) 100
          ∷ format_quantile ceil_product in_ms gossip (pos 99) 100
          ∷ [];
      local_clock = now;
    }
