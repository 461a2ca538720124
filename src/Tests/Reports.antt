-- ===== src/Tests/Reports.antt =====
-- Whole numbers in place of floats, a failure detector that hears of bob, and a node that reports.
use peer_q.Prelude.{
  ℕ, ◌+◌, ◌≤◌, ◌≡◌, ◌≢◌, select, ◌⊎◌, refl, Str, Bytes, Bool, true, false, Option, none, some, List,
  [], ◌∷◌, ◌++◌, arith, codes, length, All, if◌then◌else◌, ◌==◌, str_ordered, nat_ordered,
}
use peer_q.Prelude.Int.{ℤ, pos, ◌+ℤ◌, ◌-ℤ◌, leb_ℤ, -ℤ_parts}
use peer_q.Prelude.Dict.{lookup}
use peer_q.Failure.{Detector, new_detector, heartbeat, Floats, phi, calm, is_suspected, samples}
use peer_q.Failure.Windows.{IsWindow, beats, beats-IsWindow, phi-heartbeat}
use peer_q.Failure.Accrual.{Rounding, is_suspected-later}
use peer_q.Prelude.Dict.{insert}
use peer_q.Errors.{ok}
use peer_q.Consensus.Clock.{to_dict}
use peer_q.Transport.Http.{new_http_server}
use peer_q.Exporter.{StatusNode, suspects, format_cluster_status, list_credits, list_leases}
use peer_q.Exporter.Counts.{IsCensus, format_cluster_status-IsCensus}
use peer_q.Exporter.Html.{state_boxes, get_dashboard}
use peer_q.Exporter.Boxes.{AreBoxes, state_boxes-AreBoxes}
use peer_q.Exporter.Markup.{markup}
use peer_q.Exporter.Injection.{IsSamePage, get_dashboard-IsSamePage}
use peer_q.Exporter.Server.{Rendering, new_status_server, serve_status}
use peer_q.Exporter.Access.{ShowsToken, serve_status-ShowsToken}
use peer_q.Tests.Samples.{alice, bob, submitted, claimed_by_bob, finished}
use peer_q.Tests.Peers.{secure_peer}
use peer_q.Tests.Pages.{plain_text, token, server, request}

abbrev whole_floats : Floats ℤ
whole_floats = record {
  of_micro = λ t. t;
  of_nat = λ n. pos n;
  le = leb_ℤ;
  add = λ a b. a +ℤ b;
  sub = λ a b. a -ℤ b;
  mul = λ a b. b;
  div = λ a b. a;
  neg = λ a. pos 0 -ℤ a;
  sqrt = λ a. a;
  erfc = λ a. pos 1000 -ℤ a;
  log10 = λ a. a -ℤ pos 100;
  infinity = pos 1000000000;
  half = pos 1;
  root_2 = pos 1;
  least_probability = pos 1;
}

whole_Rounding : Rounding whole_floats
whole_Rounding = record {
  le_refl = λ a. ground arith;
  le_trans = λ a b c h k. ground arith;
  le_total = λ a b h. ground arith;
  of_micro-le = λ s t h. ground arith;
  sub-le = λ a b c h. ground (arith, -ℤ_parts a c, -ℤ_parts b c);
  div-le = λ a b c p h. h;
  half-le = λ a b h. h;
  erfc-le = λ a b h. ground (arith, -ℤ_parts (pos 1000) a, -ℤ_parts (pos 1000) b);
  log10-le = λ a b p h. ground (arith, -ℤ_parts a (pos 100), -ℤ_parts b (pos 100));
  neg-le = λ a b h. ground (arith, -ℤ_parts (pos 0) a, -ℤ_parts (pos 0) b);
  sqrt-Positive = λ a p. p;
  root_2-Positive = λ a p. refl;
  least-Positive = refl;
}

-- Bob's heartbeats, at 10, 20 and 30.
abbrev hearing_bob : Detector
hearing_bob = beats ((bob, pos 10) ∷ (bob, pos 20) ∷ (bob, pos 30) ∷ []) (new_detector 2 2)

silent_bob : is_suspected whole_floats (pos 1) bob (pos 8) (pos 2000) hearing_bob ≡ true
unfolding is_suspected peer_q.Failure.phi_value phi lookup beats heartbeat
    peer_q.Prelude.Dict.insert ◌-ℤ◌ peer_q.Failure.max_float peer_q.Failure.p_later
    peer_q.Failure.mean peer_q.Failure.sum_from ◌+ℤ◌
silent_bob = refl

is_suspected-later_example :
    is_suspected whole_floats (pos 1) bob (pos 8) (pos 3000) hearing_bob ≡ true
is_suspected-later_example =
    is_suspected-later whole_floats whole_Rounding (pos 1) refl bob (pos 8) (pos 2000) (pos 3000)
      hearing_bob (omega arith) silent_bob

phi-heartbeat_example :
    (phi bob (pos 40) (heartbeat bob (pos 40) hearing_bob) ≡ calm)
    × (phi alice (pos 90) (heartbeat bob (pos 40) hearing_bob) ≡ phi alice (pos 90) hearing_bob)
phi-heartbeat_example =
    phi-heartbeat bob alice (pos 40) (pos 90) hearing_bob (λ e. ground (arith, e))

beats-IsWindow_example : IsWindow 2 (
    samples (
      lookup bob
        (beats
          ((bob, pos 10) ∷ (bob, pos 30) ∷ (bob, pos 20) ∷ (bob, pos 25) ∷ [])
          (new_detector 2 2)).intervals))
beats-IsWindow_example =
    beats-IsWindow 2 2 ((bob, pos 10) ∷ (bob, pos 30) ∷ (bob, pos 20) ∷ (bob, pos 25) ∷ []) bob

-- Alice's node: bob is live, and a peer that was never heard of is suspected.
abbrev reporting : StatusNode
reporting = record {
  peer = record secure_peer {
    node = record secure_peer.node {
      tasks = (codes "s", submitted) ∷ (codes "c", claimed_by_bob) ∷ (codes "f", finished) ∷ [];
    };
    failure_detector = hearing_bob;
  };
  peers = bob ∷ codes "<b>" ∷ [];
  metrics = record { counters = []; histograms = [] };
}

-- The same with other names.
abbrev renamed : StatusNode
renamed = record reporting { peers = codes "\"x\"" ∷ bob ∷ [] }

format_cluster_status-IsCensus_example :
    IsCensus
      (suspects whole_floats (pos 1) reporting (pos 40))
      reporting
      (format_cluster_status whole_floats (pos 1) reporting (pos 40))
format_cluster_status-IsCensus_example =
    format_cluster_status-IsCensus whole_floats (pos 1) reporting (pos 40)

-- One pending, one claimed and one done task, of which the boxes show the claimed one.
state_boxes-AreBoxes_example :
    AreBoxes reporting.peer.node.tasks
      (state_boxes (format_cluster_status whole_floats (pos 1) reporting (pos 40)))
state_boxes-AreBoxes_example = state_boxes-AreBoxes whole_floats (pos 1) reporting (pos 40)

-- Formats nothing but a point.
abbrev point : ℤ → Str
point z = 46 ∷ []

get_dashboard-IsSamePage_example :
    IsSamePage
      (get_dashboard
        (λ n d c. c)
        point
        (λ n. [])
        reporting.metrics
        (format_cluster_status whole_floats (pos 1) reporting (pos 40))
        (pos 40))
      (get_dashboard
        (λ n d c. c)
        point
        (λ n. [])
        renamed.metrics
        (format_cluster_status whole_floats (pos 1) renamed (pos 50))
        (pos 50))
unfolding format_cluster_status markup select list_credits insert list_leases to_dict
get_dashboard-IsSamePage_example =
    get_dashboard-IsSamePage whole_floats (pos 1) (λ n d c. c) point (λ n. []) reporting.metrics
      renamed.metrics reporting renamed (pos 40) (pos 50) (λ z. refl)
      (record { peers = refl; credits = refl; leases = refl; clock = refl })

abbrev rendering : Rendering
rendering = record {
  template = λ p. p.peers ++ p.leases;
  fixed2 = point;
  in_ms = λ n. [];
  fixed6 = λ n. [];
  ceil_product = λ n d c. c;
  dumps = λ j. [];
  encode = λ s. ok s;
}

server_started : new_status_server false reporting none (some token) ≡ ok server
unfolding new_status_server new_http_server
server_started = refl

serve_status-ShowsToken_example :
    ShowsToken plain_text server request
    ⊎ (serve_status whole_floats
          (pos 1)
          rendering
          plain_text
          server
          reporting
          (pos 40)
          (some true)
          request
        ≡ serve_status whole_floats
            (pos 1)
            rendering
            plain_text
            server
            renamed
            (pos 50)
            (some true)
            request)
serve_status-ShowsToken_example =
    serve_status-ShowsToken whole_floats (pos 1) rendering plain_text reporting reporting renamed
      none (some token) server (pos 40) (pos 50) (some true) request server_started
