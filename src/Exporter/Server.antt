-- ===== src/Exporter/Server.antt =====
-- `StatusServer` of peerq/exporter.py: its construction, and the page of a path. The templates, the
-- formatting of floats, json.dumps and the UTF-8 encoder are parameters.
use peer_q.Prelude.{
  ℕ, Str, Bytes, Bool, not, ◌||◌, Option, none, some, [], ◌∷◌, ◌++◌, codes, if◌then◌else◌, ◌==◌,
  str_ordered, nat_ordered,
}
use peer_q.Prelude.Int.{ℤ}
use peer_q.Errors.{Result, ok, ◌>>=◌}
use peer_q.Json.{Json}
use peer_q.Failure.{Floats}
use peer_q.Security.Config.{SecurityConfig}
use peer_q.Transport.Http.{HttpServer, Reply, Input, Text, new_http_server, respond}
use peer_q.Exporter.{StatusNode, status_json, format_cluster_status}
use peer_q.Exporter.Html.{Page, get_dashboard}
use peer_q.Exporter.Prometheus.{format_prometheus_text}
use peer_q.Metrics.{CeilProduct}

-- What turns a report into bytes.
pub record Rendering : Type 0 where
  pub template : Page → Str
  pub fixed2 : ℤ → Str
  pub in_ms : ℕ → Str
  pub fixed6 : ℕ → Str
  pub ceil_product : CeilProduct
  -- `json.dumps(data, indent=2, sort_keys=True)`
  pub dumps : Json → Str
  -- `encode("utf-8")`, which raises for a lone surrogate
  pub encode : Str → Result Bytes

-- `StatusServer(…)`: the security of the node where there is none of its own.
unfoldable pub new_status_server :
    Bool → StatusNode → Option SecurityConfig → Option Str → Result HttpServer
new_status_server is_loopback b none auth_token =
    new_http_server is_loopback b.peer.security auth_token
new_status_server is_loopback b (some security) auth_token =
    new_http_server is_loopback security auth_token

abbrev pub page_of : Str → Bytes → Reply
page_of ctype bytes = record { status = 200; ctype = ctype; body = bytes }

abbrev pub text_reply : ℕ → Str → Reply
text_reply status text = record {
  status = status;
  ctype = codes "text/plain";
  body = text ++ 10 ∷ [];
}

module _ {F : Type 0} (fl : Floats F) (variance_floor : F) (r : Rendering) (text : Text) where
  -- `_handle_request`, on the node as it is then.
  unfoldable pub handle_status : StatusNode → ℤ → Str → Str → Result Reply
  handle_status b now method path =
      if not (method == codes "GET")
      then ok (text_reply 405 (codes "Method Not Allowed"))
      else if path == codes "/" || path == codes "/dashboard"
      then (do
        bytes ← r.encode (
            r.template (
              get_dashboard r.ceil_product r.fixed2 r.in_ms b.metrics
                (format_cluster_status fl variance_floor b now) now))
        ok (page_of (codes "text/html; charset=utf-8") bytes))
      else if path == codes "/metrics"
      then (do
        bytes ←
            r.encode (format_prometheus_text r.ceil_product r.fixed6 b.metrics b.peer.node.node_id)
        ok (page_of (codes "text/plain; version=0.0.4; charset=utf-8") bytes))
      else if path == codes "/status"
      then (do
        bytes ← r.encode (r.dumps (status_json (format_cluster_status fl variance_floor b now)))
        ok (page_of (codes "application/json") bytes))
      else if path == codes "/healthz"
      then ok (text_reply 200 (codes "OK"))
      else ok (text_reply 404 (codes "Not Found"))

  -- The server's answer to the lines of a request.
  unfoldable pub serve_status : HttpServer → StatusNode → ℤ → Option Bool → Input → Option Reply
  serve_status s b now body_comes input = respond text s (handle_status b now) body_comes input
