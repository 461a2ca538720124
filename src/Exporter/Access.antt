-- ===== src/Exporter/Access.antt =====
-- Who can read a node over `StatusServer` of peerq/exporter.py.
use peer_q.Prelude.{
  ◌≤◌, ◌≡◌, ◌⊎◌, sym, ap, Str, Bool, false, not, ◌||◌, Option, none, some, arith, length, inl, inr,
}
use peer_q.Prelude.Int.{ℤ}
use peer_q.Errors.{Result, ok, value_error, check, ◌>>◌, ok-injective, check-inverse}
use peer_q.Failure.{Floats}
use peer_q.Security.Config.{SecurityConfig}
use peer_q.Transport.Http.{HttpServer, Input, Text, new_http_server, is_missing, is_short}
use peer_q.Transport.Http.Access.{IsAuthorized, respond-IsAuthorized}
use peer_q.Exporter.{StatusNode}
use peer_q.Exporter.Server.{Rendering, new_status_server, handle_status, serve_status}

-- A token of at least 32 characters.
pub record HasToken (s : HttpServer) : Type 0 where
  pub token : Str
  pub held : s.auth_token ≡ some token
  pub long : 32 ≤ length token

token_of :
    (auth_token : Option Str) (s : HttpServer)
    → is_missing auth_token ≡ false
    → is_short auth_token ≡ false
    → s.auth_token ≡ auth_token
    → HasToken s
token_of none s h k e = ground (arith, h)
token_of (some token) s h k e = record { token = token; held = e; long = ground (arith, k) }

new_http_server-HasToken :
    (security : SecurityConfig) (auth_token : Option Str) (s : HttpServer)
    → new_http_server false security auth_token ≡ ok s
    → HasToken s
unfolding new_http_server
new_http_server-HasToken security auth_token s h =
    let made : Result HttpServer = ok (record { security = security; auth_token = auth_token }) in
    let (present, rest) =
      check-inverse (false || not (is_missing auth_token)) value_error
        (check (not (is_short auth_token)) value_error >> made) h in
    let (long, built) = check-inverse (not (is_short auth_token)) value_error made rest in
    token_of auth_token s (ground (arith, present)) (ground (arith, long))
      (ap (λ t. t.auth_token) (sym (ok-injective built)))

new_status_server-HasToken :
    (b : StatusNode) (security : Option SecurityConfig) (auth_token : Option Str) (s : HttpServer)
    → new_status_server false b security auth_token ≡ ok s
    → HasToken s
unfolding new_status_server
new_status_server-HasToken b none auth_token s h =
    new_http_server-HasToken b.peer.security auth_token s h
new_status_server-HasToken b (some security) auth_token s h =
    new_http_server-HasToken security auth_token s h

-- A request that shows the server's token of at least 32 characters, and has no body.
pub record ShowsToken (text : Text) (s : HttpServer) (input : Input) : Type 0 where
  pub server : HasToken s
  pub request : IsAuthorized text s server.token input

-- A status server that starts on an address other than loopback tells nothing of its node without a
-- token of at least 32 characters: unless the request has it in its headers, the answer is the same
-- for any two nodes and times.
pub serve_status-ShowsToken :
    {F : Type 0} (fl : Floats F) (variance_floor : F) (r : Rendering) (text : Text)
    (a b c : StatusNode) (security : Option SecurityConfig) (auth_token : Option Str)
    (s : HttpServer) (now later : ℤ) (body_comes : Option Bool) (input : Input)
    → new_status_server false a security auth_token ≡ ok s
    → ShowsToken text s input
      ⊎ (serve_status fl variance_floor r text s b now body_comes input
          ≡ serve_status fl variance_floor r text s c later body_comes input)
unfolding serve_status
serve_status-ShowsToken fl variance_floor r text a b c security auth_token s now later body_comes
      input h =
    let server = new_status_server-HasToken a security auth_token s h in
    elim (respond-IsAuthorized text s server.token (handle_status fl variance_floor r text b now)
      (handle_status fl variance_floor r text c later) body_comes input server.held) [
        | inl shown ↦ inl (record { server = server; request = shown })
        | inr same ↦ inr same
      ]
