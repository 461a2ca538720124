-- ===== src/Transport/Http.antt =====
-- `HttpServer` of peerq/transport.py: its construction, and what `_handle_client` answers to the
-- lines of a request. The text of the response is outside. Python's Unicode tables, the UTF-8
-- decoder and `int` of a text are parameters.
pub mod Access
use peer_q.Prelude.{
  ℕ, ◌+◌, Str, Bytes, Bool, true, false, not, ◌&&◌, ◌||◌, Option, none, some, List, [], ◌∷◌, ◌++◌,
  codes, if◌then◌else◌, leb, ltb, length, map, every, ◌==◌, str_ordered, nat_ordered,
}
use peer_q.Prelude.Int.{ℤ, pos, negsuc, ltb_ℤ}
use peer_q.Prelude.Dict.{Dict, lookup, insert, member}
use peer_q.Errors.{
  Result, ok, err, type_error, value_error, connection_error, permission_error, ◌>>◌, check,
}
use peer_q.Security.Config.{SecurityConfig}
use peer_q.Crypto.{is_none}

pub record HttpServer : Type 0 where
  pub security : SecurityConfig
  pub auth_token : Option Str

-- `auth_token is not None and len(auth_token) < 32`
abbrev pub is_short : Option Str → Bool
is_short none = false
is_short (some token) = ltb (length token) 32

-- `not auth_token`
abbrev pub is_missing : Option Str → Bool
is_missing none = true
is_missing (some []) = true
is_missing (some (c ∷ cs)) = false

-- `HttpServer(…)`, told whether the host is a loopback address.
unfoldable pub new_http_server : Bool → SecurityConfig → Option Str → Result HttpServer
new_http_server is_loopback security auth_token = do
  check (is_loopback || not (is_missing auth_token)) value_error
  check (not (is_short auth_token)) value_error
  ok (record { security = security; auth_token = auth_token })

-- What `readline` yields: lines, and then the end, silence until the timeout, or a failure.
pub data Input : Type 0 where
  eof stalled broken : Input
  line : Bytes → Input → Input

pub record Reply : Type 0 where
  pub status : ℕ
  pub ctype : Str
  pub body : Bytes

abbrev pub plain : ℕ → Str → Reply
plain status text = record {
  status = status;
  ctype = codes "text/plain; charset=utf-8";
  body = text;
}

abbrev pub bad_request : Reply
bad_request = plain 400 (codes "Bad Request" ++ 10 ∷ [])

abbrev pub too_large : Reply
too_large = plain 431 (codes "Request Header Fields Too Large" ++ 10 ∷ [])

abbrev pub timed_out : Reply
timed_out = plain 408 (codes "Request Timeout" ++ 10 ∷ [])

-- How a request ends: without an answer, with one of the server's own, or in the handler's hands.
pub data Outcome : Type 0 where
  hung_up : Outcome
  answer : Reply → Outcome
  handled : Str → Str → Outcome

-- The text operations of Python that read its Unicode tables.
pub record Text : Type 0 where
  pub decode : Bytes → Str
  pub isspace : ℕ → Bool
  pub lower : Str → Str
  pub to_int : Str → Option ℤ

-- `hmac.compare_digest` of texts, which raises where one is not ASCII.
unfoldable pub compare_digest : Str → Str → Result Bool
compare_digest a b = do
  check (every (λ c. ltb c 128) a && every (λ c. ltb c 128) b) type_error
  ok (a == b)

abbrev pub or_empty : Str → Option Str → Str
or_empty d none = d
or_empty d (some s) = s

-- The part before a character, and the part behind it if it is there.
unfoldable pub split_at : ℕ → Str → Str × Option Str
split_at ch [] = ([], none)
split_at ch (c ∷ cs) =
    let (before, behind) = split_at ch cs in if c == ch then ([], some cs) else (c ∷ before, behind)

-- The headers that a request has up to its blank line.
pub data Headers : Type 0 where
  stopped : Reply → Headers
  headers : Dict Str Str → Headers

module _ (text : Text) where
  -- `strip`
  unfoldable pub lstrip : Str → Str
  lstrip [] = []
  lstrip (c ∷ cs) = let rest = lstrip cs in if text.isspace c then rest else c ∷ cs

  unfoldable pub rstrip : Str → Str
  rstrip [] = []
  rstrip (c ∷ cs) = elim (rstrip cs) [
    | [] ↦ if text.isspace c then [] else c ∷ []
    | d ∷ ds ↦ c ∷ d ∷ ds
  ]

  abbrev pub strip : Str → Str
  strip s = rstrip (lstrip s)

  -- `split()`: the current word, and the rest of the text.
  abbrev pub with_word : Str → List Str → List Str
  with_word [] words = words
  with_word (c ∷ cs) words = (c ∷ cs) ∷ words

  unfoldable pub words_from : Str → Str → List Str
  words_from word [] = with_word word []
  words_from word (c ∷ cs) =
      let next = words_from [] cs in
      let longer = words_from (word ++ c ∷ []) cs in
      if text.isspace c then with_word word next else longer

  abbrev pub is_blank : Bytes → Bool
  is_blank [] = true
  is_blank hdr = hdr == 13 ∷ 10 ∷ [] || hdr == 10 ∷ []

  -- `key.strip().lower()` and `value.strip()`
  abbrev pub with_header : Str × Option Str → Dict Str Str → Dict Str Str
  with_header (key, none) d = d
  with_header (key, some value) d = insert (text.lower (strip key)) (strip value) d

  -- The loop over the header lines, on the number of bytes so far.
  unfoldable pub read_headers : ℤ → ℕ → Dict Str Str → Input → Headers
  read_headers limit count d eof = if ltb_ℤ limit (pos count) then stopped too_large else headers d
  read_headers limit count d stalled = stopped timed_out
  read_headers limit count d broken = stopped bad_request
  read_headers limit count d (line hdr rest) =
      let more =
        read_headers limit (count + length hdr) (with_header (split_at 58 (text.decode hdr)) d)
          rest in
      if ltb_ℤ limit (pos (count + length hdr))
      then stopped too_large
      else if is_blank hdr
      then headers d
      else if not (member 58 hdr)
      then stopped bad_request
      else more

  -- `int(content_length)`, or -1
  abbrev pub body_length : Dict Str Str → ℤ
  body_length d = elim (text.to_int (or_empty (codes "0") (lookup (codes "content-length") d))) [
    | none ↦ negsuc 0
    | some n ↦ n
  ]

  -- Whether the bearer token is right; there may be none to check.
  unfoldable pub authorize : HttpServer → Dict Str Str → Result Bool
  authorize s d = elim s.auth_token [
    | none ↦ ok true
    | some token ↦
        compare_digest (or_empty [] (lookup (codes "authorization") d)) (codes "Bearer " ++ token)
  ]

  -- The guards behind the headers; `body_comes` is whether the body arrives in time.
  abbrev pub length_guards : HttpServer → Str → Str → Option Bool → ℤ → Outcome
  length_guards s method path body_comes (negsuc n) =
      answer (plain 400 (codes "Invalid Content-Length" ++ 10 ∷ []))
  length_guards s method path body_comes (pos n) =
      if ltb_ℤ s.security.max_http_body (pos n)
      then answer (plain 413 (codes "Request body too large" ++ 10 ∷ []))
      else if n == 0
      then handled method path
      else elim body_comes [
        | none ↦ answer timed_out
        | some false ↦ answer bad_request
        | some true ↦ answer (plain 400 (codes "Request body is not accepted" ++ 10 ∷ []))
      ]

  abbrev pub after_headers : HttpServer → Str → Str → Option Bool → Headers → Outcome
  after_headers s method path body_comes (stopped r) = answer r
  after_headers s method path body_comes (headers d) = elim (authorize s d) [
    | err e ↦ answer (plain 500 (codes "Internal Server Error" ++ 10 ∷ []))
    | ok false ↦ answer (plain 401 (codes "Unauthorized" ++ 10 ∷ []))
    | ok true ↦ length_guards s method path body_comes (body_length d)
  ]

  -- The three parts of the request line.
  abbrev pub after_line : HttpServer → ℕ → Option Bool → Input → List Str → Outcome
  after_line s count body_comes rest (method ∷ path ∷ version ∷ []) =
      if ltb 2048 (length path)
      then answer bad_request
      else after_headers s method path body_comes
          (read_headers s.security.max_http_headers count [] rest)
  after_line s count body_comes rest _ = answer bad_request

  -- `_handle_client` up to the handler.
  unfoldable pub handle_request : HttpServer → Option Bool → Input → Outcome
  handle_request s body_comes eof = hung_up
  handle_request s body_comes stalled = answer timed_out
  handle_request s body_comes broken = answer bad_request
  handle_request s body_comes (line [] rest) = hung_up
  handle_request s body_comes (line (b ∷ bs) rest) =
      if ltb_ℤ s.security.max_http_headers (pos (length (b ∷ bs)))
      then answer too_large
      else after_line s (length (b ∷ bs)) body_comes rest
          (words_from [] (strip (text.decode (b ∷ bs))))

  -- A page that is too large is not sent.
  abbrev pub limited : HttpServer → Reply → Reply
  limited s r =
      if r.status == 200 && ltb_ℤ s.security.max_http_body (pos (length r.body))
      then plain 500 (codes "Response too large" ++ 10 ∷ [])
      else r

  abbrev pub from_handler : HttpServer → Result Reply → Reply
  from_handler s (ok r) = limited s r
  from_handler s (err value_error) = bad_request
  from_handler s (err connection_error) = bad_request
  from_handler s (err permission_error) = bad_request
  from_handler s (err e) = plain 500 (codes "Internal Server Error" ++ 10 ∷ [])

  -- The answer on the wire; the handler may raise.
  unfoldable pub respond :
      HttpServer → (Str → Str → Result Reply) → Option Bool → Input → Option Reply
  respond s handler body_comes input = elim (handle_request s body_comes input) [
    | hung_up ↦ none
    | answer r ↦ some r
    | handled method path ↦ some (from_handler s (handler method path))
  ]
