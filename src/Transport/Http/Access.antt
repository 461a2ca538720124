-- ===== src/Transport/Http/Access.antt =====
-- The bearer token of `HttpServer` of peerq/transport.py: no page without it.
use peer_q.Prelude.{
  ℕ, ◌≡◌, ◌⊎◌, refl, ap, Str, Bytes, Bool, true, false, ◌&&◌, Option, none, some, List, [], ◌∷◌,
  ◌++◌, arith, codes, if_split, ltb, length, every, ◌==◌, ==_iff, str_ordered, nat_ordered, inl,
  inr,
}
use peer_q.Prelude.Int.{ℤ, pos, negsuc, ltb_ℤ}
use peer_q.Prelude.Dict.{Dict, lookup}
use peer_q.Errors.{Result, ok, err, type_error, ok-injective, check-inverse}
use peer_q.Transport.Http.{
  HttpServer, Input, line, Reply, Outcome, hung_up, answer, handled, Text, compare_digest, or_empty,
  Headers, stopped, headers, read_headers, body_length, authorize, length_guards, after_headers,
  after_line, handle_request, respond, plain, strip, words_from,
}

module _ (text : Text) where
  -- The request has the token in its headers, and no body.
  pub record IsAuthorized (s : HttpServer) (token : Str) (input : Input) : Type 0 where
    pub first : Bytes
    pub rest : Input
    pub found : Dict Str Str
    pub request : input ≡ line first rest
    pub read : read_headers text s.security.max_http_headers (length first) [] rest ≡ headers found
    pub bearer : lookup (codes "authorization") found ≡ some (codes "Bearer " ++ token)
    pub no_body : body_length text found ≡ pos 0

  compare_digest-equal : (a b : Str) → compare_digest a b ≡ ok true → a ≡ b
  unfolding compare_digest
  compare_digest-equal a b h =
      let (_, same) =
        check-inverse (every (λ c. ltb c 128) a && every (λ c. ltb c 128) b) type_error
          (ok (a == b)) h in
      (==_iff a b).0 (ok-injective same)

  found-bearer :
      (o : Option Str) (token : Str)
      → or_empty [] o ≡ codes "Bearer " ++ token
      → o ≡ some (codes "Bearer " ++ token)
  found-bearer none token h = ground arith
  found-bearer (some v) token h = ap some h

  authorize-bearer :
      (s : HttpServer) (token : Str) (d : Dict Str Str)
      → s.auth_token ≡ some token
      → authorize text s d ≡ ok true
      → lookup (codes "authorization") d ≡ some (codes "Bearer " ++ token)
  unfolding authorize
  authorize-bearer s token d e h =
      let given : Str = or_empty [] (lookup (codes "authorization") d) in
      found-bearer (lookup (codes "authorization") d) token
        (compare_digest-equal given (codes "Bearer " ++ token) (ground (arith, e, h)))

  length_guards-handled :
      (s : HttpServer) (method path m p : Str) (body_comes : Option Bool) (n : ℤ)
      → length_guards text s method path body_comes n ≡ handled m p
      → n ≡ pos 0
  length_guards-handled s method path m p body_comes (negsuc n) h = ground arith
  length_guards-handled s method path m p none (pos n) h = ground arith
  length_guards-handled s method path m p (some true) (pos n) h = ground arith
  length_guards-handled s method path m p (some false) (pos n) h = ground arith

  after_headers-handled :
      (s : HttpServer) (token method path m p : Str) (body_comes : Option Bool) (o : Headers)
      → s.auth_token ≡ some token
      → after_headers text s method path body_comes o ≡ handled m p
      → (d : Dict Str Str) × (o ≡ headers d)
        × (lookup (codes "authorization") d ≡ some (codes "Bearer " ++ token))
        × (body_length text d ≡ pos 0)
  after_headers-handled s token method path m p body_comes (stopped r) e h = ground arith
  after_headers-handled s token method path m p body_comes (headers d) e h =
      go (authorize text s d) refl h
    where
      go :
          (r : Result Bool)
          → authorize text s d ≡ r
          → (elim r as (λ _. Outcome) [
            | err e ↦ answer (plain 500 (codes "Internal Server Error" ++ 10 ∷ []))
            | ok false ↦ answer (plain 401 (codes "Unauthorized" ++ 10 ∷ []))
            | ok true ↦ length_guards text s method path body_comes (body_length text d)
          ])
            ≡ handled m p
          → (f : Dict Str Str) × (headers d ≡ headers f)
            × (lookup (codes "authorization") f ≡ some (codes "Bearer " ++ token))
            × (body_length text f ≡ pos 0)
      go (err x) a k = ground arith
      go (ok false) a k = ground arith
      go (ok true) a k = (
        d,
        refl,
        authorize-bearer s token d e a,
        length_guards-handled s method path m p body_comes (body_length text d) k,
      )

  after_line-handled :
      (s : HttpServer) (token m p : Str) (count : ℕ) (body_comes : Option Bool) (rest : Input)
      (words : List Str)
      → s.auth_token ≡ some token
      → after_line text s count body_comes rest words ≡ handled m p
      → (d : Dict Str Str) × (read_headers text s.security.max_http_headers count [] rest
          ≡ headers d)
        × (lookup (codes "authorization") d ≡ some (codes "Bearer " ++ token))
        × (body_length text d ≡ pos 0)
  after_line-handled s token m p count body_comes rest (method ∷ path ∷ version ∷ []) e h =
      elim (if_split (λ (o : Outcome). o ≡ handled m p) (ltb 2048 (length path)) h) [
        | inl (_, k) ↦ ground (arith, k)
        | inr (_, k) ↦
            after_headers-handled s token method path m p body_comes
              (read_headers text s.security.max_http_headers count [] rest) e k
      ]
  after_line-handled s token m p count body_comes rest _ e h = ground (arith, h)

  handle_request-IsAuthorized :
      (s : HttpServer) (token m p : Str) (body_comes : Option Bool) (input : Input)
      → s.auth_token ≡ some token
      → handle_request text s body_comes input ≡ handled m p
      → IsAuthorized s token input
  unfolding handle_request
  handle_request-IsAuthorized s token m p body_comes (line (b ∷ bs) rest) e h =
      elim (if_split (λ (o : Outcome). o ≡ handled m p)
        (ltb_ℤ s.security.max_http_headers (pos (length (b ∷ bs)))) h) [
          | inl (_, k) ↦ ground (arith, k)
          | inr (_, k) ↦
              let (d, read, bearer, no_body) =
                after_line-handled s token m p (length (b ∷ bs)) body_comes rest
                  (words_from text [] (strip text (text.decode (b ∷ bs)))) e k in
              record {
                first = b ∷ bs;
                rest = rest;
                found = d;
                request = refl;
                read = read;
                bearer = bearer;
                no_body = no_body;
              }
        ]
  handle_request-IsAuthorized s token m p body_comes _ e h = ground (arith, h)

  -- A server with a token asks its handler only for a request whose headers hold that token and
  -- which has no body; to every other request the answer does not depend on the handler.
  pub respond-IsAuthorized :
      (s : HttpServer) (token : Str) (one other : Str → Str → Result Reply)
      (body_comes : Option Bool) (input : Input)
      → s.auth_token ≡ some token
      → IsAuthorized s token input
        ⊎ (respond text s one body_comes input ≡ respond text s other body_comes input)
  unfolding respond
  respond-IsAuthorized s token one other body_comes input e =
      go (handle_request text s body_comes input) refl
    where
      go :
          (o : Outcome)
          → handle_request text s body_comes input ≡ o
          → IsAuthorized s token input
            ⊎ (respond text s one body_comes input ≡ respond text s other body_comes input)
      go hung_up h = inr (rw (h, respond) refl)
      go (answer r) h = inr (rw (h, respond) refl)
      go (handled m p) h = inl (handle_request-IsAuthorized s token m p body_comes input e h)
