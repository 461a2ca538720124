-- ===== src/Transport/Tcp/Delivery.antt =====
-- What `_handle_client` of peerq/transport.py puts into the inbox, whatever the bytes of the
-- connection are.
use peer_q.Prelude.{
  ◌+◌, ◌≡◌, refl, sym, ap, subst, ◌∙◌, Str, Bytes, Bool, true, false, ◌&&◌, Option, none, some,
  List, [], ◌∷◌, arith, codes, if_cases, inl, inr, ◌⊎◌, ==_iff, str_ordered,
}
use peer_q.Prelude.Int.{ℤ, pos, leb_ℤ, int_ordered}
use peer_q.Json.{Codec}
use peer_q.Errors.{Result, ok, err}
use peer_q.Crypto.{Ed25519, has_peer}
use peer_q.Transport.Message.{Message, verify_signature}
use peer_q.Transport.Tcp.Extension.{
  IsExtended, IsExtended-quiet, IsExtended-trans, deliver-IsExtended, verify_message_keeps,
  verify_message-verified,
}
use peer_q.Transport.Tcp.{
  Tcp, Phase, awaiting_hello, ended, receiving, Served, Tick, finish, after_bytes, answered,
  acknowledged, write_signed, on_hello, is_opening, deliver, next_round, is_handshake,
  verify_message, on_message, read_frame, serve, handle_client, taken,
}

module _ (ed : Ed25519) (codec : Codec) where
  -- A connection that has its sender keeps it until it ends.
  abbrev Keeps : Str → Phase → Type 0
  Keeps sender phase = (phase ≡ receiving (some sender)) ⊎ (phase ≡ ended)

  -- The transport that a round leaves, and where it leaves the connection.
  abbrev Round : Str → Tcp → Served → Type 0
  Round sender t s = IsExtended ed codec sender t s.transport × Keeps sender s.phase

  finish-Round :
      (sender : Str) (t u : Tcp) → IsExtended ed codec sender t u → Round sender t (finish u)
  finish-Round sender t u h = (
    IsExtended-trans ed codec sender t u (finish u).transport h
        (IsExtended-quiet ed codec sender u (finish u).transport refl refl refl),
    inr refl,
  )

  next_round-Round :
      (sender : Str) (t u : Tcp)
      → IsExtended ed codec sender t u
      → Round sender t (next_round (some sender) u)
  next_round-Round sender t u h =
      if_cases (Round sender t) u.closed (λ _. finish-Round sender t u h) (λ _. (h, inl refl))

  verify_message-IsExtended :
      (now : ℤ) (m : Message) (sender : Str) (expected : Option Str) (t : Tcp)
      → IsExtended ed codec sender t (verify_message ed codec now m expected t).1
  verify_message-IsExtended now m sender expected t =
      let same : (verify_message ed codec now m expected t).1 ≡ _ =
        verify_message_keeps ed codec now m expected t in
      IsExtended-quiet ed codec sender t (verify_message ed codec now m expected t).1
        (ap (λ u. u.keyring) same) (ap (λ u. u.security) same) (ap (λ u. u.inbox) same)

  taken-Round :
      (sender : Str) (m : Message) (t : Tcp) (r : Bool × Tcp)
      → IsExtended ed codec sender t r.1
      → (r.0 ≡ true
          → (m.sender_id ≡ sender)
            × (has_peer ed t.keyring m.sender_id ≡ true)
            × (verify_signature ed codec m t.keyring ≡ true))
      → Round sender t (taken ed codec (some sender) m r)
  taken-Round sender m t (true, u) h good =
      let (e, known, signed) = good refl in
      let more : IsExtended ed codec m.sender_id u (deliver m u) =
        deliver-IsExtended ed codec m u
          (subst (λ k. has_peer ed k m.sender_id ≡ true) (sym h.keyring) known)
          (subst (λ k. verify_signature ed codec m k ≡ true) (sym h.keyring) signed) in
      next_round-Round sender t (deliver m u) (
        IsExtended-trans ed codec sender t u (deliver m u) h
          (subst (λ s. IsExtended ed codec s u (deliver m u)) e more))
  taken-Round sender m t (false, u) h good = finish-Round sender t u h

  on_message-Round :
      (k : Tick) (sender : Str) (m : Message) (t : Tcp)
      → t.security.enabled ≡ true
      → Round sender t (on_message ed codec k (some sender) m t)
  unfolding on_message
  on_message-Round k sender m t on =
      if_cases (Round sender t) (t.security.enabled && is_handshake m.msg_type)
        (λ _. finish-Round sender t t (IsExtended-quiet ed codec sender t t refl refl refl))
        (λ _.
          taken-Round sender m t (verify_message ed codec k.now m (some sender) t)
            (verify_message-IsExtended k.now m sender (some sender) t)
            (λ good.
              let v = verify_message-verified ed codec k.now m (some sender) t on good in
              ((==_iff m.sender_id sender).0 v.0, v.1, v.2)))

  -- The rounds of an authorized connection.
  serve-IsExtended :
      (ks : List Tick) (stream : Bytes) (sender : Str) (phase : Phase) (t : Tcp)
      → t.security.enabled ≡ true
      → Keeps sender phase
      → IsExtended ed codec sender t (serve ed codec ks stream phase t).transport
  unfolding serve
  serve-IsExtended [] stream sender phase t on k =
      IsExtended-quiet ed codec sender t t refl refl refl
  serve-IsExtended (k ∷ ks) stream sender phase t on (inr e) =
      rw e (IsExtended-quiet ed codec sender t t refl refl refl)
  serve-IsExtended (k ∷ ks) stream sender phase t on (inl e) =
      rw e (go (serve-IsExtended ks) (read_frame codec t.security stream))
    where
      go :
          ((rest : Bytes) (sender : Str) (phase : Phase) (t : Tcp)
            → t.security.enabled ≡ true
            → Keeps sender phase
            → IsExtended ed codec sender t (serve ed codec ks rest phase t).transport)
          → (r : Result (Message × Bytes))
          → IsExtended ed codec sender t
              (elim r as (λ _. Served) [
                | err e ↦ finish t
                | ok (m, rest) ↦
                    let s = on_message ed codec k (some sender) m t in
                    after_bytes s.sent (serve ed codec ks rest s.phase s.transport)
              ]).transport
      go more (err x) =
          (finish-Round sender t t (IsExtended-quiet ed codec sender t t refl refl refl)).0
      go more (ok (m, rest)) =
          let s : Served = on_message ed codec k (some sender) m t in
          let round : Round sender t s = on_message-Round k sender m t on in
          IsExtended-trans ed codec sender t s.transport
            (serve ed codec ks rest s.phase s.transport).transport round.0
            (more rest sender s.phase s.transport (ap (λ c. c.enabled) round.0.security ∙ on)
              round.1)

  answered-Round :
      (k : Tick) (sender : Str) (t : Tcp) (r : Bool × Tcp)
      → IsExtended ed codec sender t r.1
      → Round sender t (answered ed codec k sender r)
  answered-Round k sender t (false, u) h = finish-Round sender t u h
  answered-Round k sender t (true, u) h = go (write_signed ed codec k (codes "hello_ack") u)
    where
      go : (w : Result Bytes) → Round sender t (acknowledged ed codec sender u w)
      go (err e) = finish-Round sender t u h
      go (ok bytes) = next_round-Round sender t u h

  on_hello-Round :
      (k : Tick) (hello : Message) (t : Tcp) → Round hello.sender_id t (on_hello ed codec k hello t)
  unfolding on_hello
  on_hello-Round k hello t =
      if_cases (Round hello.sender_id t) (is_opening ed codec (codes "hello") hello t)
        (λ _.
          answered-Round k hello.sender_id t (verify_message ed codec k.now hello none t)
            (verify_message-IsExtended k.now hello hello.sender_id none t))
        (λ _.
          finish-Round hello.sender_id t t
            (IsExtended-quiet ed codec hello.sender_id t t refl refl refl))

  -- All the messages of the connection have one sender.
  abbrev pub FromOne : Tcp → Served → Type 0
  FromOne t s = (sender : Str) × IsExtended ed codec sender t s.transport

  serve-hello :
      (ks : List Tick) (stream : Bytes) (t : Tcp)
      → t.security.enabled ≡ true
      → FromOne t (serve ed codec ks stream awaiting_hello t)
  unfolding serve
  serve-hello [] stream t on = ([], IsExtended-quiet ed codec [] t t refl refl refl)
  serve-hello (k ∷ ks) stream t on = go (read_frame codec t.security stream)
    where
      go :
          (r : Result (Message × Bytes))
          → FromOne t (elim r as (λ _. Served) [
            | err e ↦ finish t
            | ok (hello, rest) ↦
                let s = on_hello ed codec k hello t in
                after_bytes s.sent (serve ed codec ks rest s.phase s.transport)
          ])
      go (err x) = ([], (finish-Round [] t t (IsExtended-quiet ed codec [] t t refl refl refl)).0)
      go (ok (hello, rest)) =
          let s : Served = on_hello ed codec k hello t in
          let round : Round hello.sender_id t s = on_hello-Round k hello t in
          (
            hello.sender_id,
            IsExtended-trans ed codec hello.sender_id t s.transport
                (serve ed codec ks rest s.phase s.transport).transport round.0
                (serve-IsExtended ks rest hello.sender_id s.phase s.transport
                  (ap (λ c. c.enabled) round.0.security ∙ on) round.1),
          )

  -- Where security is enabled, one connection adds messages of one sender only to the inbox, behind
  -- those that were there, whatever its bytes: the sender is in the ring, each of the messages has
  -- a signature that verifies, and the inbox does not outgrow its limit.
  pub handle_client-IsExtended :
      (ks : List Tick) (stream : Bytes) (t : Tcp)
      → t.security.enabled ≡ true
      → FromOne t (handle_client ed codec ks stream t)
  unfolding handle_client
  handle_client-IsExtended ks stream t on =
      let entered : Tcp = record t { incoming = t.incoming + 1 } in
      let (sender, h) = serve-hello ks stream entered on in
      if_cases (FromOne t) (leb_ℤ t.security.max_connections (pos t.incoming))
        (λ _. ([], IsExtended-quiet ed codec [] t t refl refl refl))
        (λ _.
          if_cases (FromOne t) t.security.enabled
            (λ _. (
              sender,
              IsExtended-trans ed codec sender t entered
                  (serve ed codec ks stream awaiting_hello entered).transport
                  (IsExtended-quiet ed codec sender t entered refl refl refl) h,
            ))
            (λ off. absurd (ground (arith, on, off))))
