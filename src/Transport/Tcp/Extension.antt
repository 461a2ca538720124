-- ===== src/Transport/Tcp/Extension.antt =====
-- The guards of `_verify_message` of peerq/transport.py, and an inbox that has grown by verified
-- messages of one sender.
use peer_q.Prelude.{
  ◌≡◌, ◌++◌, refl, sym, ap, subst, ◌∙◌, Str, true, Option, List, [], ◌∷◌, arith, length,
  length-append, All, append_nil, append_assoc, All-append, Bool-cases, inl, inr, str_ordered,
}
use peer_q.Prelude.Int.{ℤ, pos, ◌≤ℤ◌, ltb_ℤ, int_ordered}
use peer_q.Json.{Codec}
use peer_q.Crypto.{Ed25519, PeerKeyRing, has_peer}
use peer_q.Transport.Message.{Message, verify_signature}
use peer_q.Transport.Tcp.{Tcp, is_sender, deliver, verify_message}

module _ (ed : Ed25519) (codec : Codec) where
  -- A message that verified, from the one sender.
  pub record IsFrom (ring : PeerKeyRing) (sender : Str) (e : Str × Message) : Type 0 where
    pub entry : e.0 ≡ sender
    pub sender_id : e.1.sender_id ≡ sender
    pub known : has_peer ed ring sender ≡ true
    pub signed : verify_signature ed codec e.1 ring ≡ true

  -- The inbox of the second transport has verified messages of the one sender behind those of the
  -- first, within the limit if the first was.
  pub record IsExtended (sender : Str) (t u : Tcp) : Type 0 where
    pub keyring : u.keyring ≡ t.keyring
    pub security : u.security ≡ t.security
    pub new : List (Str × Message)
    pub inbox : u.inbox ≡ t.inbox ++ new
    pub from : All (IsFrom t.keyring sender) new
    pub room :
        pos (length t.inbox) ≤ℤ t.security.max_inbox_size
        → pos (length u.inbox) ≤ℤ t.security.max_inbox_size

  -- A verified message passed every guard, and the call leaves all but the cache of nonces.
  pub verify_message_keeps :
      (now : ℤ) (m : Message) (expected : Option Str) (t : Tcp)
      → (verify_message ed codec now m expected t).1
        ≡ record t { replay_cache = (verify_message ed codec now m expected t).1.replay_cache }
  unfolding verify_message
  verify_message_keeps now m expected t = ground arith

  pub verify_message-verified :
      (now : ℤ) (m : Message) (expected : Option Str) (t : Tcp)
      → t.security.enabled ≡ true
      → (verify_message ed codec now m expected t).0 ≡ true
      → (is_sender expected m.sender_id ≡ true)
        × (has_peer ed t.keyring m.sender_id ≡ true)
        × (verify_signature ed codec m t.keyring ≡ true)
  unfolding verify_message
  verify_message-verified now m expected t on h = ground arith

  pub IsExtended-quiet :
      (sender : Str) (t u : Tcp)
      → u.keyring ≡ t.keyring
      → u.security ≡ t.security
      → u.inbox ≡ t.inbox
      → IsExtended sender t u
  IsExtended-quiet sender t u k c e = record {
    keyring = k;
    security = c;
    new = [];
    inbox = e ∙ sym (append_nil t.inbox);
    from = tt;
    room = λ h. subst (λ x. pos (length x) ≤ℤ t.security.max_inbox_size) (sym e) h;
  }

  pub IsExtended-trans :
      (sender : Str) (t u v : Tcp)
      → IsExtended sender t u
      → IsExtended sender u v
      → IsExtended sender t v
  IsExtended-trans sender t u v a b = record {
    keyring = b.keyring ∙ a.keyring;
    security = b.security ∙ a.security;
    new = a.new ++ b.new;
    inbox = b.inbox ∙ (ap (λ x. x ++ b.new) a.inbox ∙ append_assoc t.inbox a.new b.new);
    from =
        All-append (IsFrom t.keyring sender) a.new b.new a.from
          (subst (λ r. All (IsFrom r sender) b.new) a.keyring b.from);
    room = λ h.
        subst (λ c. pos (length v.inbox) ≤ℤ c.max_inbox_size) a.security
          (b.room
            (subst (λ c. pos (length u.inbox) ≤ℤ c.max_inbox_size) (sym a.security) (a.room h)));
  }

  pub deliver-IsExtended :
      (m : Message) (t : Tcp)
      → has_peer ed t.keyring m.sender_id ≡ true
      → verify_signature ed codec m t.keyring ≡ true
      → IsExtended m.sender_id t (deliver m t)
  unfolding deliver
  deliver-IsExtended m t known signed =
      elim (Bool-cases (ltb_ℤ (pos (length t.inbox)) t.security.max_inbox_size)) [
        | inl space ↦ rw space (record {
          keyring = refl;
          security = refl;
          new = (m.sender_id, m) ∷ [];
          inbox = refl;
          from = (record { entry = refl; sender_id = refl; known = known; signed = signed }, tt);
          room = λ h. ground (arith, length-append t.inbox ((m.sender_id, m) ∷ []), space);
        })
        | inr full ↦ rw full (IsExtended-quiet m.sender_id t t refl refl refl)
      ]
