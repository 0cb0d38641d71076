-- ===== src/Handshake/Bind.antt =====
-- The upstream server's answer and the reply sent to the client.
use socks5balancer_asio.Prelude.{
  ℕ, ◌-◌, ◌≤◌, ◌<◌, ◌≡◌, ◌≢◌, refl, ◌∙◌, false, [], ◌∷◌, ◌++◌, some, Bytes, length, length-append,
  arith,
}
use socks5balancer_asio.Handshake.State.{State, socks5, handshake_client_end, at}
use socks5balancer_asio.Handshake.Complete.{
  fail, do_when_error, check_when_complete, do_when_complete, do_when_complete_up, do_when_up_end,
  udp_enabled,
}
use socks5balancer_asio.Handshake.Server5.{do_handshake_client_end, end_reply}
use socks5balancer_asio.Handshake.Ready.{on_socks5_connect_read, do_when_up_ready, read_bind}
use socks5balancer_asio.Handshake.Relay.{Target, ipv4, domain, ipv6, request}
use socks5balancer_asio.Handshake.Bytes.{take_exact, at_last, at_last_but_one}

-- The bytes of an address, or a domain name of at most 255 bytes.
abbrev pub IsSized : Target → Type 0
IsSized (ipv4 a) = length a ≡ 4
IsSized (domain h) = length h < 256
IsSized (ipv6 a) = length a ≡ 16

-- A domain name that has not the length of an IP address, and is not empty.
abbrev pub IsDistinct : Target → Type 0
IsDistinct (ipv4 a) = Unit
IsDistinct (domain h) = (length h ≢ 0) × (length h ≢ 4) × (length h ≢ 16)
IsDistinct (ipv6 a) = Unit

abbrev bind_bytes : Target → Bytes
bind_bytes (ipv4 a) = a
bind_bytes (domain h) = h
bind_bytes (ipv6 a) = a

end_reply-request :
    (t : Target) (hi lo : ℕ) (s : State)
    → IsSized t
    → IsDistinct t
    → length s.host < 256
    → s.bind_host ≡ bind_bytes t
    → s.bind_port ≡ hi ∷ lo ∷ []
    → end_reply s ≡ some (request 0 t hi lo)
unfolding end_reply
end_reply-request (ipv4 a) hi lo s v d h eh ep = ground arith
end_reply-request (domain a) hi lo s v d h eh ep = ground arith
end_reply-request (ipv6 a) hi lo s v d h eh ep = ground arith

-- The three facts that the handler reads off a reply.
record IsReply (b : Bytes) (t : Target) (hi lo : ℕ) : Type 0 where
  bound : read_bind b ≡ bind_bytes t
  port_high : at b (length b - 2) ≡ hi
  port_low : at b (length b - 1) ≡ lo
  long : 7 ≤ length b

IsReply-reads : (t : Target) (hi lo : ℕ) → IsSized t → IsReply (request 0 t hi lo) t hi lo
IsReply-reads (ipv4 a) hi lo v = record {
  bound = take_exact 4 a (hi ∷ lo ∷ []) v;
  port_high = at_last_but_one (0x05 ∷ 0x00 ∷ 0x00 ∷ 0x01 ∷ a) hi lo;
  port_low = at_last (0x05 ∷ 0x00 ∷ 0x00 ∷ 0x01 ∷ a) hi lo;
  long = omega (arith, length-append a (hi ∷ lo ∷ []));
}
IsReply-reads (domain h) hi lo v = record {
  bound = take_exact (length h) h (hi ∷ lo ∷ []) refl;
  port_high = at_last_but_one (0x05 ∷ 0x00 ∷ 0x00 ∷ 0x03 ∷ length h ∷ h) hi lo;
  port_low = at_last (0x05 ∷ 0x00 ∷ 0x00 ∷ 0x03 ∷ length h ∷ h) hi lo;
  long = omega (arith, length-append h (hi ∷ lo ∷ []));
}
IsReply-reads (ipv6 a) hi lo v = record {
  bound = take_exact 16 a (hi ∷ lo ∷ []) v;
  port_high = at_last_but_one (0x05 ∷ 0x00 ∷ 0x00 ∷ 0x04 ∷ a) hi lo;
  port_low = at_last (0x05 ∷ 0x00 ∷ 0x00 ∷ 0x04 ∷ a) hi lo;
  long = omega (arith, length-append a (hi ∷ lo ∷ []));
}

-- The handler accepts the reply.
accepted :
    (t : Target) (hi lo : ℕ) (s : State)
    → IsSized t
    → on_socks5_connect_read (request 0 t hi lo) s
      ≡ do_when_up_end
          (do_when_up_ready (record s { bind_port = hi ∷ lo ∷ []; bind_host = bind_bytes t }))
unfolding on_socks5_connect_read
accepted (ipv4 a) hi lo s v =
    let r = IsReply-reads (ipv4 a) hi lo v in
    ground (arith, r.bound, r.port_high, r.port_low, r.long, length-append a (hi ∷ lo ∷ []))
accepted (domain h) hi lo s v =
    let r = IsReply-reads (domain h) hi lo v in
    ground (arith, r.bound, r.port_high, r.port_low, r.long, length-append h (hi ∷ lo ∷ []))
accepted (ipv6 a) hi lo s v =
    let r = IsReply-reads (ipv6 a) hi lo v in
    ground (arith, r.bound, r.port_high, r.port_low, r.long, length-append a (hi ∷ lo ∷ []))

pending-do_when_up_end : (s : State) → (do_when_up_end s).pending ≡ s.pending
unfolding do_when_up_end do_when_complete_up check_when_complete fail do_when_error do_when_complete
pending-do_when_up_end s = ground arith

ended :
    (s : State) (b : Bytes)
    → s.ready_up ≡ false
    → s.connect_type ≡ socks5
    → udp_enabled s.socks5_server ≡ false
    → end_reply s ≡ some b
    → (do_when_up_end (do_when_up_ready s)).pending ≡ s.pending ++ handshake_client_end b ∷ []
unfolding do_when_up_ready do_handshake_client_end
ended s b r c u e = pending-do_when_up_end (do_when_up_ready s) ∙ ground arith

-- A success reply of the upstream server is passed on byte for byte to a SOCKS5 client that has
-- had no reply yet, outside UDP mode and for a target host of at most 255 bytes, if the reply
-- names an IPv4 or IPv6 address or a domain name that is not empty and has not the length of an
-- address.
pub on_socks5_connect_read_passes_on :
    (t : Target) (hi lo : ℕ) (s : State)
    → IsSized t
    → IsDistinct t
    → length s.host < 256
    → s.ready_up ≡ false
    → s.connect_type ≡ socks5
    → udp_enabled s.socks5_server ≡ false
    → (on_socks5_connect_read (request 0 t hi lo) s).pending
      ≡ s.pending ++ handshake_client_end (request 0 t hi lo) ∷ []
on_socks5_connect_read_passes_on t hi lo s v d h r c u = rw (accepted t hi lo s v) (
    ended (record s { bind_port = hi ∷ lo ∷ []; bind_host = bind_bytes t }) (request 0 t hi lo) r c
      u (end_reply-request t hi lo _ v d h refl refl))

end_reply_four :
    (h : Bytes) (hi lo : ℕ) (s : State)
    → length h ≡ 4
    → s.bind_host ≡ h
    → s.bind_port ≡ hi ∷ lo ∷ []
    → end_reply s ≡ some (request 0 (ipv4 h) hi lo)
unfolding end_reply
end_reply_four h hi lo s e b p = ground arith

-- A success reply that names a domain of four bytes is passed on to a SOCKS5 client that has had
-- no reply yet, outside UDP mode, as a reply that names an IPv4 address, made of the letters of
-- the domain.
pub on_socks5_connect_read_mistypes :
    (h : Bytes) (hi lo : ℕ) (s : State)
    → length h ≡ 4
    → s.ready_up ≡ false
    → s.connect_type ≡ socks5
    → udp_enabled s.socks5_server ≡ false
    → (on_socks5_connect_read (request 0 (domain h) hi lo) s).pending
      ≡ s.pending ++ handshake_client_end (request 0 (ipv4 h) hi lo) ∷ []
on_socks5_connect_read_mistypes h hi lo s e r c u = rw (accepted (domain h) hi lo s (omega arith)) (
    ended (record s { bind_port = hi ∷ lo ∷ []; bind_host = h }) (request 0 (ipv4 h) hi lo) r c u
      (end_reply_four h hi lo _ e refl refl))
