-- ===== src/Handshake/Relay.antt =====
-- A client's request and the request sent upstream.
use socks5balancer_asio.Prelude.{
  ℕ, List, ◌∙◌, ◌+◌, ◌*◌, ◌≤◌, ◌<◌, ◌≡◌, refl, ◌⊎◌, inl, inr, true, false, [], ◌∷◌, ◌++◌, some,
  Bytes, length, length-append, arith, if◌then◌else◌, is_empty,
}
use socks5balancer_asio.Handshake.State.{
  State, Env, Op, socks5_connect_write, v4, v6, no_address, connect, udp, bind, upside_socks5,
  handshake_client_end_error, socks5_handshake_write,
}
use socks5balancer_asio.Handshake.Complete.{upside_support_udp_mode}
use socks5balancer_asio.Handshake.Client.{
  connect_message, do_socks5_connect_write, on_socks5_handshake_read, on_socks5_auth_read, start,
  do_socks5_handshake_write,
}
use socks5balancer_asio.Handshake.DownReady.{do_when_down_ready}
use socks5balancer_asio.Handshake.Server5.{read_target, on_command, on_handshake_client_read}
use socks5balancer_asio.Handshake.Bytes.{port_of_lem, port_part_lem, take_exact}

pub data Target : Type 0 where
  ipv4 : Bytes → Target
  domain : Bytes → Target
  ipv6 : Bytes → Target

-- A SOCKS5 request of RFC 1928, its port as two bytes.
abbrev pub request : ℕ → Target → ℕ → ℕ → Bytes
request cmd (ipv4 a) hi lo = 0x05 ∷ cmd ∷ 0x00 ∷ 0x01 ∷ (a ++ hi ∷ lo ∷ [])
request cmd (domain h) hi lo = 0x05 ∷ cmd ∷ 0x00 ∷ 0x03 ∷ length h ∷ (h ++ hi ∷ lo ∷ [])
request cmd (ipv6 a) hi lo = 0x05 ∷ cmd ∷ 0x00 ∷ 0x04 ∷ (a ++ hi ∷ lo ∷ [])

-- An address that the address library prints and reads back, or a domain name that it does not
-- read as an address and that is short enough.
abbrev pub IsTarget : Env → Target → Type 0
IsTarget env (ipv4 a) = (length a ≡ 4) × (env.make_address (env.v4_to_string a) ≡ v4 a)
IsTarget env (domain h) = (length h ≤ 253) × (env.make_address h ≡ no_address)
IsTarget env (ipv6 a) = (length a ≡ 16) × (env.make_address (env.v6_to_string a) ≡ v6 a)

-- The host that the handshake keeps for a target.
abbrev pub host_text : Env → Target → Bytes
host_text env (ipv4 a) = env.v4_to_string a
host_text env (domain h) = h
host_text env (ipv6 a) = env.v6_to_string a

read_target-request :
    (env : Env) (cmd : ℕ) (t : Target) (hi lo : ℕ)
    → IsTarget env t
    → read_target env (request cmd t hi lo) ≡ some (host_text env t, hi * 256 + lo)
unfolding read_target
read_target-request env cmd (ipv4 a) hi lo v = ground (
  arith,
  length-append a (hi ∷ lo ∷ []),
  take_exact 4 a (hi ∷ lo ∷ []) v.0,
  port_of_lem (0x05 ∷ cmd ∷ 0x00 ∷ 0x01 ∷ a) hi lo,
)
read_target-request env cmd (domain h) hi lo v = ground (
  arith,
  length-append h (hi ∷ lo ∷ []),
  take_exact (length h) h (hi ∷ lo ∷ []) refl,
  port_of_lem (0x05 ∷ cmd ∷ 0x00 ∷ 0x03 ∷ length h ∷ h) hi lo,
)
read_target-request env cmd (ipv6 a) hi lo v = ground (
  arith,
  length-append a (hi ∷ lo ∷ []),
  take_exact 16 a (hi ∷ lo ∷ []) v.0,
  port_of_lem (0x05 ∷ cmd ∷ 0x00 ∷ 0x04 ∷ a) hi lo,
)

pub address_part-request :
    (env : Env) (s : State) (cmd : ℕ) (t : Target) (hi lo : ℕ)
    → IsTarget env t
    → hi < 256
    → lo < 256
    → s.host ≡ host_text env t
    → s.port ≡ hi * 256 + lo
    → ((s.proxy_relay_mode ≡ connect) × (cmd ≡ 1)) ⊎ ((s.proxy_relay_mode ≡ udp) × (cmd ≡ 3))
    → connect_message env s ≡ some (request cmd t hi lo)
unfolding connect_message
address_part-request env s cmd (ipv4 a) hi lo v hh hl eh ep m =
    ground (arith, port_part_lem hi lo hh hl)
address_part-request env s cmd (domain h) hi lo v hh hl eh ep m =
    ground (arith, port_part_lem hi lo hh hl)
address_part-request env s cmd (ipv6 a) hi lo v hh hl eh ep m =
    ground (arith, port_part_lem hi lo hh hl)

read-on_command :
    (env : Env) (cmd : ℕ) (t : Target) (hi lo : ℕ) (s : State)
    → IsTarget env t
    → (cmd ≡ 1) ⊎ ((cmd ≡ 3) ⊎ (cmd ≡ 2))
    → on_handshake_client_read env (request cmd t hi lo) s
      ≡ on_command env cmd (record s { host = host_text env t; port = hi * 256 + lo })
unfolding on_handshake_client_read
read-on_command env cmd (ipv4 a) hi lo s v c =
    ground (arith, read_target-request env cmd (ipv4 a) hi lo v, length-append a (hi ∷ lo ∷ []))
read-on_command env cmd (domain h) hi lo s v c =
    ground (arith, read_target-request env cmd (domain h) hi lo v, length-append h (hi ∷ lo ∷ []))
read-on_command env cmd (ipv6 a) hi lo s v c =
    ground (arith, read_target-request env cmd (ipv6 a) hi lo v, length-append a (hi ∷ lo ∷ []))

-- The greeting with one method: no authentication, or user and password where the settings of the
-- upstream server have a user.
abbrev pub greeting : Env → Op
greeting env =
    socks5_handshake_write (0x05 ∷ 0x01 ∷ (if is_empty env.server_auth_user then 0 else 2) ∷ [])

-- The upside handshake in `s'`, begun from `s`: the greeting is written; and whatever operations run by then, an answer that needs no
-- login, or takes it, makes `b` the next data that is written to the upstream server.
abbrev pub Relays : Env → State → State → List Op → Bytes → Type 0
Relays env s s' ops b =
    (s'.pending ≡ s.pending ++ greeting env ∷ [])
    × (((on_socks5_handshake_read env (0x05 ∷ 0x00 ∷ []) (record s' { pending = ops })).pending
          ≡ ops ++ socks5_connect_write b ∷ [])
        × ((on_socks5_auth_read env (0x01 ∷ 0x00 ∷ []) (record s' { pending = ops })).pending
            ≡ ops ++ socks5_connect_write b ∷ []))

unmoved_request :
    (env : Env) (s : State) (ops : List Op)
    → connect_message env (record s { pending = ops }) ≡ connect_message env s
unfolding connect_message
unmoved_request env s ops = refl

written_request :
    (env : Env) (s : State) (b : Bytes)
    → connect_message env s ≡ some b
    → (do_socks5_connect_write env s).pending ≡ s.pending ++ socks5_connect_write b ∷ []
unfolding do_socks5_connect_write
written_request env s b e = ground (arith, e)

pub answered_request :
    (env : Env) (s : State) (b : Bytes) (ops : List Op)
    → connect_message env s ≡ some b
    → ((on_socks5_handshake_read env (0x05 ∷ 0x00 ∷ []) (record s { pending = ops })).pending
        ≡ ops ++ socks5_connect_write b ∷ [])
      × ((on_socks5_auth_read env (0x01 ∷ 0x00 ∷ []) (record s { pending = ops })).pending
          ≡ ops ++ socks5_connect_write b ∷ [])
unfolding on_socks5_handshake_read on_socks5_auth_read
answered_request env s b ops e =
    let w = written_request env (record s { pending = ops }) b (unmoved_request env s ops ∙ e) in
    (w, w)

module _ (env : Env) (t : Target) (hi lo : ℕ) (s : State) (v : IsTarget env t) where
  abbrev targeted : State
  targeted = record s { host = host_text env t; port = hi * 256 + lo }

  on_connect_message :
      hi < 256
      → lo < 256
      → s.ready_down ≡ false
      → s.complete_up ≡ false
      → connect_message env (on_command env 1 targeted) ≡ some (request 1 t hi lo)
  unfolding on_command do_when_down_ready start do_socks5_handshake_write
  on_connect_message hh hl r c =
      rw (r, c) (address_part-request env _ 1 t hi lo v hh hl refl refl (inl (refl, refl)))

  on_connect_started :
      s.ready_down ≡ false
      → s.complete_up ≡ false
      → (on_command env 1 targeted).pending ≡ s.pending ++ greeting env ∷ []
  unfolding on_command do_when_down_ready start do_socks5_handshake_write
  on_connect_started r c = rw (r, c) refl

  on_udp_message :
      hi < 256
      → lo < 256
      → s.ready_down ≡ false
      → s.complete_up ≡ false
      → s.upside_connect_type ≡ upside_socks5
      → connect_message env (on_command env 3 targeted) ≡ some (request 3 t hi lo)
  unfolding on_command do_when_down_ready start do_socks5_handshake_write upside_support_udp_mode
  on_udp_message hh hl r c u =
      rw (u, r, c) (address_part-request env _ 3 t hi lo v hh hl refl refl (inr (refl, refl)))

  on_udp_started :
      s.ready_down ≡ false
      → s.complete_up ≡ false
      → s.upside_connect_type ≡ upside_socks5
      → (on_command env 3 targeted).pending ≡ s.pending ++ greeting env ∷ []
  unfolding on_command do_when_down_ready start do_socks5_handshake_write upside_support_udp_mode
  on_udp_started r c u = rw (u, r, c) refl

-- In a handshake that has taken no request yet, and whose upside is SOCKS5 and not complete: a
-- well-formed CONNECT or UDP request of a client begins the upside handshake by writing its
-- greeting; and when the upstream server answers the greeting with "no authentication", or a login
-- with success, the client's request is written to it, byte for byte. The target is an address that
-- the address library prints and reads back, or a domain name of at most 253 bytes that is no
-- address.
pub on_handshake_client_read-Relays :
    (env : Env) (t : Target) (cmd hi lo : ℕ) (s : State) (ops : List Op)
    → IsTarget env t
    → (cmd ≡ 1) ⊎ (cmd ≡ 3)
    → hi < 256
    → lo < 256
    → s.ready_down ≡ false
    → s.complete_up ≡ false
    → s.upside_connect_type ≡ upside_socks5
    → Relays env s (on_handshake_client_read env (request cmd t hi lo) s) ops (request cmd t hi lo)
on_handshake_client_read-Relays env t cmd hi lo s ops v (inl e) hh hl r c u =
    rw (read-on_command env cmd t hi lo s v (inl e), e)
      (
        on_connect_started env t hi lo s v r c,
        answered_request env _ _ ops (on_connect_message env t hi lo s v hh hl r c),
      )
on_handshake_client_read-Relays env t cmd hi lo s ops v (inr e) hh hl r c u =
    rw (read-on_command env cmd t hi lo s v (inr (inl e)), e)
      (
        on_udp_started env t hi lo s v r c u,
        answered_request env _ _ ops (on_udp_message env t hi lo s v hh hl r c u),
      )

-- In a handshake that has taken no request yet, and whose upside is not complete: a well-formed
-- BIND request is both refused and accepted. The error reply 7 is begun, and the upside handshake
-- starts in the mode `bind` all the same.
pub on_handshake_client_read_bind :
    (env : Env) (t : Target) (hi lo : ℕ) (s : State)
    → IsTarget env t
    → s.ready_down ≡ false
    → s.complete_up ≡ false
    → let s' = on_handshake_client_read env (request 2 t hi lo) s in
      (s'.pending
        ≡ (s.pending ++ handshake_client_end_error 7 ∷ [])
          ++ socks5_handshake_write
              (0x05 ∷ 0x01 ∷ (if is_empty env.server_auth_user then 0 else 2) ∷ [])
            ∷ [])
      × (s'.ready_down ≡ true)
      × (s'.proxy_relay_mode ≡ bind)
unfolding on_command do_when_down_ready start do_socks5_handshake_write
on_handshake_client_read_bind env t hi lo s v r c =
    rw (read-on_command env 2 t hi lo s v (inr (inr refl)), r, c) (refl, refl, refl)
