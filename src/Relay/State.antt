-- ===== src/Relay/State.antt =====
-- `TcpRelaySession` of TcpRelaySession.h, and the operations that it has running.
use socks5balancer_asio.Prelude.{ℕ, Bool, List, [], ◌∷◌, ◌++◌, Option, Bytes}
use socks5balancer_asio.Auth.Users.{AuthUser}
use socks5balancer_asio.Handshake.State.{ConnectType}

-- The asynchronous operations; a write carries the number of bytes it was asked to send.
pub data RelayOp : Type 0 where
  resolve connect handshake upstream_read downstream_read posted_close : RelayOp
  downstream_write upstream_write : ℕ → RelayOp

-- What the session hands to its ConnectionTracker.
pub data Fed : Type 0 where
  relay_goto_up relay_goto_down : Bytes → Fed

-- ConnectionTracker as the session sees it: the analysed request it was made with, and its data.
pub record Tracker : Type 0 where
  pub made_with : Option (ConnectType × Bytes × ℕ)
  pub fed : List Fed

-- `host`, `port` and `connectType` of the handshake object.
pub record Analyzer : Type 0 where
  pub connect_type : ConnectType
  pub host : Bytes
  pub port : ℕ

-- A reference to an upstream server is its index. The last four fields are what went through the
-- relay's two sockets.
pub record TcpRelaySession : Type 0 where
  pub relay_id : ℕ
  pub client_endpoint_addr_string : Bytes
  pub client_endpoint_addr_port_string : Bytes
  pub listen_endpoint_addr_string : Bytes
  pub target_endpoint_addr_string : Bytes
  pub first_pack_analyzer : Option Analyzer
  pub connection_tracker : Option Tracker
  pub ref_added : Bool
  pub now_server : Option ℕ
  pub retry_count : ℕ
  pub retry_limit : ℕ
  pub tradition_tcp_relay : Bool
  pub disable_connection_tracker : Bool
  pub is_de_cont : Bool
  -- `none` is -1
  pub first_delay_timestamp : Option ℕ
  pub first_delay_up_end : Bool
  pub first_delay_down_end : Bool
  pub auth_user : Option AuthUser
  pub downstream_open : Bool
  pub upstream_open : Bool
  -- `downstream_data_` and `upstream_data_`
  pub downstream_data : Bytes
  pub upstream_data : Bytes
  pub pending : List RelayOp
  pub from_upstream : Bytes
  pub to_downstream : Bytes
  pub from_downstream : Bytes
  pub to_upstream : Bytes

abbrev pub begin : RelayOp → TcpRelaySession → TcpRelaySession
begin op s = record s { pending = s.pending ++ op ∷ [] }
