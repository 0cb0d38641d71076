-- ===== src/Config.antt =====
-- ConfigLoader.h and ConfigRuleEnum.h: the settings that the modelled parts read. Durations and
-- times are natural numbers of nanoseconds, the tick of the system clock of libstdc++.
pub mod Rules
use socks5balancer_asio.Prelude.{ℕ, Bool, List, Bytes}

pub data RuleEnum : Type 0 where
  loop random one_by_one change_by_time force_only_one inherit : RuleEnum

pub record AuthClientInfo : Type 0 where
  pub user : Bytes
  pub pwd : Bytes
  pub base64_auth_string : Bytes

pub record Upstream : Type 0 where
  pub host : Bytes
  pub port : ℕ
  pub name : Bytes
  pub auth_user : Bytes
  pub auth_pwd : Bytes
  pub disable : Bool
  pub slow_impl : Bool

pub record Config : Type 0 where
  pub auth_client_info : List AuthClientInfo
  pub upstream : List Upstream
  pub test_remote_host : Bytes
  pub test_remote_port : ℕ
  pub upstream_select_rule : RuleEnum
  pub server_change_time : ℕ
  pub disable_connect_test : Bool
  pub tradition_tcp_relay : Bool
  pub disable_socks4 : Bool
  pub sleep_time : ℕ
  pub tcp_check_period : ℕ
  pub tcp_check_start : ℕ
  pub connect_check_period : ℕ
  pub connect_check_start : ℕ
  pub addition_check_period : ℕ
