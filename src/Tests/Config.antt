-- ===== src/Tests/Config.antt =====
-- The rule names at a concrete input.
use socks5balancer_asio.Prelude.{◌≡◌}
use socks5balancer_asio.Config.{change_by_time}
use socks5balancer_asio.Config.Rules.{
  string_to_rule_enum, rule_enum_to_string, string_to_rule_enum-rule_enum_to_string,
}

string_to_rule_enum-rule_enum_to_string_example :
    string_to_rule_enum (rule_enum_to_string change_by_time) ≡ change_by_time
string_to_rule_enum-rule_enum_to_string_example =
    string_to_rule_enum-rule_enum_to_string change_by_time
