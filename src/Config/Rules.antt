-- ===== src/Config/Rules.antt =====
-- The names of the rules: `string2RuleEnum` and `ruleEnum2string` of ConfigLoader.cpp.
use Prim.Native.String.{String}
use text.Mathlib.Text.{◌==◌ as str_eq}
use socks5balancer_asio.Prelude.{◌≡◌, refl, if◌then◌else◌}
use socks5balancer_asio.Config.{
  RuleEnum, loop, random, one_by_one, change_by_time, force_only_one, inherit,
}

unfoldable pub string_to_rule_enum : String → RuleEnum
string_to_rule_enum s =
    if str_eq "loop" s
    then loop
    else if str_eq "random" s
    then random
    else if str_eq "one_by_one" s
    then one_by_one
    else if str_eq "change_by_time" s
    then change_by_time
    else if str_eq "force_only_one" s
    then force_only_one
    else if str_eq "inherit" s
    then inherit
    else random

unfoldable pub rule_enum_to_string : RuleEnum → String
rule_enum_to_string loop = "loop"
rule_enum_to_string random = "random"
rule_enum_to_string one_by_one = "one_by_one"
rule_enum_to_string change_by_time = "change_by_time"
rule_enum_to_string force_only_one = "force_only_one"
rule_enum_to_string inherit = "inherit"

-- The name that is printed for a rule is read back as that rule.
pub string_to_rule_enum-rule_enum_to_string :
    (r : RuleEnum) → string_to_rule_enum (rule_enum_to_string r) ≡ r
unfolding string_to_rule_enum rule_enum_to_string
string_to_rule_enum-rule_enum_to_string loop = refl
string_to_rule_enum-rule_enum_to_string random = refl
string_to_rule_enum-rule_enum_to_string one_by_one = refl
string_to_rule_enum-rule_enum_to_string change_by_time = refl
string_to_rule_enum-rule_enum_to_string force_only_one = refl
string_to_rule_enum-rule_enum_to_string inherit = refl
