-- ===== src/Tests/Sessions.antt =====
-- The container of sessions as a list.
use socks5balancer_asio.Prelude.{
  ℕ, zero, suc, ◌≡◌, ap, refl, not, List, [], ◌∷◌, ◌++◌, length, if◌then◌else◌,
}
use socks5balancer_asio.Relay.Statistics.Sessions.{
  SessionInfo, SessionInfoContainer, filter, modified, clashes_any,
}

abbrev pub erased : ℕ → List SessionInfo → List SessionInfo
erased i [] = []
erased zero (a ∷ rest) = rest
erased (suc i) (a ∷ rest) = a ∷ erased i rest

pub erased_lem :
    (before after : List SessionInfo) (a : SessionInfo) (c : List SessionInfo)
    → c ≡ before ++ a ∷ after
    → erased (length before) c ≡ before ++ after
erased_lem [] after a c e = rw e refl
erased_lem (b ∷ before) after a c e =
    rw e (ap (◌∷◌ b) (erased_lem before after a (before ++ a ∷ after) refl))

abbrev pub session_list : SessionInfoContainer
session_list = record {
  Container = List SessionInfo;
  empty = [];
  emplace_back = λ c a. if clashes_any a c then c else c ++ a ∷ [];
  erase = λ i c. erased i c;
  modify_pair = modified;
  remove_if = λ test c. filter (λ a. not (test a)) c;
  size = length;
  to_list = λ c. c;
  to_list-empty = refl;
  to_list-emplace_back = λ c a. refl;
  to_list-remove_if = λ test c. refl;
  to_list-erase = erased_lem;
  to_list-modify_pair = λ client listen f c h. refl;
  size_lem = λ c. refl;
}
