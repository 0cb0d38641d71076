-- ===== src/Relay/Statistics/Sessions.antt =====
-- `SessionInfo`, and the container of sessions as its documentation describes it: a sequence with
-- unique keys, in which an element that clashes with one already there is not inserted.
use socks5balancer_asio.Prelude.{
  ℕ, ◌≡◌, Bool, false, not, ◌&&◌, ◌||◌, List, [], ◌∷◌, ◌++◌, Option, none, some, Bytes, bytes_eq,
  length, ◌==◌, if◌then◌else◌,
}
use socks5balancer_asio.Relay.State.{TcpRelaySession}

-- `raw_ptr` and `ptr` are the session's identity, its relay id.
pub record SessionInfo : Type 0 where
  pub upstream_index : ℕ
  pub client_endpoint_addr_port_string : Bytes
  pub listen_endpoint_addr_string : Bytes
  pub raw_ptr : ℕ
  pub start_time : ℕ
  pub host : Bytes
  pub post : ℕ
  pub target_endpoint_addr_string : Bytes
  pub auth_user_id : ℕ

unfoldable pub get_target_endpoint_addr : TcpRelaySession → Bytes × ℕ
get_target_endpoint_addr s = elim s.first_pack_analyzer [
  | none ↦ ([], 0)
  | some p ↦ (p.host, p.port)
]

unfoldable pub update_target_info : TcpRelaySession → SessionInfo → SessionInfo
unfolding get_target_endpoint_addr
update_target_info s a = record a {
  host = (get_target_endpoint_addr s).0;
  post = (get_target_endpoint_addr s).1;
  target_endpoint_addr_string = s.target_endpoint_addr_string;
  auth_user_id = elim s.auth_user [ none ↦ a.auth_user_id | some au ↦ au.id ];
}

-- The constructor, which reads the index of the session's server: `none` where there is none.
unfoldable pub session_info : TcpRelaySession → ℕ → Option SessionInfo
unfolding update_target_info
session_info s now = elim s.now_server [
  | none ↦ none
  | some index ↦ some (
      update_target_info s (record {
        upstream_index = index;
        client_endpoint_addr_port_string = s.client_endpoint_addr_port_string;
        listen_endpoint_addr_string = s.listen_endpoint_addr_string;
        raw_ptr = s.relay_id;
        start_time = now;
        host = [];
        post = 0;
        target_endpoint_addr_string = [];
        auth_user_id = 0;
      }))
]

abbrev pub is_pair : Bytes → Bytes → SessionInfo → Bool
is_pair client listen a =
    bytes_eq a.client_endpoint_addr_port_string client
    && bytes_eq a.listen_endpoint_addr_string listen

-- The unique indices: the whole key, the pair of addresses, the session.
abbrev pub clashes : SessionInfo → SessionInfo → Bool
clashes a b =
    is_pair a.client_endpoint_addr_port_string a.listen_endpoint_addr_string b
    || a.raw_ptr == b.raw_ptr

abbrev pub clashes_any : SessionInfo → List SessionInfo → Bool
clashes_any a [] = false
clashes_any a (b ∷ bs) = clashes a b || clashes_any a bs

-- The element with an address pair is changed; there is one at most.
abbrev pub modified :
    Bytes → Bytes → (SessionInfo → SessionInfo) → List SessionInfo → List SessionInfo
modified client listen f [] = []
modified client listen f (a ∷ rest) =
    let more = modified client listen f rest in
    if is_pair client listen a then f a ∷ rest else a ∷ more

abbrev pub filter : (SessionInfo → Bool) → List SessionInfo → List SessionInfo
filter test [] = []
filter test (a ∷ rest) = let kept = filter test rest in if test a then a ∷ kept else kept

pub record SessionInfoContainer : Type 1 where
  pub Container : Type 0
  pub empty : Container
  pub emplace_back : Container → SessionInfo → Container
  -- the element at a place, by an iterator
  pub erase : ℕ → Container → Container
  -- `find` and `modify` on the index of the address pairs
  pub modify_pair : Bytes → Bytes → (SessionInfo → SessionInfo) → Container → Container
  pub remove_if : (SessionInfo → Bool) → Container → Container
  pub size : Container → ℕ
  -- the elements in the order of insertion
  pub to_list : Container → List SessionInfo
  pub to_list-empty : to_list empty ≡ []
  pub to_list-emplace_back :
      (c : Container) (a : SessionInfo)
      → to_list (emplace_back c a)
        ≡ (if clashes_any a (to_list c) then to_list c else to_list c ++ a ∷ [])
  pub to_list-remove_if :
      (test : SessionInfo → Bool) (c : Container)
      → to_list (remove_if test c) ≡ filter (λ a. not (test a)) (to_list c)
  pub to_list-erase :
      (before after : List SessionInfo) (a : SessionInfo) (c : Container)
      → to_list c ≡ before ++ a ∷ after
      → to_list (erase (length before) c) ≡ before ++ after
  -- as long as no key changes
  pub to_list-modify_pair :
      (client listen : Bytes) (f : SessionInfo → SessionInfo) (c : Container)
      → ((a : SessionInfo) → clashes (f a) ≡ clashes a)
      → to_list (modify_pair client listen f c) ≡ modified client listen f (to_list c)
  pub size_lem : (c : Container) → size c ≡ length (to_list c)
