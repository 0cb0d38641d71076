-- ===== src/Auth/Manager.antt =====
-- The methods of `AuthClientManager`. A null user is `none`.
use socks5balancer_asio.Prelude.{ℕ, suc, Bool, not, List, [], ◌∷◌, Option, Bytes, is_some}
use socks5balancer_asio.Config.{AuthClientInfo}
use socks5balancer_asio.Auth.Users.{AuthUser, AuthInfoContainer}

pub record AuthClientManager (ic : AuthInfoContainer) : Type 0 where
  pub last_id : ℕ
  pub auth_info : ic.Container

-- The loop of `initUserInfo`; the id is counted before it is used.
unfoldable pub init_loop :
    (ic : AuthInfoContainer) → AuthClientManager ic → List AuthClientInfo → AuthClientManager ic
init_loop ic m [] = m
init_loop ic m (a ∷ as') =
    init_loop ic
      (record m {
        last_id = suc m.last_id;
        auth_info = ic.emplace_back m.auth_info (record {
          id = suc m.last_id;
          user = a.user;
          pwd = a.pwd;
          base64 = a.base64_auth_string;
        });
      })
      as'

-- The constructor, which calls `initUserInfo`.
unfoldable pub init_user_info :
    (ic : AuthInfoContainer) → List AuthClientInfo → AuthClientManager ic
unfolding init_loop
init_user_info ic infos = init_loop ic (record { last_id = 0; auth_info = ic.empty }) infos

module _ {ic : AuthInfoContainer} where
  unfoldable pub need_auth : AuthClientManager ic → Bool
  need_auth m = not (ic.is_empty_container m.auth_info)

  unfoldable pub have_auth_user : AuthClientManager ic → Bytes → Bool
  have_auth_user m user = is_some (ic.find_user m.auth_info user)

  unfoldable pub check_auth_user_only : AuthClientManager ic → Bytes → Option AuthUser
  check_auth_user_only m user = ic.find_user m.auth_info user

  unfoldable pub check_auth : AuthClientManager ic → Bytes → Bytes → Option AuthUser
  check_auth m user pwd = ic.find_user_pwd m.auth_info user pwd

  unfoldable pub check_auth_base64_auth_string : AuthClientManager ic → Bytes → Option AuthUser
  check_auth_base64_auth_string m text = ic.find_base64 m.auth_info text

  unfoldable pub get_by_id : AuthClientManager ic → ℕ → Option AuthUser
  get_by_id m id = ic.find_id m.auth_info id
