-- ===== src/Tests/Auth.antt =====
-- The users at concrete inputs.
use socks5balancer_asio.Prelude.{◌≡◌, refl, not, List, [], ◌∷◌, some, is_empty}
use socks5balancer_asio.Config.{AuthClientInfo}
use socks5balancer_asio.Auth.Users.{AuthUser, IsIn}
use socks5balancer_asio.Auth.Manager.{
  init_user_info, init_loop, need_auth, check_auth, check_auth_user_only,
}
use socks5balancer_asio.Auth.Checks.{
  check_auth_sound, check_auth_user_only_sound, need_auth-init_user_info,
}
use socks5balancer_asio.Tests.Users.{users}

abbrev ann : AuthClientInfo
ann = record { user = b'a' ∷ []; pwd = b'p' ∷ []; base64_auth_string = b'x' ∷ [] }

abbrev bob : AuthClientInfo
bob = record { user = b'b' ∷ []; pwd = b'q' ∷ []; base64_auth_string = b'y' ∷ [] }

abbrev bob_user : AuthUser
bob_user = record { id = 2; user = b'b' ∷ []; pwd = b'q' ∷ []; base64 = b'y' ∷ [] }

abbrev infos : List AuthClientInfo
infos = ann ∷ bob ∷ []

bob_checked : check_auth (init_user_info users infos) (b'b' ∷ []) (b'q' ∷ []) ≡ some bob_user
unfolding check_auth init_user_info init_loop
bob_checked = refl

bob_named : check_auth_user_only (init_user_info users infos) (b'b' ∷ []) ≡ some bob_user
unfolding check_auth_user_only init_user_info init_loop
bob_named = refl

check_auth_sound_example :
    (a : AuthClientInfo) × IsIn a infos × (a.user ≡ b'b' ∷ []) × (a.pwd ≡ b'q' ∷ [])
check_auth_sound_example = check_auth_sound users infos (b'b' ∷ []) (b'q' ∷ []) bob_user bob_checked

check_auth_user_only_sound_example : (a : AuthClientInfo) × IsIn a infos × (a.user ≡ b'b' ∷ [])
check_auth_user_only_sound_example =
    check_auth_user_only_sound users infos (b'b' ∷ []) bob_user bob_named

need_auth-init_user_info_example : need_auth (init_user_info users infos) ≡ not (is_empty infos)
need_auth-init_user_info_example = need_auth-init_user_info users infos
