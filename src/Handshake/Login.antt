-- ===== src/Handshake/Login.antt =====
-- The user name and password, as Socks5ClientImpl writes them and Socks5ServerImpl reads them.
use socks5balancer_asio.Prelude.{
  ℕ, suc, ◌+◌, ◌%◌, ◌<◌, ◌≡◌, refl, [], ◌∷◌, ◌++◌, Option, none, some, Bytes, length, take, drop,
  length-append, arith,
}
use socks5balancer_asio.Auth.Users.{AuthUser}
use socks5balancer_asio.Handshake.State.{State, Env, auth_client_ok, auth_client_error, begin, at}
use socks5balancer_asio.Handshake.Client.{auth_message}
use socks5balancer_asio.Handshake.Server5.{set_auth_user, on_auth_client_read}
use socks5balancer_asio.Handshake.Bytes.{take_exact, at-append_length, take_all}

-- The server's answer to a checked login.
abbrev pub answered : Option AuthUser → State → State
answered none s = begin auth_client_error s
answered (some au) s = begin auth_client_ok (set_auth_user au s)

drop_past : (xs : Bytes) (p : ℕ) (ys : Bytes) → drop (suc (length xs)) (xs ++ p ∷ ys) ≡ ys
drop_past [] p ys = refl
drop_past (x ∷ xs) p ys = drop_past xs p ys

module _ (user pwd : Bytes) where
  -- The message with its length bytes written out.
  abbrev message : Bytes
  message = 0x01 ∷ length user ∷ (user ++ length pwd ∷ pwd)

  pwd_length : at message (2 + length user) ≡ length pwd
  pwd_length =
      let e : 2 + length user ≡ suc (suc (length user)) = omega arith in
      rw e (at-append_length user (length pwd) pwd)

  pwd_field : take (length pwd) (drop (2 + length user + 1) message) ≡ pwd
  pwd_field =
      let e : 2 + length user + 1 ≡ suc (suc (suc (length user))) = omega arith in
      rw (e, drop_past user (length pwd) pwd) (take_all pwd)

  user_field : take (length user) (drop 2 message) ≡ user
  user_field = take_exact (length user) user (length pwd ∷ pwd) refl

  message-length : length message ≡ 2 + length user + 1 + length pwd
  message-length = omega (arith, length-append user (length pwd ∷ pwd))

  auth_message_lem : length user < 256 → length pwd < 256 → auth_message user pwd ≡ message
  unfolding auth_message
  auth_message_lem u p =
      let e : length user % 256 ≡ length user = omega arith in
      let f : length pwd % 256 ≡ length pwd = omega arith in rw (e, f)

-- A name and a password of 1 to 255 bytes each, in the message that the client side of this program
-- writes, are read by its server side as exactly that name and password, and answered by the check.
pub on_auth_client_read-auth_message :
    (env : Env) (user pwd : Bytes) (s : State)
    → 0 < length user
    → length user < 256
    → 0 < length pwd
    → length pwd < 256
    → on_auth_client_read env (auth_message user pwd) s ≡ answered (env.check_auth user pwd) s
unfolding on_auth_client_read
on_auth_client_read-auth_message env user pwd s u0 u1 p0 p1 = rw (auth_message_lem user pwd u1 p1) (
    ground (
      arith,
      pwd_length user pwd,
      pwd_field user pwd,
      user_field user pwd,
      message-length user pwd,
    ))
