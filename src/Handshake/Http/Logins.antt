-- ===== src/Handshake/Http/Logins.antt =====
-- HttpServerImpl.cpp: a login in an authorization field.
use socks5balancer_asio.Prelude.{ℕ, ◌≡◌, ◌⊎◌, ◌∷◌, ◌++◌, Option, none, some, Bytes}
use socks5balancer_asio.Auth.Users.{AuthUser}
use socks5balancer_asio.Handshake.State.{State, Env, HttpHeader, http_407, begin}
use socks5balancer_asio.Handshake.Server5.{set_auth_user}
use socks5balancer_asio.Handshake.Http.{take_request}

-- The text of a login, which base64 encodes.
abbrev pub login : Bytes → Bytes → Bytes
login name pwd = name ++ b':' ∷ pwd

-- What a checked client gets for its request.
abbrev pub answered : Env → HttpHeader → ℕ → State → Option AuthUser → State
answered env h blank s none = begin http_407 s
answered env h blank s (some au) = take_request env h blank (set_auth_user au s)

-- The field that is read: `Proxy-Authorization`, or `Authorization` where that is missing.
abbrev pub IsField : HttpHeader → Bytes → Type 0
IsField h value =
    (h.proxy_authorization ≡ some value)
    ⊎ ((h.proxy_authorization ≡ none) × (h.authorization ≡ some value))
