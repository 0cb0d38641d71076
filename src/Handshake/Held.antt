-- ===== src/Handshake/Held.antt =====
-- No user is stored through the pointer to the relay session after its reset.
pub mod Cases
pub mod Handlers
pub mod Logins
pub mod Runs
use socks5balancer_asio.Prelude.{
  ◌≡◌, refl, Bool, true, false, not, ◌&&◌, ◌||◌, List, [], ◌∷◌, ◌++◌, arith,
}
use socks5balancer_asio.Handshake.State.{
  State, Op, first_read, http_read, http_407, auth_client_write, auth_client_read,
}
use socks5balancer_asio.Handshake.Guarded.{uses_null}

-- The operations from which the handshake still goes on to store a user.
abbrev pub is_early : Op → Bool
is_early first_read = true
is_early http_read = true
is_early http_407 = true
is_early auth_client_write = true
is_early auth_client_read = true
is_early _ = false

abbrev pub no_early : List Op → Bool
no_early [] = true
no_early (op ∷ ops) = not (is_early op) && no_early ops

abbrev pub is_single_early : List Op → Bool
is_single_early [] = false
is_single_early (op ∷ []) = is_early op
is_single_early (op ∷ q ∷ ops) = false

abbrev pub is_late : State → Bool
is_late s = no_early s.pending && not (uses_null s.calls)

-- An early operation is pending alone and with the session held.
abbrev pub is_held : State → Bool
is_held s =
    is_late s || (is_single_early s.pending && s.tcp_relay_session && not (uses_null s.calls))

abbrev pub KeepsLate : (State → State) → Type 0
KeepsLate f = (s : State) → is_late s ≡ true → is_late (f s) ≡ true

-- An early operation was just taken out.
pub record IsFresh (s : State) : Type 0 where
  pub empty : s.pending ≡ []
  pub session : s.tcp_relay_session ≡ true
  pub clean : uses_null s.calls ≡ false

pub no_early-append : (ops qs : List Op) → no_early (ops ++ qs) ≡ (no_early ops && no_early qs)
no_early-append [] qs = refl
no_early-append (op ∷ ops) qs = ground (arith, no_early-append ops qs)
