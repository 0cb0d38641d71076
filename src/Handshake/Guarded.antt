-- ===== src/Handshake/Guarded.antt =====
-- With authentication demanded, a SOCKS client reaches the upstream server only as a known user.
pub mod Handlers
pub mod Logins
pub mod Runs
use socks5balancer_asio.Prelude.{
  ℕ, ◌≡◌, refl, Bool, true, false, not, ◌&&◌, ◌||◌, List, [], ◌∷◌, ◌++◌, Option, none, some, Bytes,
  is_some, if◌then◌else◌, arith, inl, inr, Bool-cases, Option-cases,
}
use socks5balancer_asio.Auth.Users.{AuthUser}
use socks5balancer_asio.Handshake.State.{
  State, Env, Op, Call, null_session, begin, call, when_complete_called, when_error_called,
  first_read, http_read, http_407, http_failed, auth_client_write, auth_client_read,
  auth_client_error, handshake_client_header_error, handshake_client_end_error,
  socks4_client_end_error,
}
use socks5balancer_asio.Handshake.Complete.{
  fail, do_when_error, do_when_complete, check_when_complete, do_when_complete_up,
  do_when_complete_down, do_when_up_end, do_when_down_end,
}

-- The operations that a client reaches before it is known.
abbrev pub is_open : Op → Bool
is_open first_read = true
is_open http_read = true
is_open http_407 = true
is_open http_failed = true
is_open auth_client_write = true
is_open auth_client_read = true
is_open auth_client_error = true
is_open handshake_client_header_error = true
is_open (handshake_client_end_error e) = true
is_open (socks4_client_end_error e) = true
is_open _ = false

abbrev pub all_open : List Op → Bool
all_open [] = true
all_open (op ∷ ops) = is_open op && all_open ops

abbrev pub uses_null : List Call → Bool
uses_null [] = false
uses_null (null_session ∷ cs) = true
uses_null (_ ∷ cs) = uses_null cs

-- The client is known, or the pointer of a released session was dereferenced, which is undefined.
abbrev pub is_known : State → Bool
is_known s = is_some s.auth_user || uses_null s.calls

-- No request of an unknown client was taken, and none is about to be.
abbrev pub is_guarded : State → Bool
is_guarded s = is_known s || (not s.ready_down && all_open s.pending)

abbrev pub KeepsKnown : (State → State) → Type 0
KeepsKnown f = (s : State) → is_known s ≡ true → is_known (f s) ≡ true

abbrev pub KeepsGuarded : (State → State) → Type 0
KeepsGuarded f = (s : State) → is_guarded s ≡ true → is_guarded (f s) ≡ true

pub uses_null-append : (cs ds : List Call) → uses_null (cs ++ ds) ≡ (uses_null cs || uses_null ds)
uses_null-append [] ds = refl
uses_null-append (null_session ∷ cs) ds = refl
uses_null-append (_ ∷ cs) ds = uses_null-append cs ds

pub all_open-append : (ops qs : List Op) → all_open (ops ++ qs) ≡ (all_open ops && all_open qs)
all_open-append [] qs = refl
all_open-append (op ∷ ops) qs = ground (arith, all_open-append ops qs)

-- What the callbacks leave alone.
pub record IsSame (s t : State) : Type 0 where
  pub user : t.auth_user ≡ s.auth_user
  pub null : uses_null t.calls ≡ uses_null s.calls
  pub ready : t.ready_down ≡ s.ready_down
  pub ops : t.pending ≡ s.pending

pub fail-IsSame : (s : State) → IsSame s (fail s)
unfolding fail do_when_error
fail-IsSame s = ground (arith, uses_null-append s.calls (when_error_called ∷ []))

pub check_when_complete-IsSame : (s : State) → IsSame s (check_when_complete s)
unfolding check_when_complete do_when_complete
check_when_complete-IsSame s =
    ground (arith, fail-IsSame s, uses_null-append s.calls (when_complete_called ∷ []))

pub do_when_complete_up-IsSame : (s : State) → IsSame s (do_when_complete_up s)
unfolding do_when_complete_up
do_when_complete_up-IsSame s =
    ground (arith, fail-IsSame s, check_when_complete-IsSame (record s { complete_up = true }))

pub do_when_complete_down-IsSame : (s : State) → IsSame s (do_when_complete_down s)
unfolding do_when_complete_down
do_when_complete_down-IsSame s =
    ground (arith, fail-IsSame s, check_when_complete-IsSame (record s { complete_down = true }))

pub do_when_down_end-IsSame : (error : Bool) (s : State) → IsSame s (do_when_down_end error s)
unfolding do_when_down_end
do_when_down_end-IsSame true s =
    let v = do_when_complete_down-IsSame (record s { complete_down_error = true }) in
    record { user = v.user; null = v.null; ready = v.ready; ops = v.ops }
do_when_down_end-IsSame false s = do_when_complete_down-IsSame s

pub do_when_up_end-IsSame : (s : State) → IsSame s (do_when_up_end s)
unfolding do_when_up_end
do_when_up_end-IsSame s = do_when_complete_up-IsSame s
