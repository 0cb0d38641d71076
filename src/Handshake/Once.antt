-- ===== src/Handshake/Once.antt =====
-- The relay session hears of the end of a handshake at most once.
pub mod Handlers
pub mod Runs
use socks5balancer_asio.Prelude.{
  ℕ, suc, ◌+◌, ◌≤◌, ◌≡◌, ◌⊎◌, refl, ap, ◌∙◌, Bool, true, false, ◌||◌, List, [], ◌∷◌, ◌++◌, Option,
  none, some, Bytes, if◌then◌else◌, arith, ltb, inl, inr, Option-cases, Bool-cases, length,
}
use socks5balancer_asio.Handshake.State.{
  State, Env, Op, Call, when_complete_called, when_error_called, initial, first_read, begin, call,
}
use socks5balancer_asio.Handshake.Complete.{
  fail, do_when_error, do_when_complete, check_when_complete, do_when_complete_up,
  do_when_complete_down, do_when_up_end, do_when_down_end,
}

abbrev one : Bool → ℕ
one true = 1
one false = 0

abbrev is_end : Call → Bool
is_end when_complete_called = true
is_end when_error_called = true
is_end _ = false

-- How often the session was called back.
abbrev pub ends : List Call → ℕ
ends [] = 0
ends (c ∷ cs) = one (is_end c) + ends cs

abbrev pub was_completed : List Call → Bool
was_completed [] = false
was_completed (when_complete_called ∷ cs) = true
was_completed (_ ∷ cs) = was_completed cs

-- The parts of the state that decide about callbacks.
pub record Watched : Type 0 where
  pub session : Bool
  pub complete : Bool
  pub error : Bool
  pub up : Bool
  pub down : Bool
  pub calls : List Call

abbrev pub watched : State → Watched
watched s = record {
  session = s.tcp_relay_session;
  complete = s.when_complete;
  error = s.when_error;
  up = s.complete_up;
  down = s.complete_down;
  calls = s.calls;
}

pub record IsOnce (w : Watched) : Type 0 where
  -- the session is held exactly as long as both callbacks are
  pub held : w.session ≡ w.error
  pub together : w.complete ≡ w.error
  -- one callback was made, or one is left
  pub budget : ends w.calls + one w.error ≡ 1
  -- completion was reported only with both sides complete
  pub justified : (was_completed w.calls ≡ false) ⊎ ((w.up ≡ true) × (w.down ≡ true))

ends-append : (cs ds : List Call) → ends (cs ++ ds) ≡ ends cs + ends ds
ends-append [] ds = omega arith
ends-append (c ∷ cs) ds = omega (arith, ends-append cs ds)

was_completed-append :
    (cs ds : List Call) → was_completed (cs ++ ds) ≡ (was_completed cs || was_completed ds)
was_completed-append [] ds = refl
was_completed-append (when_complete_called ∷ cs) ds = refl
was_completed-append (_ ∷ cs) ds = was_completed-append cs ds

abbrev pub Keeps : (State → State) → Type 0
Keeps f = (s : State) → IsOnce (watched s) → IsOnce (watched (f s))

pub fail-IsOnce : Keeps fail
unfolding fail do_when_error
fail-IsOnce s v = ground (
  arith,
  ends-append s.calls (when_error_called ∷ []),
  was_completed-append s.calls (when_error_called ∷ []),
)

-- Another entry in `calls` that is no callback.
pub noted :
    (c : Call) (s : State) → is_end c ≡ false → IsOnce (watched s) → IsOnce (watched (call c s))
noted c s e v = ground (arith, ends-append s.calls (c ∷ []), was_completed-append s.calls (c ∷ []))

pub check_when_complete-IsOnce : Keeps check_when_complete
unfolding check_when_complete do_when_complete
check_when_complete-IsOnce s v = ground (
  arith,
  fail-IsOnce s v,
  ends-append s.calls (when_complete_called ∷ []),
  was_completed-append s.calls (when_complete_called ∷ []),
)

pub do_when_complete_up-IsOnce : Keeps do_when_complete_up
unfolding do_when_complete_up
do_when_complete_up-IsOnce s v = ground (
  arith,
  fail-IsOnce s v,
  check_when_complete-IsOnce (record s { complete_up = true }) (ground arith),
)

pub do_when_complete_down-IsOnce : Keeps do_when_complete_down
unfolding do_when_complete_down
do_when_complete_down-IsOnce s v = ground (
  arith,
  fail-IsOnce s v,
  check_when_complete-IsOnce (record s { complete_down = true }) (ground arith),
)

pub do_when_down_end-IsOnce : (error : Bool) → Keeps (do_when_down_end error)
unfolding do_when_down_end
do_when_down_end-IsOnce true s v =
    do_when_complete_down-IsOnce (record s { complete_down_error = true }) v
do_when_down_end-IsOnce false s v = do_when_complete_down-IsOnce s v

pub do_when_up_end-IsOnce : Keeps do_when_up_end
unfolding do_when_up_end
do_when_up_end-IsOnce s v = do_when_complete_up-IsOnce s v
