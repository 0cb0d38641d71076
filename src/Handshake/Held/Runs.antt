-- ===== src/Handshake/Held/Runs.antt =====
-- The session over a whole handshake.
use socks5balancer_asio.Prelude.{
  ℕ, ◌≡◌, ◌⊎◌, refl, sym, subst, Bool, true, false, List, [], ◌∷◌, ◌++◌, some, inl, inr, Bytes,
  arith, length, ◌-◌, Bool-cases,
}
use socks5balancer_asio.Auth.Users.{AuthUser}
use socks5balancer_asio.Handshake.State.{
  State, Env, Op, initial, at, first_read, auth_client_write, auth_client_read, auth_client_ok,
  auth_client_error, handshake_client_write, handshake_client_read, handshake_client_header_error,
  handshake_client_end_error, handshake_client_end, socks4_client_end_error, socks4_client_end,
  socks5_handshake_write, socks5_handshake_read, socks5_auth_write, socks5_auth_read,
  socks5_connect_write, socks5_connect_read,
}
use socks5balancer_asio.Handshake.Complete.{fail, do_when_up_end}
use socks5balancer_asio.Handshake.Ready.{
  do_when_up_ready, do_when_up_ready_error, on_socks5_connect_read, read_bind,
}
use socks5balancer_asio.Handshake.Http.{on_http_read}
use socks5balancer_asio.Handshake.State.{http_read, http_407, http_established, http_failed}
use socks5balancer_asio.Handshake.Run.{
  start, on_written, resume_write, on_read, resume_read, taken, Step, Reach, writes, reads, begins,
  steps,
}
use socks5balancer_asio.Handshake.Guarded.{
  uses_null, IsSame, fail-IsSame, do_when_down_end-IsSame, do_when_up_end-IsSame,
}
use socks5balancer_asio.Handshake.Guarded.Runs.{Reach-known}
use socks5balancer_asio.Handshake.Held.{
  is_early, is_single_early, is_late, is_held, KeepsLate, IsFresh, no_early-append,
}
use socks5balancer_asio.Handshake.Held.Handlers.{
  handshake_read_late, auth_read_late, handshake_client_read_late, up_ready_late,
  up_ready_error_late,
}
use socks5balancer_asio.Handshake.Held.Logins.{
  http_header_held, late_held, fail_late, fail_held, begin_held, first_read_held,
  auth_client_read_held,
}

IsSame-late : (s t : State) → IsSame s t → is_late s ≡ true → is_late t ≡ true
IsSame-late s t e v = ground (arith, e.null, e.ops)

connect_read_late : (b : Bytes) → KeepsLate (on_socks5_connect_read b)
unfolding on_socks5_connect_read
connect_read_late b s v =
    let s' : State = record s {
      bind_port = at b (length b - 2) ∷ at b (length b - 1) ∷ [];
      bind_host = read_bind b;
    } in
    let bad : State = do_when_up_ready_error s in
    let good : State = do_when_up_ready s' in
    ground (
      arith,
      fail-IsSame s,
      IsSame-late bad (do_when_up_end bad) (do_when_up_end-IsSame bad) (up_ready_error_late s v),
      IsSame-late good (do_when_up_end good) (do_when_up_end-IsSame good) (up_ready_late s' v),
    )

written_late : (op : Op) → is_early op ≡ false → KeepsLate (on_written op)
unfolding on_written
written_late auth_client_error o s v = IsSame-late s _ (do_when_down_end-IsSame true s) v
written_late handshake_client_header_error o s v =
    IsSame-late s _ (do_when_down_end-IsSame true s) v
written_late (handshake_client_end_error e) o s v =
    IsSame-late s _ (do_when_down_end-IsSame true s) v
written_late (handshake_client_end b) o s v = IsSame-late s _ (do_when_down_end-IsSame false s) v
written_late (socks4_client_end_error e) o s v = IsSame-late s _ (do_when_down_end-IsSame true s) v
written_late http_established o s v = IsSame-late s _ (do_when_down_end-IsSame false s) v
written_late http_failed o s v = IsSame-late s _ (fail-IsSame s) v
written_late http_407 o s v = cc
written_late socks4_client_end o s v = IsSame-late s _ (do_when_down_end-IsSame false s) v
written_late auth_client_ok o s v =
    ground (arith, no_early-append s.pending (handshake_client_read ∷ []))
written_late handshake_client_write o s v =
    ground (arith, no_early-append s.pending (handshake_client_read ∷ []))
written_late (socks5_handshake_write b) o s v =
    ground (arith, no_early-append s.pending (socks5_handshake_read ∷ []))
written_late (socks5_auth_write b) o s v =
    ground (arith, no_early-append s.pending (socks5_auth_read ∷ []))
written_late (socks5_connect_write b) o s v =
    ground (arith, no_early-append s.pending (socks5_connect_read ∷ []))
written_late auth_client_write o s v = cc
written_late _ o s v = v

read_late : (env : Env) (op : Op) (b : Bytes) → is_early op ≡ false → KeepsLate (on_read env op b)
unfolding on_read on_http_read
read_late env first_read b o s v = cc
read_late env http_read b o s v = cc
read_late env auth_client_read b o s v = cc
read_late env handshake_client_read b o s v = handshake_client_read_late env b s v
read_late env socks5_handshake_read b o s v = handshake_read_late env b s v
read_late env socks5_auth_read b o s v = auth_read_late env b s v
read_late env socks5_connect_read b o s v = connect_read_late b s v
read_late env _ b o s v = v

written_held :
    (op : Op) (s : State) → is_early op ≡ true → IsFresh s → is_held (on_written op s) ≡ true
unfolding on_written
written_held auth_client_write s o f = begin_held auth_client_read s f
written_held http_407 s o f = begin_held http_read s f
written_held http_read s o f = rw f.empty (ground (arith, f.clean))
written_held first_read s o f = rw f.empty (ground (arith, f.clean))
written_held auth_client_read s o f = rw f.empty (ground (arith, f.clean))
written_held _ s o f = cc

read_held :
    (env : Env) (op : Op) (b : Bytes) (s : State)
    → is_early op ≡ true
    → IsFresh s
    → is_held (on_read env op b s) ≡ true
unfolding on_read on_http_read
read_held env first_read b s o f = first_read_held env b s f
read_held env auth_client_read b s o f = auth_client_read_held env b s f
read_held env http_read b s o f =
    http_header_held env (record s { downstream_buf = s.downstream_buf ++ b })
      (record { empty = f.empty; session = f.session; clean = f.clean })
read_held env http_407 b s o f = rw f.empty (ground (arith, f.clean))
read_held env auth_client_write b s o f = rw f.empty (ground (arith, f.clean))
read_held env _ b s o f = cc

resume_write_late :
    (op : Op) (ec : Bool) (n : ℕ) → is_early op ≡ false → KeepsLate (resume_write op ec n)
unfolding resume_write
resume_write_late op ec n o s v = ground (arith, fail_late s v, written_late op o s v)

resume_read_late :
    (env : Env) (op : Op) (ec : Bool) (b : Bytes)
    → is_early op ≡ false
    → KeepsLate (resume_read env op ec b)
unfolding resume_read
resume_read_late env op true b o s v = fail_late s v
resume_read_late env op false b o s v = read_late env op b o s v

-- A write is answered by a failure or by what follows it.
resume_write_cases :
    (P : State → Type 0) (op : Op) (ec : Bool) (n : ℕ) (s : State)
    → P (fail s)
    → P (on_written op s)
    → P (resume_write op ec n s)
unfolding resume_write
resume_write_cases P op ec n s bad good = ground (arith, bad, good)

resume_read_held :
    (env : Env) (op : Op) (ec : Bool) (b : Bytes) (s : State)
    → is_early op ≡ true
    → IsFresh s
    → is_held (resume_read env op ec b s) ≡ true
unfolding resume_read
resume_read_held env op true b s o f = fail_held s f
resume_read_held env op false b s o f = read_held env op b s o f

single-append :
    (before after : List Op) (op : Op)
    → is_single_early (before ++ op ∷ after) ≡ true
    → (before ≡ []) × (after ≡ [])
single-append [] [] op e = (refl, refl)
single-append [] (q ∷ after) op e = cc
single-append (q ∷ []) after op e = cc
single-append (q ∷ r ∷ before) after op e = cc

-- What is pending when an operation completes.
taken_cases :
    (s : State) (before after : List Op) (op : Op)
    → s.pending ≡ before ++ op ∷ after
    → is_held s ≡ true
    → ((is_early op ≡ false) × (is_late (taken s before after) ≡ true))
      ⊎ ((is_early op ≡ true) × IsFresh (taken s before after))
taken_cases s before after op p v = elim (Bool-cases (is_late s)) [
  | inl late ↦ inl (
    ground (arith, late, p, no_early-append before (op ∷ after)),
    ground (arith, late, p, no_early-append before (op ∷ after), no_early-append before after),
  )
  | inr early ↦
      let single : is_single_early (before ++ op ∷ after) ≡ true =
        subst (λ l. is_single_early l ≡ true) p (ground (arith, early, v)) in
      let (b, a) = single-append before after op single in
      inr (
        subst (λ l. is_single_early (l ++ op ∷ []) ≡ true) b
            (subst (λ l. is_single_early (before ++ op ∷ l) ≡ true) a single),
        record {
          empty = rw (b, a) refl;
          session = ground (arith, early, v);
          clean = ground (arith, early, v);
        },
      )
]

Step-held : (env : Env) {s t : State} → Step env s t → is_held s ≡ true → is_held t ≡ true
Step-held env (writes s before after op ec n p w) v =
    let s' : State = taken s before after in
    elim (taken_cases s before after op p v) [
      | inl (o, l) ↦ late_held (resume_write op ec n s') (resume_write_late op ec n o s' l)
      | inr (o, f) ↦
          resume_write_cases (λ t. is_held t ≡ true) op ec n s' (fail_held s' f)
            (written_held op s' o f)
    ]
Step-held env (reads s before after op ec b p w) v =
    let s' : State = taken s before after in
    elim (taken_cases s before after op p v) [
      | inl (o, l) ↦ late_held (resume_read env op ec b s') (resume_read_late env op ec b o s' l)
      | inr (o, f) ↦ resume_read_held env op ec b s' o f
    ]

begins_held : is_held (start initial) ≡ true
unfolding start initial
begins_held = refl

Reach-held : (env : Env) (s : State) → Reach env s → is_held s ≡ true
Reach-held env s (begins _ e) = subst (λ x. is_held x ≡ true) (sym e) begins_held
Reach-held env t (steps {s = s} r step) = Step-held env step (Reach-held env s r)

held_clean : (s : State) → is_held s ≡ true → uses_null s.calls ≡ false
held_clean s v = ground arith

-- In whatever order the operations complete and whatever they bring: wherever a handler stores a
-- user through the handshake's pointer to the relay session, the pointer has not been reset.
pub Reach-clean : (env : Env) (s : State) → Reach env s → uses_null s.calls ≡ false
Reach-clean env s r = held_clean s (Reach-held env s r)

-- With authentication demanded, in whatever order the operations complete and whatever they bring:
-- once the handshake has taken a client's request and turned to the upstream server, a user is stored
-- for the client.
pub Reach-authenticated :
    (env : Env) (s : State)
    → env.need_auth ≡ true
    → Reach env s
    → s.ready_down ≡ true
    → (u : AuthUser) × (s.auth_user ≡ some u)
Reach-authenticated env s need r d = elim (Reach-known env s need r d) [
  | inl known ↦ known
  | inr null ↦ absurd (cc (null, Reach-clean env s r))
]
