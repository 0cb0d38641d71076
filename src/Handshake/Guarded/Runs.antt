-- ===== src/Handshake/Guarded/Runs.antt =====
-- Whole handshakes with authentication demanded.
use socks5balancer_asio.Prelude.{
  ℕ, ◌≡◌, refl, sym, subst, Bool, true, false, List, [], ◌∷◌, ◌++◌, some, inl, inr, Bytes, arith,
  length, ◌-◌, Bool-cases, Option-cases, ◌⊎◌,
}
use socks5balancer_asio.Auth.Users.{AuthUser}
use socks5balancer_asio.Handshake.State.{
  State, Env, Op, initial, at, first_read, auth_client_write, auth_client_read, auth_client_error,
  handshake_client_read, handshake_client_header_error, handshake_client_end_error,
  handshake_client_end, socks4_client_end_error, socks4_client_end, socks5_handshake_read,
  socks5_auth_read, socks5_connect_read,
}
use socks5balancer_asio.Handshake.Complete.{do_when_up_end}
use socks5balancer_asio.Handshake.Ready.{
  do_when_up_ready, do_when_up_ready_error, on_socks5_connect_read, read_bind,
}
use socks5balancer_asio.Handshake.Http.{on_http_read}
use socks5balancer_asio.Handshake.State.{http_read, http_407, http_established, http_failed}
use socks5balancer_asio.Handshake.Run.{
  start, on_written, resume_write, on_read, resume_read, taken, Step, Reach, writes, reads, begins,
  steps,
}
use socks5balancer_asio.Handshake.Guarded.{
  is_open, uses_null, is_known, is_guarded, KeepsKnown, KeepsGuarded, all_open-append, IsSame,
  fail-IsSame, do_when_down_end-IsSame, do_when_up_end-IsSame,
}
use socks5balancer_asio.Handshake.Guarded.Handlers.{
  handshake_read_known, auth_read_known, handshake_client_read_known, up_ready_known,
  up_ready_error_known, open_more, fail_guarded,
}
use socks5balancer_asio.Handshake.Guarded.Logins.{
  http_header_guarded, first_read_guarded, auth_client_read_guarded,
}

IsSame-known : (s t : State) → IsSame s t → is_known s ≡ true → is_known t ≡ true
IsSame-known s t e v = ground (arith, e.user, e.null)

IsSame-guarded : (s t : State) → IsSame s t → is_guarded s ≡ true → is_guarded t ≡ true
IsSame-guarded s t e v = ground (arith, e.user, e.null, e.ready, e.ops)

connect_read_known : (b : Bytes) → KeepsKnown (on_socks5_connect_read b)
unfolding on_socks5_connect_read
connect_read_known b s v =
    let s' : State = record s {
      bind_port = at b (length b - 2) ∷ at b (length b - 1) ∷ [];
      bind_host = read_bind b;
    } in
    let bad : State = do_when_up_ready_error s in
    let good : State = do_when_up_ready s' in
    ground (
      arith,
      fail-IsSame s,
      IsSame-known bad (do_when_up_end bad) (do_when_up_end-IsSame bad) (up_ready_error_known s v),
      IsSame-known good (do_when_up_end good) (do_when_up_end-IsSame good) (up_ready_known s' v),
    )

-- The writes that an unknown client can lead to.
written_guarded : (op : Op) → is_open op ≡ true → KeepsGuarded (on_written op)
unfolding on_written
written_guarded first_read o s v = v
written_guarded http_read o s v = v
written_guarded http_407 o s v = open_more http_read s refl v
written_guarded http_failed o s v = fail_guarded s v
written_guarded auth_client_read o s v = v
written_guarded auth_client_write o s v = open_more auth_client_read s refl v
written_guarded auth_client_error o s v = IsSame-guarded s _ (do_when_down_end-IsSame true s) v
written_guarded handshake_client_header_error o s v =
    IsSame-guarded s _ (do_when_down_end-IsSame true s) v
written_guarded (handshake_client_end_error e) o s v =
    IsSame-guarded s _ (do_when_down_end-IsSame true s) v
written_guarded (socks4_client_end_error e) o s v =
    IsSame-guarded s _ (do_when_down_end-IsSame true s) v
written_guarded _ o s v = cc

written_known : (op : Op) → KeepsKnown (on_written op)
unfolding on_written
written_known auth_client_error s v = IsSame-known s _ (do_when_down_end-IsSame true s) v
written_known handshake_client_header_error s v =
    IsSame-known s _ (do_when_down_end-IsSame true s) v
written_known (handshake_client_end_error e) s v =
    IsSame-known s _ (do_when_down_end-IsSame true s) v
written_known (handshake_client_end b) s v = IsSame-known s _ (do_when_down_end-IsSame false s) v
written_known (socks4_client_end_error e) s v = IsSame-known s _ (do_when_down_end-IsSame true s) v
written_known http_established s v = IsSame-known s _ (do_when_down_end-IsSame false s) v
written_known http_failed s v = IsSame-known s _ (fail-IsSame s) v
written_known socks4_client_end s v = IsSame-known s _ (do_when_down_end-IsSame false s) v
written_known _ s v = v

module _ (env : Env) (need : env.need_auth ≡ true) where
  read_guarded : (op : Op) (b : Bytes) → is_open op ≡ true → KeepsGuarded (on_read env op b)
  unfolding on_read on_http_read
  read_guarded first_read b o s v = first_read_guarded env need b s v
  read_guarded auth_client_read b o s v = auth_client_read_guarded env need b s v
  read_guarded http_read b o s v =
      http_header_guarded env need (record s { downstream_buf = s.downstream_buf ++ b }) v
  read_guarded http_407 b o s v = v
  read_guarded http_failed b o s v = v
  read_guarded auth_client_write b o s v = v
  read_guarded auth_client_error b o s v = v
  read_guarded handshake_client_header_error b o s v = v
  read_guarded (handshake_client_end_error e) b o s v = v
  read_guarded (socks4_client_end_error e) b o s v = v
  read_guarded _ b o s v = cc

  read_known : (op : Op) (b : Bytes) → is_open op ≡ false → KeepsKnown (on_read env op b)
  unfolding on_read on_http_read
  read_known first_read b o s v = cc
  read_known http_read b o s v = cc
  read_known auth_client_read b o s v = cc
  read_known handshake_client_read b o s v = handshake_client_read_known env b s v
  read_known socks5_handshake_read b o s v = handshake_read_known env b s v
  read_known socks5_auth_read b o s v = auth_read_known env b s v
  read_known socks5_connect_read b o s v = connect_read_known b s v
  read_known _ b o s v = v

  -- A pending operation that is not open belongs to a known client.
  closed_known :
      (s : State) (before after : List Op) (op : Op)
      → s.pending ≡ before ++ op ∷ after
      → is_open op ≡ false
      → is_guarded s ≡ true
      → is_known (taken s before after) ≡ true
  closed_known s before after op e o v = ground (arith, all_open-append before (op ∷ after))

  taken_guarded :
      (s : State) (before after : List Op) (op : Op)
      → s.pending ≡ before ++ op ∷ after
      → is_guarded s ≡ true
      → is_guarded (taken s before after) ≡ true
  taken_guarded s before after op e v =
      ground (arith, all_open-append before (op ∷ after), all_open-append before after)

  begins_guarded : is_guarded (start initial) ≡ true
  unfolding start initial
  begins_guarded = refl

  known_guarded : (s : State) → is_known s ≡ true → is_guarded s ≡ true
  known_guarded s v = ground arith

  resume_write_guarded :
      (op : Op) (ec : Bool) (n : ℕ) → is_open op ≡ true → KeepsGuarded (resume_write op ec n)
  unfolding resume_write
  resume_write_guarded op ec n o s v = ground (arith, fail_guarded s v, written_guarded op o s v)

  resume_write_known : (op : Op) (ec : Bool) (n : ℕ) → KeepsKnown (resume_write op ec n)
  unfolding resume_write
  resume_write_known op ec n s v = ground (arith, fail-IsSame s, written_known op s v)

  resume_read_guarded :
      (op : Op) (ec : Bool) (b : Bytes) → is_open op ≡ true → KeepsGuarded (resume_read env op ec b)
  unfolding resume_read
  resume_read_guarded op true b o s v = fail_guarded s v
  resume_read_guarded op false b o s v = read_guarded op b o s v

  resume_read_known :
      (op : Op) (ec : Bool) (b : Bytes) → is_open op ≡ false → KeepsKnown (resume_read env op ec b)
  unfolding resume_read
  resume_read_known op true b o s v = IsSame-known s _ (fail-IsSame s) v
  resume_read_known op false b o s v = read_known op b o s v

  Step-guarded : (s t : State) → Step env s t → is_guarded s ≡ true → is_guarded t ≡ true
  Step-guarded _ _ (writes s before after op ec n p w) v = elim (Bool-cases (is_open op)) [
    | inl early ↦
        resume_write_guarded op ec n early (taken s before after)
          (taken_guarded s before after op p v)
    | inr closed ↦ known_guarded (resume_write op ec n (taken s before after)) (
        resume_write_known op ec n (taken s before after)
          (closed_known s before after op p closed v))
  ]
  Step-guarded _ _ (reads s before after op ec b p w) v = elim (Bool-cases (is_open op)) [
    | inl early ↦
        resume_read_guarded op ec b early (taken s before after)
          (taken_guarded s before after op p v)
    | inr closed ↦ known_guarded (resume_read env op ec b (taken s before after)) (
        resume_read_known op ec b closed (taken s before after)
          (closed_known s before after op p closed v))
  ]

  Reach-guarded : (s : State) → Reach env s → is_guarded s ≡ true
  Reach-guarded s (begins _ e) = subst (λ x. is_guarded x ≡ true) (sym e) begins_guarded
  Reach-guarded t (steps {s = s} r step) = Step-guarded s t step (Reach-guarded s r)

-- With authentication demanded, in whatever order the operations complete and whatever they bring,
-- once the handshake has taken a client's request and turned to the upstream server, a user is stored for the client, unless the code has
-- used the relay session after it released it, which is undefined behaviour.
pub Reach-known :
    (env : Env) (s : State)
    → env.need_auth ≡ true
    → Reach env s
    → s.ready_down ≡ true
    → ((u : AuthUser) × (s.auth_user ≡ some u)) ⊎ (uses_null s.calls ≡ true)
Reach-known env s need r d = elim (Option-cases s.auth_user) [
  | inr known ↦ inl known
  | inl missing ↦ inr (ground (arith, missing, d, Reach-guarded env need s r))
]
