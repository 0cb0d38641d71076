-- ===== src/Relay/Retries.antt =====
-- The attempts of a session to connect, when each of them fails.
use socks5balancer_asio.Prelude.{
  ℕ, suc, ◌+◌, ◌≤◌, ◌<◌, ◌≡◌, ◌⊎◌, inl, inr, refl, true, false, List, [], ◌∷◌, Option, none, some,
  length, leb, leb→le, is_empty, if◌then◌else◌, ◌>>=◌, add64, size_mod, arith, if-both, AllSome,
  AllSome-bind, AllSome-any,
}
use socks5balancer_asio.Delay.Buffer.{CircularBuffer}
use socks5balancer_asio.Pool.Server.{Pool}
use socks5balancer_asio.Relay.State.{resolve, connect, begin}
use socks5balancer_asio.Relay.Statistics.Sessions.{SessionInfoContainer}
use socks5balancer_asio.Relay.Statistics.Maps.{Statistics}
use socks5balancer_asio.Relay.World.{World, success, failed, on_session, set_offline}
use socks5balancer_asio.Relay.Select.{
  Readings, Chosen, choose_server, resolve_with, try_connect_upstream,
}
use socks5balancer_asio.Relay.Session.{try_next, on_resolve, on_connect}
use socks5balancer_asio.Relay.Run.{Income, make_session, start, taken}
use socks5balancer_asio.Relay.Counts.Choice.{Same, choose_server_same}

-- The ways in which an attempt fails.
pub data Failure : Type 0 where
  no_address empty_answer refused : Failure

module _ {cb : CircularBuffer} {sc : SessionInfoContainer} where
  -- The handlers that run in an attempt that fails in this way.
  unfoldable pub fail_attempt : Failure → Readings → World cb sc → Option (World cb sc)
  fail_attempt no_address rs w = on_resolve rs failed false (taken [] [] w)
  fail_attempt empty_answer rs w = on_resolve rs success true (taken [] [] w)
  fail_attempt refused rs w =
      on_resolve rs success false (taken [] [] w) >>= λ v. on_connect rs failed 0 (taken [] [] v)

  -- As long as the session makes attempts, they fail one after the other.
  unfoldable pub fail_attempts : List (Failure × Readings) → World cb sc → Option (World cb sc)
  unfolding fail_attempt
  fail_attempts [] w = some w
  fail_attempts ((f, rs) ∷ more) w =
      if is_empty w.session.pending
      then some w
      else fail_attempt f rs w >>= λ v. fail_attempts more v

  -- No further attempt, or one more, while the count allows it.
  Tried : World cb sc → World cb sc → Type 0
  Tried w v =
      (v.session.retry_limit ≡ w.session.retry_limit)
      × ((v.session.pending ≡ [])
          ⊎ ((v.session.pending ≡ resolve ∷ [])
              × (v.session.retry_count ≡ add64 w.session.retry_count 1)
              × (w.session.retry_count ≤ w.session.retry_limit)))

  tried :
      (rs : Readings) (w : World cb sc)
      → w.session.pending ≡ []
      → AllSome (Tried w) (try_connect_upstream rs w)
  unfolding try_connect_upstream Tried
  tried rs w p =
      if-both (AllSome (Tried w)) (leb w.session.retry_count w.session.retry_limit)
        (λ e.
          AllSome-bind _ (Tried w) (choose_server rs v) _ (choose_server_same rs v)
            (resolving (leb→le _ _ e)))
        (λ e. (refl, inl p))
    where
      v : World cb sc
      v = on_session (λ s. record s { retry_count = add64 s.retry_count 1 }) w

      resolving :
          w.session.retry_count ≤ w.session.retry_limit
          → (c : Chosen cb sc) → Same v c.1
          → Tried w (resolve_with c)
      resolving h (none, u) q = (rw (q.session), inl (rw (q.session) p))
      resolving h (some s, u) q = (rw (q.session), inr (rw (q.session, p) (refl, refl, h)))

  next-Tried :
      (rs : Readings) (w : World cb sc) → w.session.pending ≡ [] → AllSome (Tried w) (try_next rs w)
  unfolding Tried
  next-Tried rs w p =
      AllSome-bind (λ _. Unit) (Tried w) w.session.now_server _ (AllSome-any w.session.now_server)
        λ i _. tried rs (set_offline i w) p

  fail_attempt-Tried :
      (f : Failure) (rs : Readings) (w : World cb sc) → AllSome (Tried w) (fail_attempt f rs w)
  unfolding fail_attempt on_resolve on_connect Tried
  fail_attempt-Tried no_address rs w = next-Tried rs (taken [] [] w) refl
  fail_attempt-Tried empty_answer rs w = next-Tried rs (taken [] [] w) refl
  fail_attempt-Tried refused rs w =
      next-Tried rs
        (taken [] []
          (on_session (λ s. begin connect (record s { upstream_open = true })) (taken [] [] w)))
        refl

  -- Where a session stands that has `n` failures ahead.
  Ahead : ℕ → World cb sc → Type 0
  Ahead n w =
      (w.session.pending ≡ [])
      ⊎ ((w.session.pending ≡ resolve ∷ [])
          × (w.session.retry_count ≤ w.session.retry_limit + 1)
          × (w.session.retry_limit + 1 < n + w.session.retry_count))

  advanced :
      (w v : World cb sc) (n : ℕ)
      → w.session.retry_limit + 1 < size_mod
      → w.session.retry_count ≤ w.session.retry_limit + 1
      → w.session.retry_limit + 1 < suc n + w.session.retry_count
      → Tried w v
      → Ahead n v
  unfolding Tried Ahead
  advanced w v n s b h (m, inl q) = inl q
  advanced w v n s b h (m, inr (q, e, l)) =
      let k : v.session.retry_count ≡ w.session.retry_count + 1 = omega (arith, e, l, s) in
      inr (q, omega (arith, k, l, m), omega (arith, k, h, m))

  attempts_end :
      (fs : List (Failure × Readings)) (w : World cb sc)
      → w.session.retry_limit + 1 < size_mod
      → Ahead (length fs) w
      → AllSome (λ v. v.session.pending ≡ []) (fail_attempts fs w)
  unfolding fail_attempts Tried Ahead
  attempts_end [] w s (inl p) = p
  attempts_end [] w s (inr (p, b, h)) = absurd (omega (arith, b, h))
  attempts_end ((f, rs) ∷ fs) w s (inl p) =
      let e : is_empty w.session.pending ≡ true = rw p in rw e p
  attempts_end ((f, rs) ∷ fs) w s (inr (p, b, h)) =
      let e : is_empty w.session.pending ≡ false = rw p in
      rw e (
        AllSome-bind (Tried w) (λ v. v.session.pending ≡ []) (fail_attempt f rs w) _
          (fail_attempt-Tried f rs w)
          λ v x. attempts_end fs v (omega (arith, x.0, s)) (advanced w v (length fs) s b h x))

-- With a retry limit below the largest size_t less one: a new session whose attempts fail, each in any
-- of the three ways, has nothing left running after retryLimit + 1 failed attempts at most; the
-- choices of a server are taken to be defined.
pub fail_attempts-start :
    {cb : CircularBuffer} {sc : SessionInfoContainer} (p : Pool cb) (t : Option (Statistics sc))
    (c : Income) (rs : Readings) (fs : List (Failure × Readings))
    → c.retry_limit + 1 < size_mod
    → c.retry_limit + 1 ≤ length fs
    → AllSome
        (λ v. v.session.pending ≡ [])
        (start rs (record { pool = p; statistics = t; session = make_session c }) >>= λ w.
          fail_attempts fs w)
unfolding start make_session Tried Ahead
fail_attempts-start {cb} {sc} p t c rs fs s l =
    let u : World cb sc = record { pool = p; statistics = t; session = make_session c } in
    AllSome-bind (Tried u) (λ v. v.session.pending ≡ []) (try_connect_upstream rs u) _
      (tried rs u refl) (first_attempt u refl refl)
  where
    first_attempt :
        (u : World cb sc)
        → u.session.retry_limit ≡ c.retry_limit
        → u.session.retry_count ≡ 0
        → (w : World cb sc) → Tried u w
        → AllSome (λ v. v.session.pending ≡ []) (fail_attempts fs w)
    first_attempt u a z w (m, inl q) = attempts_end fs w (omega (arith, m, a, s)) (inl q)
    first_attempt u a z w (m, inr (q, n, k)) =
        let one : w.session.retry_count ≡ 1 = rw z at n in
        attempts_end fs w (omega (arith, m, a, s))
          (inr (q, omega (arith, one), omega (arith, one, m, a, l)))
