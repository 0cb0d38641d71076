-- ===== src/Pool/Timers/Targets.antt =====
-- Which servers the timers test.
use socks5balancer_asio.Prelude.{
  ℕ, suc, ◌+◌, ◌≡◌, refl, sym, ap, subst, ◌∙◌, Bool, true, false, List, [], ◌∷◌, ◌++◌, Option, none,
  some, inl, inr, ◌≢◌, arith, Bool-cases, get_elem?, if◌then◌else◌, is_some, ◌&&◌,
}
use mathlib.Core.List.{append-nil, append_assoc}
use socks5balancer_asio.Delay.Buffer.{CircularBuffer}
use socks5balancer_asio.Pool.Server.{UpstreamServer}
use socks5balancer_asio.Pool.Timers.{
  is_awake, is_all_down, Test, tcp_test, connect_test, Checker, test_each,
  do_tcp_checker_timer_impl, do_connect_checker_timer_impl, tcp_checker_fires,
  connect_checker_fires, do_addition_timer_impl, addition_run_ends, addition_fires,
  start_check_timer, stop, force_check_now, force_check_fires,
}
use socks5balancer_asio.Pool.Timers.Schedule.{
  Event, starts, stops, forces, forces_one, tcp_fires, connect_fires, addition_timer_fires,
  addition_ends, force_fires, step,
}

abbrev pub test_index : Test → ℕ
test_index (tcp_test i d) = i
test_index (connect_test i d) = i

module _ {cb : CircularBuffer} where
  -- Each test is for a server of the pool that is not disabled by hand.
  abbrev pub AreEnabled : List (UpstreamServer cb) → List Test → Type 0
  AreEnabled us [] = Unit
  AreEnabled us (t ∷ ts) =
      ((i : ℕ) × (u : UpstreamServer cb) × (get_elem? us i ≡ some u)
        × (u.index ≡ test_index t)
        × (u.is_manual_disable ≡ false))
      × AreEnabled us ts

  AreEnabled-later :
      (x : UpstreamServer cb) (us : List (UpstreamServer cb)) (ts : List Test)
      → AreEnabled us ts
      → AreEnabled (x ∷ us) ts
  AreEnabled-later x us [] h = tt
  AreEnabled-later x us (t ∷ ts) ((i, u, e, n, f), h) =
      ((suc i, u, e, n, f), AreEnabled-later x us ts h)

  AreEnabled-append :
      (us : List (UpstreamServer cb)) (ts ts' : List Test)
      → AreEnabled us ts
      → AreEnabled us ts'
      → AreEnabled us (ts ++ ts')
  AreEnabled-append us [] ts' h h' = h'
  AreEnabled-append us (t ∷ ts) ts' h h' = (h.0, AreEnabled-append us ts ts' h.1 h')

  test_each-AreEnabled :
      (make : ℕ → Test) (us : List (UpstreamServer cb))
      → ((i : ℕ) → test_index (make i) ≡ i)
      → AreEnabled us (test_each make us)
  unfolding test_each
  test_each-AreEnabled make [] keeps = tt
  test_each-AreEnabled make (u ∷ us) keeps =
      let later = AreEnabled-later u us (test_each make us) (test_each-AreEnabled make us keeps) in
      elim (Bool-cases u.is_manual_disable) [
        | inl off ↦ simp off later
        | inr on ↦ simp on ((0, u, refl, sym (keeps u.index), on), later)
      ]

  -- `k'` has the pool of `k`, and the tests started since are for enabled servers.
  abbrev pub TestsEnabled : Checker cb → Checker cb → Type 0
  TestsEnabled k k' =
      (ts : List Test) × (k'.launched ≡ k.launched ++ ts)
      × AreEnabled k.pool.servers ts
      × (k'.pool ≡ k.pool)

  quiet : (k k' : Checker cb) → k'.launched ≡ k.launched → k'.pool ≡ k.pool → TestsEnabled k k'
  quiet k k' l p = ([], l ∙ sym (append-nil k.launched), tt, p)

  both : (k a b : Checker cb) → TestsEnabled k a → TestsEnabled a b → TestsEnabled k b
  both k a b (ts, l, h, p) (ts', l', h', p') = (
    ts ++ ts',
    l' ∙ ap (λ x. x ++ ts') l ∙ append_assoc k.launched ts ts',
    AreEnabled-append k.pool.servers ts ts' h (subst (λ q. AreEnabled q.servers ts') p h'),
    p' ∙ p,
  )

  -- A method that returns at once under a test, or that does its work only under one.
  unless : (k a : Checker cb) (b : Bool) → TestsEnabled k a → TestsEnabled k (if b then k else a)
  unless k a true h = quiet k k refl refl
  unless k a false h = h

  under : (k a : Checker cb) (b : Bool) → TestsEnabled k a → TestsEnabled k (if b then a else k)
  under k a true h = h
  under k a false h = quiet k k refl refl

  tcp_impl_enabled : (k : Checker cb) → TestsEnabled k (do_tcp_checker_timer_impl k)
  unfolding do_tcp_checker_timer_impl
  tcp_impl_enabled k =
      unless k _ k.pool.config.disable_connect_test
        (_, refl, test_each-AreEnabled _ k.pool.servers (λ i. refl), refl)

  connect_impl_enabled : (k : Checker cb) → TestsEnabled k (do_connect_checker_timer_impl k)
  unfolding do_connect_checker_timer_impl
  connect_impl_enabled k =
      unless k _ k.pool.config.disable_connect_test
        (_, refl, test_each-AreEnabled _ k.pool.servers (λ i. refl), refl)

  both_impl_enabled :
      (k : Checker cb)
      → TestsEnabled k (do_connect_checker_timer_impl (do_tcp_checker_timer_impl k))
  both_impl_enabled k =
      both k (do_tcp_checker_timer_impl k)
        (do_connect_checker_timer_impl (do_tcp_checker_timer_impl k)) (tcp_impl_enabled k)
        (connect_impl_enabled (do_tcp_checker_timer_impl k))

  addition_impl_enabled : (k : Checker cb) → TestsEnabled k (do_addition_timer_impl k)
  unfolding do_addition_timer_impl
  addition_impl_enabled k = unless k _ k.pool.config.disable_connect_test (
      unless k _ k.is_addition_timer_running
        (both_impl_enabled (record k { is_addition_timer_running = true })))

  moved :
      (k a b k' : Checker cb)
      → b.launched ≡ a.launched
      → b.pool ≡ a.pool
      → TestsEnabled k a
      → some b ≡ some k'
      → TestsEnabled k k'
  moved k a b k' l p h e =
      let same : b ≡ k' = cc in subst (TestsEnabled k) same (both k a b h (quiet a b l p))

  tcp_fires_enabled :
      (k k' : Checker cb) (now : ℕ) → tcp_checker_fires k false now ≡ some k' → TestsEnabled k k'
  unfolding tcp_checker_fires
  tcp_fires_enabled k k' now e = timer k.tcp_checker_timer e
    where
      work : Checker cb
      work = if is_awake k.pool now then do_tcp_checker_timer_impl k else k

      timer :
          (t : Option ℕ)
          → elim t [
            | none ↦ none
            | some t ↦
                some (record work { tcp_checker_timer = some (t + k.pool.config.tcp_check_period) })
          ]
            ≡ some k'
          → TestsEnabled k k'
      timer none f = cc
      timer (some t) f =
          moved k work _ k' refl refl (under k _ (is_awake k.pool now) (tcp_impl_enabled k)) f

  connect_fires_enabled :
      (k k' : Checker cb) (now : ℕ)
      → connect_checker_fires k false now ≡ some k'
      → TestsEnabled k k'
  unfolding connect_checker_fires
  connect_fires_enabled k k' now e = timer k.tcp_checker_timer (is_some k.connect_checker_timer) e
    where
      work : Checker cb
      work = if is_awake k.pool now then do_connect_checker_timer_impl k else k

      timer :
          (t : Option ℕ) (b : Bool)
          → elim t [
            | none ↦ none
            | some t ↦
                if b
                then some (record work {
                  connect_checker_timer = some (t + k.pool.config.connect_check_period);
                })
                else none
          ]
            ≡ some k'
          → TestsEnabled k k'
      timer none b f = cc
      timer (some t) true f =
          moved k work _ k' refl refl (under k _ (is_awake k.pool now) (connect_impl_enabled k)) f
      timer (some t) false f = cc

  addition_fires_enabled :
      (k k' : Checker cb) (now : ℕ) → addition_fires k false now ≡ some k' → TestsEnabled k k'
  unfolding addition_fires
  addition_fires_enabled k k' now e = timer k.addition_timer e
    where
      due : Bool
      due = is_all_down k.pool.config k.pool.servers && is_awake k.pool now

      work : Checker cb
      work = if due then do_addition_timer_impl k else k

      timer :
          (t : Option ℕ)
          → elim t [
            | none ↦ none
            | some t ↦
                some
                  (record work { addition_timer = some (t + k.pool.config.addition_check_period) })
          ]
            ≡ some k'
          → TestsEnabled k k'
      timer none f = cc
      timer (some t) f = moved k work _ k' refl refl (under k _ due (addition_impl_enabled k)) f

  start_quiet : (k : Checker cb) (now : ℕ) → TestsEnabled k (start_check_timer k now)
  unfolding start_check_timer
  start_quiet k now = quiet k (start_check_timer k now) (ground arith) (ground arith)

  force_quiet : (k : Checker cb) (now : ℕ) → TestsEnabled k (force_check_now k now)
  unfolding force_check_now
  force_quiet k now = quiet k (force_check_now k now) (ground arith) (ground arith)

  -- Every event but a forced check of one server leaves the pool as it is, and starts tests only for
  -- servers of the pool that are not disabled by hand.
  pub step-TestsEnabled :
      (k k' : Checker cb) (e : Event)
      → ((i : ℕ) → e ≢ forces_one i)
      → step k e ≡ some k'
      → TestsEnabled k k'
  unfolding step tcp_checker_fires connect_checker_fires addition_fires stop addition_run_ends
      force_check_fires
  step-TestsEnabled k k' (starts now) other e =
      moved k (start_check_timer k now) (start_check_timer k now) k' refl refl (start_quiet k now) e
  step-TestsEnabled k k' stops other e = moved k k _ k' refl refl (quiet k k refl refl) e
  step-TestsEnabled k k' (forces now) other e =
      moved k (force_check_now k now) (force_check_now k now) k' refl refl (force_quiet k now) e
  step-TestsEnabled k k' (forces_one i) other e = absurd (other i refl)
  step-TestsEnabled k k' (tcp_fires true now) other e =
      moved k k k k' refl refl (quiet k k refl refl) e
  step-TestsEnabled k k' (tcp_fires false now) other e = tcp_fires_enabled k k' now e
  step-TestsEnabled k k' (connect_fires true now) other e =
      moved k k k k' refl refl (quiet k k refl refl) e
  step-TestsEnabled k k' (connect_fires false now) other e = connect_fires_enabled k k' now e
  step-TestsEnabled k k' (addition_timer_fires true now) other e =
      moved k k k k' refl refl (quiet k k refl refl) e
  step-TestsEnabled k k' (addition_timer_fires false now) other e =
      addition_fires_enabled k k' now e
  step-TestsEnabled k k' addition_ends other e = moved k k _ k' refl refl (quiet k k refl refl) e
  step-TestsEnabled k k' (force_fires true) other e =
      moved k k _ k' refl refl (quiet k k refl refl) e
  step-TestsEnabled k k' (force_fires false) other e =
      moved k (do_connect_checker_timer_impl (do_tcp_checker_timer_impl k))
        (record (do_connect_checker_timer_impl (do_tcp_checker_timer_impl k)) {
          force_checker_timer = none;
        })
        k' refl refl (both_impl_enabled k) e
