-- ===== src/Relay/Counts/Handlers.antt =====
-- Every handler of a session keeps the balance, and the session tidy: it is connected at most once.
use socks5balancer_asio.Prelude.{
  ℕ, ◌+◌, ◌≤◌, ◌≡◌, refl, Bool, true, false, [], ◌∷◌, Option, none, some, arith, inl, inr,
  Bool-cases, size_mod, add64, leb, AllSome, AllSome-bind, AllSome-any, if-both, ◌-◌,
}
use socks5balancer_asio.Delay.Buffer.{CircularBuffer}
use socks5balancer_asio.Relay.State.{TcpRelaySession, RelayOp, resolve, begin}
use socks5balancer_asio.Relay.Statistics.Sessions.{SessionInfoContainer}
use socks5balancer_asio.Relay.World.{World, on_session, server_count_sub, set_offline}
use socks5balancer_asio.Relay.Select.{
  Readings, Chosen, choose_server, resolve_with, try_connect_upstream,
}
use socks5balancer_asio.Relay.Session.{close, uncount_at, shut, uncount, try_next}
use socks5balancer_asio.Relay.Counts.Lists.{weight, connecting, connecting-append}
use socks5balancer_asio.Relay.Counts.Steps.{
  Balanced, Balanced-refl, Balanced-trans, Balanced-same, modified-Balanced, offline-Balanced,
}
use socks5balancer_asio.Relay.Counts.Choice.{choose_server_same}

abbrev pub bit : Bool → ℕ
bit true = 1
bit false = 0

-- A session that is connecting has not been connected, and is connecting only once; one that was
-- taken off the counts was on them.
pub record IsTidy (s : TcpRelaySession) : Type 0 where
  pub once : connecting s.pending + bit s.ref_added ≤ 1
  pub counted : s.is_de_cont ≡ true → s.ref_added ≡ true

-- A session between two attempts.
pub record IsFree (s : TcpRelaySession) : Type 0 where
  pub idle : connecting s.pending ≡ 0
  pub not_added : s.ref_added ≡ false
  pub not_taken : s.is_de_cont ≡ false

free-IsTidy : (s : TcpRelaySession) → IsFree s → IsTidy s
free-IsTidy s f = record {
  once = rw (f.idle, f.not_added) (omega arith);
  counted = λ e. cc (e, f.not_taken);
}

free_weight : (s : TcpRelaySession) → IsFree s → (i : ℕ) → weight i s ≡ 0
free_weight s f i = rw (f.not_added)

-- One operation more.
begun_connecting :
    (op : RelayOp) (s : TcpRelaySession)
    → connecting (begin op s).pending ≡ connecting s.pending + connecting (op ∷ [])
begun_connecting op s = connecting-append s.pending (op ∷ [])

module _ {cb : CircularBuffer} {sc : SessionInfoContainer} where
  pub record Kept (w w' : World cb sc) : Type 0 where
    pub balanced : Balanced w w'
    pub tidy : IsTidy w'.session

  pub Kept-after : {u v w : World cb sc} → Balanced u v → Kept v w → Kept u w
  Kept-after b k = record { balanced = Balanced-trans b k.balanced; tidy = k.tidy }

  resolve_with-Kept :
      (w : World cb sc) (c : Chosen cb sc)
      → IsFree w.session
      → IsFree c.1.session
      → c.1.pool.servers ≡ w.pool.servers
      → Kept w (resolve_with c)
  resolve_with-Kept w (none, v) f g p = record {
    balanced = Balanced-same w v p (λ i. rw (free_weight w.session f i, free_weight v.session g i));
    tidy = free-IsTidy v.session g;
  }
  resolve_with-Kept w (some u, v) f g p = record {
    balanced = Balanced-same w _ p (λ i. rw (free_weight w.session f i, g.not_added));
    tidy = record {
      once = rw (begun_connecting resolve v.session, g.idle, g.not_added) (omega arith);
      counted = λ e. cc (e, g.not_taken);
    };
  }

  pub try_connect_upstream-Kept :
      (rs : Readings) (w : World cb sc)
      → IsFree w.session
      → AllSome (Kept w) (try_connect_upstream rs w)
  unfolding try_connect_upstream
  try_connect_upstream-Kept rs w f =
      elim (Bool-cases (leb w.session.retry_count w.session.retry_limit)) [
        | inl e ↦
            let v = on_session (λ s. record s { retry_count = add64 s.retry_count 1 }) w in
            rw e (
              AllSome-bind _ (Kept w) (choose_server rs v) _ (choose_server_same rs v) λ c h.
                resolve_with-Kept w c f
                  (rw h.session
                    (record { idle = f.idle; not_added = f.not_added; not_taken = f.not_taken }))
                  h.servers)
        | inr e ↦ rw e (record { balanced = Balanced-refl w; tidy = free-IsTidy w.session f })
      ]

  pub try_next-Kept :
      (rs : Readings) (w : World cb sc) → IsFree w.session → AllSome (Kept w) (try_next rs w)
  try_next-Kept rs w f =
      AllSome-bind (λ _. Unit) (Kept w) w.session.now_server _ (AllSome-any w.session.now_server)
        λ i _.
          after_offline i (try_connect_upstream rs (set_offline i w))
            (try_connect_upstream-Kept rs (set_offline i w) f)
    where
      after_offline :
          (i : ℕ) (o : Option (World cb sc))
          → AllSome (Kept (set_offline i w)) o
          → AllSome (Kept w) o
      after_offline i none h = tt
      after_offline i (some v) h = Kept-after (offline-Balanced i w) h

  uncount-IsTidy :
      (i : ℕ) (w : World cb sc)
      → IsTidy w.session
      → w.session.ref_added ≡ true
      → IsTidy (uncount i w).session
  uncount-IsTidy i w v r = record { once = v.once; counted = λ e. r }

  uncount-Kept :
      (o : Option ℕ) (w : World cb sc)
      → w.session.now_server ≡ o
      → w.session.is_de_cont ≡ false
      → IsTidy w.session
      → Kept w (uncount_at o w)
  uncount-Kept none w n d v = record { balanced = Balanced-refl w; tidy = v }
  uncount-Kept (some i) w n d v =
      if-both (Kept w) w.session.ref_added
        (λ r. record {
          balanced =
              modified-Balanced server_count_sub (size_mod - 1) i w (uncount i w) (λ u. omega arith)
                refl (λ j. rw (r, d, n) (ground arith));
          tidy = uncount-IsTidy i w v r;
        })
        (λ r. record { balanced = Balanced-refl w; tidy = v })

  -- `close` takes a counted session off the counts.
  pub close-Kept : (w : World cb sc) → IsTidy w.session → Kept w (close w)
  unfolding close
  close-Kept w v =
      if-both (Kept w) w.session.is_de_cont
        (λ d. record {
          balanced = Balanced-same w _ refl (λ i. refl);
          tidy = record { once = v.once; counted = v.counted };
        })
        (λ d. Kept-after (Balanced-same w (on_session shut w) refl (λ i. refl)) (
          uncount-Kept w.session.now_server (on_session shut w) refl d
            (record { once = v.once; counted = v.counted })))
