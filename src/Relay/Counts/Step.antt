-- ===== src/Relay/Counts/Step.antt =====
-- The balance over one step of a session.
use socks5balancer_asio.Prelude.{
  ◌+◌, ◌≤◌, ◌≡◌, refl, Bool, true, false, List, [], ◌∷◌, ◌++◌, Option, some, arith, inl, inr,
  Bool-cases, AllSome,
}
use socks5balancer_asio.Delay.Buffer.{CircularBuffer}
use socks5balancer_asio.Relay.State.{TcpRelaySession, RelayOp, posted_close}
use socks5balancer_asio.Relay.Statistics.Sessions.{SessionInfoContainer}
use socks5balancer_asio.Relay.World.{World}
use socks5balancer_asio.Relay.Select.{Readings}
use socks5balancer_asio.Relay.Session.{when_error, force_close, stop}
use socks5balancer_asio.Relay.Run.{
  Event, resolves, connects, completes, errs, upstream_reads, downstream_reads, downstream_writes,
  upstream_writes, posted, op_of, handle, taken, Step, runs, forced, stopped,
}
use socks5balancer_asio.Relay.Counts.Lists.{connecting, connecting-append}
use socks5balancer_asio.Relay.Counts.Steps.{Balanced-same}
use socks5balancer_asio.Relay.Counts.Handlers.{IsTidy, IsFree, Kept, Kept-after, bit, close-Kept}
use socks5balancer_asio.Relay.Counts.Quiet.{Quiet-Kept, session-Quiet, begin-Alike, alike}
use socks5balancer_asio.Relay.Counts.Events.{on_resolve-Kept, on_connect-Kept, when_complete-Kept}
use socks5balancer_asio.Relay.Counts.Transfers.{
  on_upstream_read-Kept, on_downstream_read-Kept, on_upstream_write-Kept, on_downstream_write-Kept,
}

-- What one taken operation leaves.
left_over :
    (before after : List RelayOp) (op : RelayOp)
    → connecting (before ++ op ∷ after) ≡ connecting (before ++ after) + connecting (op ∷ [])
left_over before after op =
    rw
      (
        connecting-append before (op ∷ after),
        connecting-append before after,
        connecting-append (op ∷ []) after,
      )
      (omega arith)

no_bit : (b : Bool) → bit b ≡ 0 → b ≡ false
no_bit true z = cc
no_bit false z = refl

once_split :
    (s : TcpRelaySession) (before after : List RelayOp) (op : RelayOp)
    → s.pending ≡ before ++ op ∷ after
    → IsTidy s
    → connecting (before ++ after) + connecting (op ∷ []) + bit s.ref_added ≤ 1
once_split s before after op p v = rw (← left_over before after op, ← p) v.once

freed :
    (s : TcpRelaySession) (before after : List RelayOp) (op : RelayOp)
    → s.pending ≡ before ++ op ∷ after
    → connecting (op ∷ []) ≡ 1
    → IsTidy s
    → IsFree (record s { pending = before ++ after })
freed s before after op p o v = record {
  idle = omega (arith, once_split s before after op p v, o);
  not_added = no_bit s.ref_added (omega (arith, once_split s before after op p v, o));
  not_taken = elim (Bool-cases s.is_de_cont) [
    | inl d ↦
        cc (v.counted d, no_bit s.ref_added (omega (arith, once_split s before after op p v, o)))
    | inr d ↦ d
  ];
}

still-IsTidy :
    (s : TcpRelaySession) (before after : List RelayOp) (op : RelayOp)
    → s.pending ≡ before ++ op ∷ after
    → IsTidy s
    → IsTidy (record s { pending = before ++ after })
still-IsTidy s before after op p v = record {
  once = omega (arith, once_split s before after op p v);
  counted = v.counted;
}

module _ {cb : CircularBuffer} {sc : SessionInfoContainer} where
  handle-Kept :
      (rs : Readings) (e : Event) (w : World cb sc) (before after : List RelayOp)
      → w.session.pending ≡ before ++ op_of e ∷ after
      → IsTidy w.session
      → AllSome (Kept (taken before after w)) (handle rs e (taken before after w))
  unfolding handle when_error
  handle-Kept rs (resolves ec is_empty) w before after p v =
      on_resolve-Kept rs ec is_empty _ (freed w.session before after RelayOp.resolve p refl v)
  handle-Kept rs (connects ec now) w before after p v =
      on_connect-Kept rs ec now _ (freed w.session before after RelayOp.connect p refl v)
  handle-Kept rs (completes a au now) w before after p v =
      when_complete-Kept a au now _ (still-IsTidy w.session before after _ p v)
  handle-Kept rs errs w before after p v = close-Kept _ (still-IsTidy w.session before after _ p v)
  handle-Kept rs (upstream_reads ec b now) w before after p v =
      on_upstream_read-Kept ec b now _ (still-IsTidy w.session before after _ p v)
  handle-Kept rs (downstream_reads ec b now) w before after p v =
      on_downstream_read-Kept ec b now _ (still-IsTidy w.session before after _ p v)
  handle-Kept rs (downstream_writes n ec k) w before after p v =
      on_downstream_write-Kept n ec k _ (still-IsTidy w.session before after _ p v)
  handle-Kept rs (upstream_writes n ec k) w before after p v =
      on_upstream_write-Kept n ec k _ (still-IsTidy w.session before after _ p v)
  handle-Kept rs posted w before after p v =
      close-Kept _ (still-IsTidy w.session before after _ p v)

  pub Kept-result :
      (w v : World cb sc) (o : Option (World cb sc)) → o ≡ some v → AllSome (Kept w) o → Kept w v
  Kept-result w v o e h = rw e at h

  pub Step-Kept : (w w' : World cb sc) → Step w w' → IsTidy w.session → Kept w w'
  unfolding force_close stop
  Step-Kept w w' (runs _ _ rs e before after p h) v =
      Kept-after (Balanced-same w (taken before after w) refl (λ i. refl))
        (Kept-result _ w' _ h (handle-Kept rs e w before after p v))
  Step-Kept w w' (forced _) v =
      Quiet-Kept (session-Quiet w _ refl (begin-Alike posted_close w.session refl)) v
  Step-Kept w w' (stopped _) v = Quiet-Kept (session-Quiet w _ refl (alike refl refl refl refl)) v
