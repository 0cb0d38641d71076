-- ===== src/Relay/Pipe/Sound.antt =====
-- No data is lost, doubled or reordered by a relay session whose writes are complete.
use socks5balancer_asio.Prelude.{
  ℕ, zero, suc, ◌≤◌, ◌≡◌, refl, sym, subst, ap, List, [], ◌∷◌, ◌++◌, Bytes, take, length, arith,
}
use mathlib.Core.List.{append-nil, append_assoc}
use socks5balancer_asio.Relay.State.{
  RelayOp, resolve, connect, handshake, upstream_read, downstream_read, downstream_write,
  upstream_write, posted_close,
}
use socks5balancer_asio.Relay.Run.{Event, downstream_writes, upstream_writes, op_of}
use socks5balancer_asio.Relay.Pipe.{
  Pipes, IsOpening, MayEnd, Opens, no_address, no_answer, no_connection, resolved, connected,
  StartsRelay, add, Effect, ends, opens, relays, takes_up, takes_down, gives_down, last_down,
  gives_up, last_up,
}
use socks5balancer_asio.Relay.Pipe.Lanes.{
  IsLossless, replaced, untouched, dropped, down_lane, up_lane, down_token, up_token, down_carried,
  up_carried, flight, tokens,
}

-- A write sends all that it was asked to send.
abbrev pub IsWhole : Event → Type 0
IsWhole (downstream_writes n ec k) = k ≡ n
IsWhole (upstream_writes n ec k) = k ≡ n
IsWhole _ = Unit

pub record IsSound (c : Pipes) : Type 0 where
  pub down : IsLossless down_lane c.pending c.upstream_data c.from_upstream c.to_downstream
  pub up : IsLossless up_lane c.pending c.downstream_data c.from_downstream c.to_upstream

-- An opening operation belongs to both directions, and carries no data.
record IsOpener (op : RelayOp) : Type 0 where
  down : down_token op ≡ 1
  up : up_token op ≡ 1
  down_none : (d : Bytes) → down_carried op d ≡ []
  up_none : (d : Bytes) → up_carried op d ≡ []

opener : (op : RelayOp) → IsOpening op → IsOpener op
opener resolve o = record { down = refl; up = refl; down_none = λ d. refl; up_none = λ d. refl }
opener connect o = record { down = refl; up = refl; down_none = λ d. refl; up_none = λ d. refl }
opener handshake o = record { down = refl; up = refl; down_none = λ d. refl; up_none = λ d. refl }
opener upstream_read o = elim o [ ]
opener downstream_read o = elim o [ ]
opener posted_close o = elim o [ ]
opener (downstream_write _) o = elim o [ ]
opener (upstream_write _) o = elim o [ ]

no_write :
    (e : Event) (d : Bytes)
    → MayEnd e
    → (down_carried (op_of e) d ≡ []) × (up_carried (op_of e) d ≡ [])
no_write (downstream_writes n ec k) d h = absurd h
no_write (upstream_writes n ec k) d h = absurd h
no_write (Event.resolves ec b) d h = (refl, refl)
no_write (Event.connects ec now) d h = (refl, refl)
no_write (Event.completes a au now) d h = (refl, refl)
no_write Event.errs d h = (refl, refl)
no_write (Event.upstream_reads ec b now) d h = (refl, refl)
no_write (Event.downstream_reads ec b now) d h = (refl, refl)
no_write Event.posted d h = (refl, refl)

take_whole : (n : ℕ) (b : Bytes) → take n (take n b) ≡ take n b
take_whole zero b = refl
take_whole (suc n) [] = refl
take_whole (suc n) (x ∷ b) = ap (◌∷◌ x) (take_whole n b)

take-length : (b : Bytes) → take (length b) b ≡ b
take-length [] = refl
take-length (x ∷ b) = ap (◌∷◌ x) (take-length b)

-- What was read is on its way.
read_whole : (from to b : Bytes) → from ≡ to ++ [] → from ++ b ≡ to ++ (take (length b) b ++ [])
read_whole from to b h = rw (h, take-length b, append-nil to, append-nil b)

-- What was on its way is written.
sent_whole :
    (from to : Bytes) (n k : ℕ) (d : Bytes)
    → k ≡ n
    → from ≡ to ++ take n d
    → from ≡ (to ++ take k (take n d)) ++ []
sent_whole from to n k d e h = rw (e, take_whole n d, append-nil (to ++ take n d)) h

-- The pipes when one operation is taken out, with the data that they had with it.
pub record IsTaken (op : RelayOp) (before after : List RelayOp) (c : Pipes) : Type 0 where
  pub rest : c.pending ≡ before ++ after
  pub down :
      IsLossless down_lane (before ++ op ∷ after) c.upstream_data c.from_upstream c.to_downstream
  pub up :
      IsLossless up_lane (before ++ op ∷ after) c.downstream_data c.from_downstream c.to_upstream

-- Other operations of both directions come in the place of an opening one.
opened :
    (op : RelayOp) (before after ops : List RelayOp) (c : Pipes)
    → IsOpening op
    → tokens down_lane ops ≤ 1
    → tokens up_lane ops ≤ 1
    → ((d : Bytes) → flight down_lane ops d ≡ [])
    → ((d : Bytes) → flight up_lane ops d ≡ [])
    → IsTaken op before after c
    → IsSound (add ops c)
opened op before after ops c o td tu fd fu v =
    let r = opener op o in
    record {
      down = rw (v.rest) (
          replaced down_lane before after op ops _ _ _ _ _ _ r.down td v.down
            (λ e. rw (fd c.upstream_data, ← r.down_none c.upstream_data) e));
      up = rw (v.rest) (
          replaced up_lane before after op ops _ _ _ _ _ _ r.up tu v.up
            (λ e. rw (fu c.downstream_data, ← r.up_none c.downstream_data) e));
    }

openings : {e : Event} {op : RelayOp} → Opens e op → IsOpening (op_of e) × IsOpening op
openings no_address = (tt, tt)
openings (no_answer _) = (tt, tt)
openings (no_connection _) = (tt, tt)
openings resolved = (tt, tt)
openings (connected _) = (tt, tt)

before_relay : (e : Event) → StartsRelay e → IsOpening (op_of e)
before_relay (Event.connects ec now) o = tt
before_relay (Event.completes a au now) o = tt
before_relay (Event.resolves ec b) o = absurd o
before_relay Event.errs o = absurd o
before_relay (Event.upstream_reads ec b now) o = absurd o
before_relay (Event.downstream_reads ec b now) o = absurd o
before_relay (downstream_writes n ec k) o = absurd o
before_relay (upstream_writes n ec k) o = absurd o
before_relay Event.posted o = absurd o

pub effect-IsSound :
    (e : Event) (c c' : Pipes) (before after : List RelayOp)
    → IsWhole e
    → Effect e c c'
    → IsTaken (op_of e) before after c
    → IsSound c'
effect-IsSound _ _ _ before after w (ends e c n) v = record {
  down = rw (v.rest) (dropped down_lane before after _ _ _ _ (no_write e _ n).0 v.down);
  up = rw (v.rest) (dropped up_lane before after _ _ _ _ (no_write e _ n).1 v.up);
}
effect-IsSound _ _ _ before after w (opens e op c o) v =
    let r = opener op (openings o).1 in
    opened (op_of e) before after (op ∷ []) c (openings o).0 (omega (arith, r.down))
      (omega (arith, r.up)) (λ d. rw (r.down_none d)) (λ d. rw (r.up_none d)) v
effect-IsSound _ _ _ before after w (relays e c o) v =
    subst IsSound
      (ap (λ ops. record c { pending = ops })
        (sym (append_assoc c.pending (upstream_read ∷ []) (downstream_read ∷ []))))
      (opened (op_of e) before after (upstream_read ∷ downstream_read ∷ []) c (before_relay e o)
        (omega arith) (omega arith) (λ d. refl) (λ d. refl) v)
effect-IsSound _ _ _ before after w (takes_up b now c) v = record {
  down = rw (v.rest) (
      replaced down_lane before after upstream_read (downstream_write (length b) ∷ []) _ b _ _ _ _
        refl (omega arith) v.down (read_whole c.from_upstream c.to_downstream b));
  up = rw (v.rest) (
      untouched up_lane before after upstream_read (downstream_write (length b) ∷ []) _ _ _ refl
        (omega arith) v.up);
}
effect-IsSound _ _ _ before after w (takes_down b now c) v = record {
  down = rw (v.rest) (
      untouched down_lane before after downstream_read (upstream_write (length b) ∷ []) _ _ _ refl
        (omega arith) v.down);
  up = rw (v.rest) (
      replaced up_lane before after downstream_read (upstream_write (length b) ∷ []) _ b _ _ _ _
        refl (omega arith) v.up (read_whole c.from_downstream c.to_upstream b));
}
effect-IsSound _ _ _ before after w (gives_down n ec k c _) v = record {
  down = rw (v.rest) (
      replaced down_lane before after (downstream_write n) (upstream_read ∷ []) _ _ _ _ _ _ refl
        (omega arith) v.down (sent_whole c.from_upstream c.to_downstream n k c.upstream_data w));
  up = rw (v.rest) (
      untouched up_lane before after (downstream_write n) (upstream_read ∷ []) _ _ _ refl
        (omega arith) v.up);
}
effect-IsSound _ _ _ before after w (gives_up n ec k c _) v = record {
  down = rw (v.rest) (
      untouched down_lane before after (upstream_write n) (downstream_read ∷ []) _ _ _ refl
        (omega arith) v.down);
  up = rw (v.rest) (
      replaced up_lane before after (upstream_write n) (downstream_read ∷ []) _ _ _ _ _ _ refl
        (omega arith) v.up (sent_whole c.from_downstream c.to_upstream n k c.downstream_data w));
}
effect-IsSound _ _ _ before after w (last_down n ec k c _) v = record {
  down =
      rw (v.rest, ← append-nil (before ++ after))
        (replaced down_lane before after (downstream_write n) [] _ _ _ _ _ _ refl (omega arith)
          v.down (sent_whole c.from_upstream c.to_downstream n k c.upstream_data w));
  up = rw (v.rest) (dropped up_lane before after (downstream_write n) _ _ _ refl v.up);
}
effect-IsSound _ _ _ before after w (last_up n ec k c _) v = record {
  down = rw (v.rest) (dropped down_lane before after (upstream_write n) _ _ _ refl v.down);
  up =
      rw (v.rest, ← append-nil (before ++ after))
        (replaced up_lane before after (upstream_write n) [] _ _ _ _ _ _ refl (omega arith) v.up
          (sent_whole c.from_downstream c.to_upstream n k c.downstream_data w));
}
