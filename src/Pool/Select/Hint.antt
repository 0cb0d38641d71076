-- ===== src/Pool/Select/Hint.antt =====
-- `getServerByHint` and `getServerGlobal`: what each rule returns.
use socks5balancer_asio.Prelude.{
  ℕ, suc, ◌-◌, ◌≤◌, ◌<◌, ◌≡◌, refl, ap, subst, ◌⊎◌, inl, inr, true, false, List, [], ◌∷◌, some,
  none, length, get_elem?, get_elem?-some, ltb, arith, Bool-cases, is_empty,
}
use socks5balancer_asio.Config.{
  Config, RuleEnum, loop, random, one_by_one, change_by_time, force_only_one, inherit,
}
use socks5balancer_asio.Delay.Buffer.{CircularBuffer}
use socks5balancer_asio.Pool.Server.{UpstreamServer, Pool, check_server, IsIndexed}
use socks5balancer_asio.Pool.Select.{
  Found, Pick, picked, out_of_bounds, from_loop, is_valid_at, get_next_server, try_get_last_server,
  filter_valid_server, pick_random, by_rule, get_server_by_hint, get_server_global, is_inherit,
}
use socks5balancer_asio.Pool.Select.Cycle.{ahead, ahead-lt, SearchResult}
use socks5balancer_asio.Pool.Select.Next.{get_next_server_searches}
use socks5balancer_asio.Pool.Select.Last.{try_get_last_server_searches}
use socks5balancer_asio.Pool.Select.Filter.{filter_valid-IsMember, filter_valid_empty}

length_pos {ℓ} : {A : Type ℓ} (l : List A) → is_empty l ≡ false → 0 < length l
length_pos [] e = cc
length_pos (x ∷ xs) e = omega arith

module _ {cb : CircularBuffer} (c : Config) (xs : List (UpstreamServer cb)) where
  -- A valid server of the pool, and the index moved to its position.
  pub record IsValidPick (r : Pick cb) : Type 0 where
    pub server : UpstreamServer cb
    pub place : ℕ
    pub changed : ℕ
    pub result : r ≡ picked (some server) place changed
    pub inside : place < length xs
    pub stands : get_elem? xs place ≡ some server
    pub valid : check_server c (some server) ≡ true

  -- Null with the index unchanged, and no server is valid.
  pub record IsNullPick (i : ℕ) (r : Pick cb) : Type 0 where
    pub changed : ℕ
    pub result : r ≡ picked none i changed
    pub all_invalid : (m : ℕ) → m < length xs → is_valid_at c xs m ≡ false

  -- The server at the index, valid or not.
  pub record IsForcedPick (i : ℕ) (r : Pick cb) : Type 0 where
    pub server : UpstreamServer cb
    pub changed : ℕ
    pub result : r ≡ picked (some server) i changed
    pub stands : get_elem? xs i ≡ some server

  abbrev pub PickResult : ℕ → Pick cb → Type 0
  PickResult i r = IsValidPick r ⊎ IsNullPick i r

  search_picks :
      (pos : ℕ → ℕ) (i changed : ℕ) (r : Found cb)
      → ((k : ℕ) → k < length xs → pos k < length xs)
      → SearchResult c xs pos i r
      → PickResult i (from_loop changed (some r))
  search_picks pos i changed r inside (inl f) =
      let (u, e) = get_elem?-some xs (pos f.places) (inside f.places f.in_cycle) in
      inl (record {
        server = u;
        place = pos f.places;
        changed = changed;
        result = cc (f.server, f.stops, e);
        inside = inside f.places f.in_cycle;
        stands = e;
        valid = subst (λ o. check_server c o ≡ true) e f.valid;
      })
  search_picks pos i changed r inside (inr n) =
      inr (record { changed = changed; result = cc (n.null, n.back); all_invalid = n.all_invalid })

  next_picks :
      (i changed : ℕ) → i < length xs → PickResult i (from_loop changed (get_next_server c xs i))
  next_picks i changed h =
      let (r, e, found) = get_next_server_searches c xs i h in
      rw e (
        search_picks (λ k. ahead (length xs) i (suc k)) i changed r
          (λ k l. ahead-lt (length xs) i (suc k) h (omega arith)) found)

  last_picks :
      (i changed : ℕ)
      → i < length xs
      → PickResult i (from_loop changed (try_get_last_server c xs i))
  last_picks i changed h =
      let (r, e, found) = try_get_last_server_searches c xs i h in
      rw e (
        search_picks (ahead (length xs) i) i changed r
          (λ k l. ahead-lt (length xs) i k h (omega arith)) found)

  random_picks :
      (draw : ℕ → ℕ) (i changed : ℕ)
      → ((b : ℕ) → draw b ≤ b)
      → IsIndexed xs
      → PickResult i (pick_random c xs draw i changed)
  unfolding pick_random
  random_picks draw i changed fair indexed =
      elim (Bool-cases (is_empty (filter_valid_server c xs))) [
        | inl nothing ↦ inr (record {
          changed = changed;
          result = rw nothing;
          all_invalid = λ m l. filter_valid_empty c xs m nothing;
        })
        | inr some_valid ↦ rw some_valid (drawn some_valid)
      ]
    where
      rs : List (UpstreamServer cb)
      rs = filter_valid_server c xs

      inside : is_empty rs ≡ false → draw (length rs - 1) < length rs
      inside e = omega (arith, fair (length rs - 1), length_pos rs e)

      drawn :
          is_empty rs ≡ false
          → PickResult i (elim (get_elem? rs (draw (length rs - 1))) [
            | none ↦ out_of_bounds
            | some s ↦ picked (some s) s.index changed
          ])
      drawn e =
          let (u, at) = get_elem?-some rs (draw (length rs - 1)) (inside e) in
          let m = filter_valid-IsMember c xs (draw (length rs - 1)) u at in
          inl (record {
            server = u;
            place = m.place;
            changed = changed;
            result = rw at (ap (λ j. picked (some u) j changed) (indexed m.place u m.stands));
            inside = m.inside;
            stands = m.stands;
            valid = m.valid;
          })

  by_rule_picks :
      (rule : RuleEnum) (draw : ℕ → ℕ) (now now' i changed : ℕ)
      → i < length xs
      → ((b : ℕ) → draw b ≤ b)
      → IsIndexed xs
      → ((rule ≡ force_only_one) × IsForcedPick i (by_rule c xs rule draw now now' i changed))
        ⊎ PickResult i (by_rule c xs rule draw now now' i changed)
  unfolding by_rule
  by_rule_picks force_only_one draw now now' i changed h fair indexed =
      let (u, e) = get_elem?-some xs i h in
      inl (refl, record { server = u; changed = changed; result = rw (e, by_rule); stands = e })
  by_rule_picks loop draw now now' i changed h fair indexed = inr (next_picks i changed h)
  by_rule_picks one_by_one draw now now' i changed h fair indexed = inr (last_picks i changed h)
  by_rule_picks change_by_time draw now now' i changed h fair indexed =
      elim (Bool-cases (ltb c.server_change_time (now - changed))) [
        | inl due ↦ rw due (inr (next_picks i now' h))
        | inr early ↦ rw early (inr (last_picks i changed h))
      ]
  by_rule_picks inherit draw now now' i changed h fair indexed =
      inr (random_picks draw i changed fair indexed)
  by_rule_picks random draw now now' i changed h fair indexed =
      inr (random_picks draw i changed fair indexed)

-- `getServerGlobal` in a pool whose index is inside it and whose servers are numbered by position,
-- with every random draw in the range of its distribution: it returns a valid server with the
-- index moved to that server's position, or null with the index unchanged where no server is
-- valid, or, under `force_only_one` only, the server at the index.
pub get_server_global_picks :
    {cb : CircularBuffer} (p : Pool cb) (draw : ℕ → ℕ) (now now' : ℕ)
    → p.last_use_upstream_index < length p.servers
    → ((b : ℕ) → draw b ≤ b)
    → IsIndexed p.servers
    → ((p.config.upstream_select_rule ≡ force_only_one)
        × IsForcedPick p.config p.servers p.last_use_upstream_index
            (get_server_global p draw now now'))
      ⊎ PickResult p.config p.servers p.last_use_upstream_index (get_server_global p draw now now')
unfolding get_server_global get_server_by_hint
get_server_global_picks p draw now now' h fair indexed =
    elim (Bool-cases (is_inherit p.config.upstream_select_rule)) [
      | inl own ↦ rw own picks
      | inr other ↦ rw other picks
    ]
  where
    picks :
        ((p.config.upstream_select_rule ≡ force_only_one)
          × IsForcedPick p.config p.servers p.last_use_upstream_index (
              by_rule p.config p.servers p.config.upstream_select_rule draw now now'
                p.last_use_upstream_index p.last_change_upstream_time))
        ⊎ PickResult p.config p.servers p.last_use_upstream_index (
            by_rule p.config p.servers p.config.upstream_select_rule draw now now'
              p.last_use_upstream_index p.last_change_upstream_time)
    picks =
        by_rule_picks p.config p.servers p.config.upstream_select_rule draw now now'
          p.last_use_upstream_index p.last_change_upstream_time h fair indexed

-- `getServerByHint` with a rule and an index of a client or listener, the index inside the pool,
-- the servers numbered by position, every random draw in the range of its distribution, and no
-- fallback to the global rule: it returns a valid server with the index moved to its position, or
-- null with the index unchanged where no server is valid, or, under `inherit` only, null with
-- nothing changed, or, under `force_only_one` only, the server at the index.
pub get_server_by_hint_picks :
    {cb : CircularBuffer} (p : Pool cb) (rule : RuleEnum) (i : ℕ) (draw : ℕ → ℕ) (now now' : ℕ)
    → i < length p.servers
    → ((b : ℕ) → draw b ≤ b)
    → IsIndexed p.servers
    → ((rule ≡ inherit)
        × (get_server_by_hint p rule i draw now now' false
            ≡ picked none i p.last_change_upstream_time))
      ⊎ (((rule ≡ force_only_one)
            × IsForcedPick p.config p.servers i (get_server_by_hint p rule i draw now now' false))
          ⊎ PickResult p.config p.servers i (get_server_by_hint p rule i draw now now' false))
unfolding get_server_by_hint
get_server_by_hint_picks p inherit i draw now now' h fair indexed = inl (refl, refl)
get_server_by_hint_picks p rule i draw now now' h fair indexed = inr (
    by_rule_picks p.config p.servers rule draw now now' i p.last_change_upstream_time h fair
      indexed)
