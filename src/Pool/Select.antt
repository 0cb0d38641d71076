-- ===== src/Pool/Select.antt =====
-- The choice of an upstream server. A result `out_of_bounds` is an access outside the pool, which is
-- undefined in C++; a loop that its fuel does not see ended gives `none`, and `endless` in the caller.
pub mod Cycle
pub mod Next
pub mod Last
pub mod Filter
pub mod Hint
pub mod Endless
use socks5balancer_asio.Prelude.{
  ℕ, zero, suc, ◌+◌, ◌-◌, ◌≤◌, ◌<◌, ◌≡◌, Bool, true, false, List, [], ◌∷◌, Option, none, some,
  length, get_elem?, ltb, leb, ◌==◌, if◌then◌else◌, is_empty,
}
use socks5balancer_asio.Config.{
  Config, RuleEnum, loop, random, one_by_one, change_by_time, force_only_one, inherit,
}
use socks5balancer_asio.Delay.Buffer.{CircularBuffer}
use socks5balancer_asio.Pool.Server.{UpstreamServer, Pool, check_server}

-- `if (i >= n) i = 0`
abbrev pub wrap : ℕ → ℕ → ℕ
wrap n i = if leb n i then 0 else i

abbrev pub Found : CircularBuffer → Type 0
Found cb = Option (UpstreamServer cb) × ℕ

-- The server returned (`none` is null), the index as the call leaves it, and the time of the last
-- change of server.
pub data Pick (cb : CircularBuffer) : Type 0 where
  picked : Option (UpstreamServer cb) → ℕ → ℕ → Pick cb
  out_of_bounds : Pick cb
  endless : Pick cb

abbrev pub is_inherit : RuleEnum → Bool
is_inherit inherit = true
is_inherit _ = false

module _ {cb : CircularBuffer} where
  abbrev pub is_valid_at : Config → List (UpstreamServer cb) → ℕ → Bool
  is_valid_at c xs i = check_server c (get_elem? xs i)

  -- `while (true)` of `getNextServer`: `start` is the index at the call, `i` the running one.
  unfoldable pub next_loop : Config → List (UpstreamServer cb) → ℕ → ℕ → ℕ → Option (Found cb)
  next_loop c xs start zero i = none
  next_loop c xs start (suc fuel) i =
      let j = wrap (length xs) (suc i) in
      let rest = next_loop c xs start fuel j in
      if is_valid_at c xs j
      then some (get_elem? xs j, j)
      else if start == j
      then some (none, j)
      else rest

  unfoldable pub get_next_server : Config → List (UpstreamServer cb) → ℕ → Option (Found cb)
  get_next_server c xs i =
      if is_empty xs then some (none, i) else next_loop c xs i (suc (length xs)) i

  -- `while (true)` of `tryGetLastServer`.
  unfoldable pub last_loop : Config → List (UpstreamServer cb) → ℕ → ℕ → ℕ → Option (Found cb)
  last_loop c xs start zero i = none
  last_loop c xs start (suc fuel) i =
      let k = wrap (length xs) i in
      let j = wrap (length xs) (suc k) in
      let rest = last_loop c xs start fuel j in
      if is_valid_at c xs k
      then some (get_elem? xs k, k)
      else if start == j
      then some (none, j)
      else rest

  unfoldable pub try_get_last_server : Config → List (UpstreamServer cb) → ℕ → Option (Found cb)
  try_get_last_server c xs i =
      if is_empty xs then some (none, i) else last_loop c xs i (suc (length xs)) i

  unfoldable pub filter_valid_server : Config → List (UpstreamServer cb) → List (UpstreamServer cb)
  filter_valid_server c [] = []
  filter_valid_server c (u ∷ us) =
      let rest = filter_valid_server c us in if check_server c (some u) then u ∷ rest else rest

  abbrev pub from_loop : ℕ → Option (Found cb) → Pick cb
  from_loop changed none = endless
  from_loop changed (some (s, i)) = picked s i changed

  -- `case random`: `draw b` is what the uniform distribution on 0 to `b` gives.
  unfoldable pub pick_random : Config → List (UpstreamServer cb) → (ℕ → ℕ) → ℕ → ℕ → Pick cb
  pick_random c xs draw i changed =
      let rs = filter_valid_server c xs in
      if is_empty rs then picked none i changed else elim (get_elem? rs (draw (length rs - 1))) [
        | none ↦ out_of_bounds
        | some s ↦ picked (some s) s.index changed
      ]

  -- The switch of `getServerByHint`. `now` and `now'` are the two readings of the clock.
  unfoldable pub by_rule :
      Config → List (UpstreamServer cb) → RuleEnum → (ℕ → ℕ) → ℕ → ℕ → ℕ → ℕ → Pick cb
  unfolding pick_random
  by_rule c xs force_only_one draw now now' i changed = elim (get_elem? xs i) [
    | none ↦ out_of_bounds
    | some s ↦ picked (some s) i changed
  ]
  by_rule c xs loop draw now now' i changed = from_loop changed (get_next_server c xs i)
  by_rule c xs one_by_one draw now now' i changed = from_loop changed (try_get_last_server c xs i)
  by_rule c xs change_by_time draw now now' i changed =
      if ltb c.server_change_time (now - changed)
      then from_loop now' (get_next_server c xs i)
      else from_loop changed (try_get_last_server c xs i)
  by_rule c xs inherit draw now now' i changed = pick_random c xs draw i changed
  by_rule c xs random draw now now' i changed = pick_random c xs draw i changed

  -- `i` is the caller's index, passed by reference.
  unfoldable pub get_server_by_hint : Pool cb → RuleEnum → ℕ → (ℕ → ℕ) → ℕ → ℕ → Bool → Pick cb
  unfolding by_rule
  get_server_by_hint p rule i draw now now' dont_fallback_to_global =
      if is_inherit rule
      then (if dont_fallback_to_global
          then by_rule p.config p.servers p.config.upstream_select_rule draw now now' i
              p.last_change_upstream_time
          else picked none i p.last_change_upstream_time)
      else by_rule p.config p.servers rule draw now now' i p.last_change_upstream_time

  unfoldable pub get_server_global : Pool cb → (ℕ → ℕ) → ℕ → ℕ → Pick cb
  get_server_global p draw now now' =
      get_server_by_hint p p.config.upstream_select_rule p.last_use_upstream_index draw now now'
        true

  -- The pool after a choice by the global rule, whose index is the pool's own.
  unfoldable pub after_global : Pool cb → Pick cb → Pool cb
  after_global p (picked s i changed) = record p {
    last_use_upstream_index = i;
    last_change_upstream_time = changed;
  }
  after_global p out_of_bounds = p
  after_global p endless = p
