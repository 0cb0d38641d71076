-- ===== src/Pool/Select/Filter.antt =====
-- `filterValidServer`, from which the random rule chooses.
use socks5balancer_asio.Prelude.{
  ℕ, zero, suc, ◌<◌, ◌≡◌, refl, subst, inl, inr, true, false, List, [], ◌∷◌, some, length,
  get_elem?, arith, Bool-cases, is_empty,
}
use socks5balancer_asio.Config.{Config}
use socks5balancer_asio.Delay.Buffer.{CircularBuffer}
use socks5balancer_asio.Pool.Server.{UpstreamServer, check_server}
use socks5balancer_asio.Pool.Select.{is_valid_at, filter_valid_server}

module _ {cb : CircularBuffer} (c : Config) where
  -- A valid server of the pool, with its position.
  pub record IsMember (xs : List (UpstreamServer cb)) (u : UpstreamServer cb) : Type 0 where
    pub place : ℕ
    pub inside : place < length xs
    pub stands : get_elem? xs place ≡ some u
    pub valid : check_server c (some u) ≡ true

  IsMember-later :
      (x u : UpstreamServer cb) (xs : List (UpstreamServer cb))
      → IsMember xs u
      → IsMember (x ∷ xs) u
  IsMember-later x u xs m = record {
    place = suc m.place;
    inside = omega (arith, m.inside);
    stands = m.stands;
    valid = m.valid;
  }

  IsMember-kept :
      (x u : UpstreamServer cb) (xs : List (UpstreamServer cb))
      → ((j : ℕ) → get_elem? (filter_valid_server c xs) j ≡ some u → IsMember xs u)
      → check_server c (some x) ≡ true
      → (k : ℕ) → get_elem? (x ∷ filter_valid_server c xs) k ≡ some u
      → IsMember (x ∷ xs) u
  IsMember-kept x u xs ih good zero e = record {
    place = 0;
    inside = omega arith;
    stands = e;
    valid = subst (λ o. check_server c o ≡ true) e good;
  }
  IsMember-kept x u xs ih good (suc k) e = IsMember-later x u xs (ih k e)

  pub filter_valid-IsMember :
      (xs : List (UpstreamServer cb)) (k : ℕ) (u : UpstreamServer cb)
      → get_elem? (filter_valid_server c xs) k ≡ some u
      → IsMember xs u
  unfolding filter_valid_server
  filter_valid-IsMember [] k u e = cc
  filter_valid-IsMember (x ∷ xs) k u e = elim (Bool-cases (check_server c (some x))) [
    | inl good ↦ IsMember-kept x u xs (λ j. filter_valid-IsMember xs j u) good k (rw good at e)
    | inr bad ↦ IsMember-later x u xs (filter_valid-IsMember xs k u (rw bad at e))
  ]

  pub filter_valid_empty :
      (xs : List (UpstreamServer cb)) (m : ℕ)
      → is_empty (filter_valid_server c xs) ≡ true
      → is_valid_at c xs m ≡ false
  unfolding filter_valid_server check_server
  filter_valid_empty [] m e = refl
  filter_valid_empty (x ∷ xs) zero e = ground arith
  filter_valid_empty (x ∷ xs) (suc m) e = ground (arith, filter_valid_empty xs m)
