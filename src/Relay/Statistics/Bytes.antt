-- ===== src/Relay/Statistics/Bytes.antt =====
-- The byte counters between two runs of `calcByte`.
use socks5balancer_asio.Prelude.{
  ℕ, ◌+◌, ◌%◌, ◌≤◌, ◌<◌, ◌≡◌, refl, List, [], ◌∷◌, arith, size_mod, sub64,
}
use socks5balancer_asio.Relay.Statistics.Sessions.{SessionInfoContainer}
use socks5balancer_asio.Relay.Statistics.Info.{Info, calc_byte, info_up, info_down, raised}

-- What a session reports: bytes sent up, or bytes sent down.
pub data Traffic : Type 0 where
  up down : ℕ → Traffic

abbrev pub total_up : List Traffic → ℕ
total_up [] = 0
total_up (up b ∷ ts) = b + total_up ts
total_up (down b ∷ ts) = total_up ts

abbrev pub total_down : List Traffic → ℕ
total_down [] = 0
total_down (up b ∷ ts) = total_down ts
total_down (down b ∷ ts) = b + total_down ts

-- The difference of two counters.
difference :
    (x y b : ℕ)
    → x < size_mod
    → y < size_mod
    → x % size_mod ≡ (y + b) % size_mod
    → sub64 x y ≡ b % size_mod
difference x y b hx hy h = omega arith

raised-le : (c m : ℕ) → c ≤ raised c m
raised-le c m = ground arith

module _ {sc : SessionInfoContainer} where
  abbrev pub reports : List Traffic → Info sc → Info sc
  reports [] n = n
  reports (up b ∷ ts) n = reports ts (info_up b n)
  reports (down b ∷ ts) n = reports ts (info_down b n)

  -- What the counters hold after some traffic.
  pub record Grown (n : Info sc) (ts : List Traffic) (m : Info sc) : Type 0 where
    pub grown_up : m.byte_up % size_mod ≡ (n.byte_up + total_up ts) % size_mod
    pub grown_down : m.byte_down % size_mod ≡ (n.byte_down + total_down ts) % size_mod
    pub bounded_up : n.byte_up < size_mod → m.byte_up < size_mod
    pub bounded_down : n.byte_down < size_mod → m.byte_down < size_mod
    pub last_up : m.byte_up_last ≡ n.byte_up_last
    pub last_down : m.byte_down_last ≡ n.byte_down_last
    pub max_up : m.byte_up_change_max ≡ n.byte_up_change_max
    pub max_down : m.byte_down_change_max ≡ n.byte_down_change_max

  reports-Grown : (ts : List Traffic) (n : Info sc) → Grown n ts (reports ts n)
  unfolding info_up info_down
  reports-Grown [] n = record {
    grown_up = omega arith;
    grown_down = omega arith;
    bounded_up = λ h. h;
    bounded_down = λ h. h;
    last_up = refl;
    last_down = refl;
    max_up = refl;
    max_down = refl;
  }
  reports-Grown (up b ∷ ts) n =
      let g = reports-Grown ts (info_up b n) in
      record {
        grown_up = omega (arith, g.grown_up);
        grown_down = g.grown_down;
        bounded_up = λ h. g.bounded_up (omega arith);
        bounded_down = g.bounded_down;
        last_up = g.last_up;
        last_down = g.last_down;
        max_up = g.max_up;
        max_down = g.max_down;
      }
  reports-Grown (down b ∷ ts) n =
      let g = reports-Grown ts (info_down b n) in
      record {
        grown_up = g.grown_up;
        grown_down = omega (arith, g.grown_down);
        bounded_up = g.bounded_up;
        bounded_down = λ h. g.bounded_down (omega arith);
        last_up = g.last_up;
        last_down = g.last_down;
        max_up = g.max_up;
        max_down = g.max_down;
      }

  -- The counters are `size_t`.
  pub record IsSized (n : Info sc) : Type 0 where
    pub sized_up : n.byte_up < size_mod
    pub sized_down : n.byte_down < size_mod

  -- Between two runs of `calcByte`, with any number of reports of bytes in any order, the second run
  -- gives as change the sum of the bytes reported in each direction, modulo 2^64 also where a
  -- counter wrapped around, and the largest change is not below it.
  pub calc_byte-reports :
      (ts : List Traffic) (n : Info sc)
      → IsSized n
      → ((calc_byte (reports ts (calc_byte n))).byte_up_change ≡ total_up ts % size_mod)
        × ((calc_byte (reports ts (calc_byte n))).byte_down_change ≡ total_down ts % size_mod)
        × (total_up ts % size_mod ≤ (calc_byte (reports ts (calc_byte n))).byte_up_change_max)
        × (total_down ts % size_mod ≤ (calc_byte (reports ts (calc_byte n))).byte_down_change_max)
  unfolding calc_byte
  calc_byte-reports ts n v =
      let m = reports ts (calc_byte n) in
      let g = reports-Grown ts (calc_byte n) in
      let x : sub64 m.byte_up m.byte_up_last ≡ total_up ts % size_mod =
        rw (g.last_up) (difference _ _ _ (g.bounded_up v.sized_up) v.sized_up g.grown_up) in
      let y : sub64 m.byte_down m.byte_down_last ≡ total_down ts % size_mod =
        rw (g.last_down)
          (difference _ _ _ (g.bounded_down v.sized_down) v.sized_down g.grown_down) in
      (x, y, rw (← x) (raised-le _ _), rw (← y) (raised-le _ _))
