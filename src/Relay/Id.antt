-- ===== src/Relay/Id.antt =====
-- SessionRelayId.h: the ids of the relay sessions.
use socks5balancer_asio.Prelude.{
  ℕ, zero, suc, ◌+◌, ◌-◌, ◌/◌, ◌%◌, ◌≤◌, ◌<◌, ◌≡◌, refl, ◌^◌, arith, ltb, if◌then◌else◌, size_mod,
  add64,
}

-- `lastRelayId` is the state.
unfoldable pub read_relay_id : ℕ → ℕ
read_relay_id last = add64 last 1

abbrev pub relay_id_mod : ℕ
relay_id_mod = (size_mod - 1) / 2

-- The id returned, which is the new `lastRelayId`.
unfoldable pub get_next_relay_id : ℕ → ℕ
get_next_relay_id last = add64 (if ltb relay_id_mod last then 0 else last) 1

unfoldable pub nth_relay_id : ℕ → ℕ → ℕ
nth_relay_id last zero = last
nth_relay_id last (suc n) = get_next_relay_id (nth_relay_id last n)

first_id : get_next_relay_id 0 ≡ 0 % 2 ^ 63 + 1
unfolding get_next_relay_id
first_id = refl

next_id : (n : ℕ) → get_next_relay_id (n % 2 ^ 63 + 1) ≡ suc n % 2 ^ 63 + 1
unfolding get_next_relay_id
next_id n = ground arith

nth_relay_id_lem : (n : ℕ) → nth_relay_id 0 (suc n) ≡ n % 2 ^ 63 + 1
unfolding nth_relay_id
nth_relay_id_lem zero = first_id
nth_relay_id_lem (suc n) = rw (nth_relay_id_lem n) (next_id n)

-- Counted from the start of the program, every id lies between 1 and 2^63, and two sessions of which
-- fewer than 2^63 were made from the one to the other have different ids.
pub nth_relay_id_unique :
    (m d : ℕ)
    → d < 2 ^ 63
    → (1 ≤ nth_relay_id 0 (suc m))
      × (nth_relay_id 0 (suc m) ≤ 2 ^ 63)
      × (nth_relay_id 0 (suc m) ≡ nth_relay_id 0 (suc (m + d)) → d ≡ 0)
nth_relay_id_unique m d h =
    rw (nth_relay_id_lem m, nth_relay_id_lem (m + d)) (omega arith, omega arith, λ e. omega arith)
