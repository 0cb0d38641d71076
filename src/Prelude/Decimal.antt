-- ===== src/Prelude/Decimal.antt =====
-- Unsigned numbers in decimal, as `std::to_string` and the stream operators print them.
use Prim.Native.Nat.{ℕ, zero, suc, ◌+◌, ◌/◌, ◌%◌}
use mathlib.Core.List.{[], ◌∷◌, ◌++◌}
use socks5balancer_asio.Prelude.Tests.{ltb, if◌then◌else◌}
use socks5balancer_asio.Prelude.Lists.{Bytes}

-- On fuel; a number has fewer digits than its value plus one.
digits : ℕ → ℕ → Bytes
digits zero n = []
digits (suc fuel) n =
    let front = digits fuel (n / 10) in
    if ltb n 10 then (b'0' + n) ∷ [] else front ++ (b'0' + n % 10) ∷ []

unfoldable pub decimal : ℕ → Bytes
unfolding digits
decimal n = digits (suc n) n
