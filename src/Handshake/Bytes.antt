-- ===== src/Handshake/Bytes.antt =====
-- Positions in messages that end in a port.
use socks5balancer_asio.Prelude.{
  ℕ, suc, ◌+◌, ◌-◌, ◌*◌, ◌/◌, ◌%◌, ◌<◌, ◌≡◌, refl, ap, subst, [], ◌∷◌, ◌++◌, Bytes, length, take,
  drop, take-append_length, drop-append_length, length-append, arith,
}
use socks5balancer_asio.Handshake.State.{at}
use socks5balancer_asio.Handshake.Client.{port_part}
use socks5balancer_asio.Handshake.Server5.{port_of}

pub at-append_length : (xs : Bytes) (h : ℕ) (ys : Bytes) → at (xs ++ h ∷ ys) (length xs) ≡ h
at-append_length [] h ys = refl
at-append_length (x ∷ xs) h ys = at-append_length xs h ys

at-append_suc : (xs : Bytes) (h l : ℕ) (ys : Bytes) → at (xs ++ h ∷ l ∷ ys) (suc (length xs)) ≡ l
at-append_suc [] h l ys = refl
at-append_suc (x ∷ xs) h l ys = at-append_suc xs h l ys

pub at_last_but_one :
    (xs : Bytes) (h l : ℕ) → at (xs ++ h ∷ l ∷ []) (length (xs ++ h ∷ l ∷ []) - 2) ≡ h
at_last_but_one xs h l =
    let e : length (xs ++ h ∷ l ∷ []) - 2 ≡ length xs =
      omega (arith, length-append xs (h ∷ l ∷ [])) in
    rw e (at-append_length xs h (l ∷ []))

pub at_last : (xs : Bytes) (h l : ℕ) → at (xs ++ h ∷ l ∷ []) (length (xs ++ h ∷ l ∷ []) - 1) ≡ l
at_last xs h l =
    let e : length (xs ++ h ∷ l ∷ []) - 1 ≡ suc (length xs) =
      omega (arith, length-append xs (h ∷ l ∷ [])) in
    rw e (at-append_suc xs h l [])

pub port_of_lem : (xs : Bytes) (h l : ℕ) → port_of (xs ++ h ∷ l ∷ []) ≡ h * 256 + l
port_of_lem xs h l = omega (arith, at_last_but_one xs h l, at_last xs h l)

pub port_part_lem : (h l : ℕ) → h < 256 → l < 256 → port_part (h * 256 + l) ≡ h ∷ l ∷ []
port_part_lem h l hh hl =
    let e : (h * 256 + l) / 256 % 256 ≡ h = omega arith in
    let f : (h * 256 + l) % 256 ≡ l = omega arith in rw (e, f)

pub take_exact : (n : ℕ) (xs ys : Bytes) → length xs ≡ n → take n (xs ++ ys) ≡ xs
take_exact n xs ys e = subst (λ m. take m (xs ++ ys) ≡ xs) e (take-append_length xs ys)

pub drop_exact : (n : ℕ) (xs ys : Bytes) → length xs ≡ n → drop n (xs ++ ys) ≡ ys
drop_exact n xs ys e = subst (λ m. drop m (xs ++ ys) ≡ ys) e (drop-append_length xs ys)

pub take_all : (xs : Bytes) → take (length xs) xs ≡ xs
take_all [] = refl
take_all (x ∷ xs) = ap (◌∷◌ x) (take_all xs)
