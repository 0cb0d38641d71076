-- ===== src/Prelude/Words.antt =====
-- `size_t` arithmetic, and undefined behaviour passed on as `none`.
use Prim.Native.Nat.{ℕ, ◌+◌, ◌-◌, ◌<◌, ◌%◌, ◌^◌}
use mathlib.Core.Path.{◌≡◌}
use mathlib.Core.Option.{Option, none, some}
use native.Mathlib.Omega.{arith}

abbrev pub size_mod : ℕ
size_mod = 2 ^ 64

abbrev pub add64 : ℕ → ℕ → ℕ
add64 a b = (a + b) % size_mod

-- `a - b` of two `size_t`.
abbrev pub sub64 : ℕ → ℕ → ℕ
sub64 a b = (a + size_mod - b) % size_mod

infixl 5 ◌>>=◌
abbrev pub ◌>>=◌ : {A B : Type 0} → Option A → (A → Option B) → Option B
none >>= k = none
some a >>= k = k a

pub sub64-add64 : (a b c : ℕ) → c < size_mod → add64 a b ≡ c → sub64 c (a % size_mod) ≡ b % size_mod
sub64-add64 a b c h e = omega arith

-- A property of the result, where there is one.
abbrev pub AllSome : {A : Type 0} → (A → Type 0) → Option A → Type 0
AllSome P none = Unit
AllSome P (some a) = P a

pub AllSome-bind :
    {A B : Type 0} (P : A → Type 0) (Q : B → Type 0) (m : Option A) (k : A → Option B)
    → AllSome P m
    → ((a : A) → P a → AllSome Q (k a))
    → AllSome Q (m >>= k)
AllSome-bind P Q none k p h = tt
AllSome-bind P Q (some a) k p h = h a p

pub AllSome-any : {A : Type 0} (m : Option A) → AllSome (λ _. Unit) m
AllSome-any none = tt
AllSome-any (some a) = tt
