-- ===== src/Base/Int.antt =====
-- Signed integers, for the places where the sources pass an `int` through `std::size_t` and back.
use Prim.Native.Nat.{ℕ, suc, ◌-◌, ◌%◌, ◌^◌}
use mathlib.Core.List.{◌∷◌}
use pi_poetry.Base.Tests.{ltb, if◌then◌else◌}
use pi_poetry.Base.Text.{Bytes}
use pi_poetry.Base.Strings.{to_string}

-- `negsuc n` is -(n + 1).
pub data ℤ : Type 0 where
  pos : ℕ → ℤ
  negsuc : ℕ → ℤ

-- `static_cast<std::size_t>` of an `int`.
abbrev pub int_to_size : ℤ → ℕ
int_to_size (pos n) = n % 2 ^ 64
int_to_size (negsuc n) = 2 ^ 64 - suc (n % 2 ^ 64)

-- `static_cast<int>` of a `std::size_t`: the low 32 bits, the highest of which is the sign.
abbrev pub size_to_int : ℕ → ℤ
size_to_int n =
    let low = n % 2 ^ 32 in if ltb low (2 ^ 31) then pos low else negsuc (2 ^ 32 - suc low)

-- `std::to_string` of an `int`.
abbrev pub int_to_string : ℤ → Bytes
int_to_string (pos n) = to_string n
int_to_string (negsuc n) = b'-' ∷ to_string (suc n)
