-- ===== src/Base/Word.antt =====
-- Unsigned 64-bit arithmetic (`std::size_t`, `std::uint64_t`), and the 32-bit truncation of
-- `static_cast<int>`.
use Prim.Native.Nat.{ℕ, ◌+◌, ◌-◌, ◌%◌, ◌^◌}

-- The values are the bit patterns, read as unsigned numbers.
abbrev pub add64 : ℕ → ℕ → ℕ
add64 a b = (a + b) % 2 ^ 64

abbrev pub sub64 : ℕ → ℕ → ℕ
sub64 a b = (a + 2 ^ 64 - b) % 2 ^ 64

abbrev pub low32 : ℕ → ℕ
low32 a = a % 2 ^ 32
