-- ===== src/Base/Words.antt =====
-- `std::size_t` and `std::uint64_t`: a word is a natural below `2 ^ 64`, and what may wrap is
-- written with these operations.
use Prim.Native.Nat.{ℕ, ◌+◌, ◌-◌, ◌*◌, ◌%◌, ◌^◌}
use mathlib.Core.Logic.{◌≢◌}
use native.Mathlib.Omega.{arith}

abbrev pub word_size : ℕ
word_size = 2 ^ 64

-- The largest `std::size_t`, `static_cast<std::size_t>(-1)`.
abbrev pub word_max : ℕ
word_max = word_size - 1

abbrev pub add64 : ℕ → ℕ → ℕ
add64 a b = (a + b) % word_size

abbrev pub sub64 : ℕ → ℕ → ℕ
sub64 a b = (a + word_size - b) % word_size

abbrev pub mul64 : ℕ → ℕ → ℕ
mul64 a b = (a * b) % word_size

-- `std::uint32_t` counters.
abbrev pub add32 : ℕ → ℕ → ℕ
add32 a b = (a + b) % 2 ^ 32

pub add64_one_ne : (a : ℕ) → add64 a 1 ≢ a
add64_one_ne a = omega arith
