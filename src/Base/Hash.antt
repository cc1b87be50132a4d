-- ===== src/Base/Hash.antt =====
-- The FNV-1a hash that src/runtime.cpp and src/plan.cpp share, over the bytes of a value in memory, lowest
-- byte first.
use Prim.Native.Nat.{ℕ, zero, suc, ◌-◌, ◌/◌, ◌%◌, ◌^◌, bit_xor}
use mathlib.Core.List.{List, [], ◌∷◌}
use recurlocal.Base.Words.{mul64}
use recurlocal.Base.Int.{ℤ, pos, negsuc}

-- `kFnvOffset` and `kFnvPrime`.
abbrev pub fnv_offset : ℕ
fnv_offset = 1_469_598_103_934_665_603

abbrev pub fnv_prime : ℕ
fnv_prime = 1_099_511_628_211

-- The bytes of a value of the given size.
unfoldable pub bytes_of : ℕ → ℕ → List ℕ
bytes_of zero x = []
bytes_of (suc n) x = x % 256 ∷ bytes_of n (x / 256)

-- An `int` as its 32 bits.
abbrev pub int_bits : ℤ → ℕ
int_bits (pos n) = n % 2 ^ 32
int_bits (negsuc n) = 2 ^ 32 - 1 - n

abbrev pub hash_byte : ℕ → ℕ → ℕ
hash_byte h b = mul64 (bit_xor h b) fnv_prime

unfoldable pub hash_bytes : ℕ → List ℕ → ℕ
hash_bytes h [] = h
hash_bytes h (b ∷ bs) = hash_bytes (hash_byte h b) bs

-- `hash_value` for the sizes that the source hashes.
abbrev pub hash64 : ℕ → ℕ → ℕ
hash64 h x = hash_bytes h (bytes_of 8 x)

abbrev pub hash32 : ℕ → ℕ → ℕ
hash32 h x = hash_bytes h (bytes_of 4 x)
