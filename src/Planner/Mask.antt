-- ===== src/Planner/Mask.antt =====
-- `RoleMask` of include/tensortransit/planner.h, by its bits.
use Prim.Native.Nat.{bit_and, bit_or}
use recurlocal.Base.{ℕ, ◌^◌, ◌-◌, Bool, not, ◌==◌}
use recurlocal.Tensor.{TensorRole, role_value}

abbrev pub RoleMask : Type 0
RoleMask = ℕ

abbrev pub role_bit : TensorRole → ℕ
role_bit r = 2 ^ role_value r

abbrev pub nothing : RoleMask
nothing = 0

abbrev pub everything : RoleMask
everything = 2 ^ 32 - 1

abbrev pub of : TensorRole → RoleMask
of a = role_bit a

abbrev pub of_two : TensorRole → TensorRole → RoleMask
of_two a b = bit_or (role_bit a) (role_bit b)

unfoldable pub has : RoleMask → TensorRole → Bool
has m r = not (bit_and m (role_bit r) == 0)

abbrev pub is_empty : RoleMask → Bool
is_empty m = m == 0
