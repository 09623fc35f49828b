-- ===== src/Common/Words.antt =====
-- Arithmetic of the unsigned machine words, with its wrap-around.
use Prim.Native.Nat.{ℕ, ◌+◌, ◌-◌, ◌%◌, ◌^◌}

abbrev pub u16 : ℕ
u16 = 2 ^ 16

abbrev pub u32 : ℕ
u32 = 2 ^ 32

abbrev pub u64 : ℕ
u64 = 2 ^ 64

abbrev pub add_u64 : ℕ → ℕ → ℕ
add_u64 a b = (a + b) % u64

abbrev pub sub_u64 : ℕ → ℕ → ℕ
sub_u64 a b = (a + u64 - b) % u64

abbrev pub add_u32 : ℕ → ℕ → ℕ
add_u32 a b = (a + b) % u32

abbrev pub sub_u32 : ℕ → ℕ → ℕ
sub_u32 a b = (a + u32 - b) % u32
