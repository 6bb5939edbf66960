-- ===== src/Prelude/Words.antt =====
-- Machine words of the 32-bit target: `unsigned long` as a number below 2 ^ 32, and the conversions
-- between `int`, `int8_t`, `uint8_t` and it.
use Prim.Native.Nat.{ℕ, ◌+◌, ◌-◌, ◌%◌}
use byte_waterlevel.Prelude.Tests.{ltb, if◌then◌else◌}
use byte_waterlevel.Prelude.Int.{ℤ, pos, negsuc}

abbrev pub u32_mod : ℕ
u32_mod = 4_294_967_296

-- `a + b` and `a - b` on `unsigned long`
abbrev pub add32 : ℕ → ℕ → ℕ
add32 a b = (a + b) % u32_mod

abbrev pub sub32 : ℕ → ℕ → ℕ
sub32 a b = (a + u32_mod - b) % u32_mod

-- `int` to `unsigned long`
abbrev pub to_u32 : ℤ → ℕ
to_u32 (pos n) = n % u32_mod
to_u32 (negsuc n) = u32_mod - 1 - n % u32_mod

-- `unsigned long` to `int`
abbrev pub to_i32 : ℕ → ℤ
to_i32 w = if ltb w 2_147_483_648 then pos w else negsuc (u32_mod - 1 - w)

-- the low eight bits of an `int`
abbrev pub to_u8 : ℤ → ℕ
to_u8 (pos n) = n % 256
to_u8 (negsuc n) = 255 - n % 256

-- `int` to `int8_t`
abbrev pub to_i8 : ℤ → ℤ
to_i8 i = let w = to_u8 i in if ltb w 128 then pos w else negsuc (255 - w)
