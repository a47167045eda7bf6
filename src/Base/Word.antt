-- ===== src/Base/Word.antt =====
-- Machine words as native numbers: unsigned values wrap by `%`, and a signed value of 32 bits is the
-- integer that its bit pattern stands for.
use Prim.Native.Nat.{ℕ, ◌+◌, ◌-◌, ◌%◌, ◌<◌}
use mathlib.Core.Path.{◌≡◌}
use native.Mathlib.Omega.{arith}
use esphome_gps_pps_ntp_serv.Base.Tests.{ltb, if◌then◌else◌}
use esphome_gps_pps_ntp_serv.Base.Int.{ℤ, pos, negsuc}

abbrev pub u8 : ℕ → ℕ
u8 n = n % 256

abbrev pub u16 : ℕ → ℕ
u16 n = n % 65536

abbrev pub u32_mod : ℕ
u32_mod = 4294967296

abbrev pub u32 : ℕ → ℕ
u32 n = n % u32_mod

-- `uint32_t` subtraction wraps.
abbrev pub sub32 : ℕ → ℕ → ℕ
sub32 a b = (a + u32_mod - b) % u32_mod

-- `static_cast<int32_t>` of a `uint32_t`.
abbrev pub to_i32 : ℕ → ℤ
to_i32 w = if ltb w 2147483648 then pos w else negsuc (u32_mod - w - 1)

-- `static_cast<uint32_t>` of a signed value.
abbrev pub wrap_u32 : ℤ → ℕ
wrap_u32 (pos n) = n % u32_mod
wrap_u32 (negsuc n) = u32_mod - 1 - n % u32_mod

-- `static_cast<int32_t>` of a wider signed value.
abbrev pub cast_i32 : ℤ → ℤ
cast_i32 z = to_i32 (wrap_u32 z)

-- The difference of two words, read as a signed value, is the distance that was walked, also over
-- the wrap.
pub to_i32-sub32 : (a k : ℕ) → a < u32_mod → k < 2147483648 → to_i32 (sub32 (u32 (a + k)) a) ≡ pos k
to_i32-sub32 a k ha hk = ground arith

pub sub32-add : (a k : ℕ) → a < u32_mod → k < u32_mod → sub32 (u32 (a + k)) a ≡ k
sub32-add a k ha hk = omega arith
