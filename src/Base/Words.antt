-- ===== src/Base/Words.antt =====
-- 32-bit words, and the functions of Go's math/bits that the program uses.
use Prim.Native.Nat.{ℕ, zero, suc, ◌-◌, ◌/◌, ◌%◌}
use vpn_price_public.Base.Tests.{◌==◌, if◌then◌else◌}

abbrev pub max_u32 : ℕ
max_u32 = 4294967295

abbrev pub u32 : ℕ → ℕ
u32 n = n % 4294967296

unfoldable pub zeros_below : ℕ → ℕ → ℕ
zeros_below zero x = 0
zeros_below (suc width) x = if x % 2 == 0 then suc (zeros_below width (x / 2)) else 0

-- bits.TrailingZeros32
unfoldable pub trailing_zeros32 : ℕ → ℕ
trailing_zeros32 x = zeros_below 32 x

unfoldable pub bit_length : ℕ → ℕ → ℕ
bit_length zero x = 0
bit_length (suc width) x = if x == 0 then 0 else suc (bit_length width (x / 2))

-- bits.LeadingZeros64
unfoldable pub leading_zeros64 : ℕ → ℕ
leading_zeros64 x = 64 - bit_length 64 x
