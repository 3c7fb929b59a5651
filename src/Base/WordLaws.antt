-- ===== src/Base/WordLaws.antt =====
-- What the proofs use of math/bits and of aligned blocks.
use Prim.Native.Nat.{ℕ, zero, suc, ◌+◌, ◌-◌, ◌*◌, ◌/◌, ◌%◌, ◌^◌, ◌≤◌, ◌<◌}
use mathlib.Core.Path.{◌≡◌}
use mathlib.Core.Logic.{inl, inr}
use mathlib.Core.Bool.{◌&&◌}
use native.Mathlib.Nat.{
  zero-add, suc-add, pow-suc, mul-div_cancel, div-eq_of_lt-le, div-mul-le_self, lt-div-mul-add,
}
use native.Mathlib.Omega.{arith}
use vpn_price_public.Base.Tests.{◌==◌, ==_iff, leb, ltb, Bool-cases}
use vpn_price_public.Base.Words.{zeros_below, trailing_zeros32, bit_length, leading_zeros64}

pub two_pow-pos : (k : ℕ) → 0 < 2 ^ k
two_pow-pos zero = omega arith
two_pow-pos (suc k) = rw pow-suc (omega (arith, two_pow-pos k))

-- `x` is a multiple of `2 ^ k`.
abbrev pub IsAligned : ℕ → ℕ → Type 0
IsAligned k x = (q : ℕ) × (x ≡ q * 2 ^ k)

zeros_below-IsAligned : (width x k : ℕ) → k ≤ zeros_below width x → IsAligned k x
unfolding zeros_below
zeros_below-IsAligned width x zero h = (x, omega arith)
zeros_below-IsAligned zero x (suc k) h = absurd (omega arith)
zeros_below-IsAligned (suc width) x (suc k) h =
    let even : x % 2 ≡ 0 = ground arith in
    let deeper : k ≤ zeros_below width (x / 2) = ground arith in
    let half : IsAligned k (x / 2) = zeros_below-IsAligned width (x / 2) k deeper in
    (half.0, rw pow-suc (omega (arith, half.1)))

two_pow-le_of_bit_length : (width x k : ℕ) → suc k ≤ bit_length width x → 2 ^ k ≤ x
unfolding bit_length
two_pow-le_of_bit_length zero x k h = absurd (omega arith)
two_pow-le_of_bit_length (suc width) x zero h = ground arith
two_pow-le_of_bit_length (suc width) x (suc k) h =
    rw pow-suc (ground (arith, two_pow-le_of_bit_length width (x / 2) k))

bit_length-le : (width x : ℕ) → bit_length width x ≤ width
unfolding bit_length
bit_length-le zero x = omega arith
bit_length-le (suc width) x = ground (arith, bit_length-le width (x / 2))

bit_length-pos : (width x : ℕ) → 0 < x → 0 < bit_length (suc width) x
unfolding bit_length
bit_length-pos width x h = ground arith

inside_of_quotient : (b q a : ℕ) → 0 < b → a / b ≡ q → (q * b ≤ a) × (a < q * b + b)
inside_of_quotient b q a h e = rw (← e) (div-mul-le_self a b, lt-div-mul-add h)

quotient_eq : (b q a : ℕ) → 0 < b → (a / b == q) ≡ (leb (q * b) a && ltb a (q * b + b))
quotient_eq b q a h = elim (Bool-cases (leb (q * b) a && ltb a (q * b + b))) [
  | inl inside ↦ rw inside ((==_iff _ _).1 (div-eq_of_lt-le b (ground arith) (ground arith)))
  | inr outside ↦ rw outside (ground (arith, inside_of_quotient b q a h))
]

-- The block of `2 ^ k` numbers that holds an aligned `s` begins there.
pub same_block :
    (k s a : ℕ) → IsAligned k s → (a / 2 ^ k == s / 2 ^ k) ≡ (leb s a && ltb a (s + 2 ^ k))
same_block k s a (q, e) =
    rw e (rw (mul-div_cancel q (two_pow-pos k)) (quotient_eq (2 ^ k) q a (two_pow-pos k)))

zeros_below-le : (width x : ℕ) → zeros_below width x ≤ width
unfolding zeros_below
zeros_below-le zero x = omega arith
zeros_below-le (suc width) x = ground (arith, zeros_below-le width (x / 2))

pub trailing_zeros32-le : (x : ℕ) → trailing_zeros32 x ≤ 32
unfolding trailing_zeros32
trailing_zeros32-le x = zeros_below-le 32 x

pub trailing_zeros32-IsAligned : (x k : ℕ) → k ≤ trailing_zeros32 x → IsAligned k x
unfolding trailing_zeros32
trailing_zeros32-IsAligned x k h = zeros_below-IsAligned 32 x k h

-- `63 - LeadingZeros64(n)` is the place of the highest bit.
pub leading_zeros64-fits : (n k : ℕ) → 0 < n → k ≤ 63 - leading_zeros64 n → 2 ^ k ≤ n
unfolding leading_zeros64
leading_zeros64-fits n k pos h =
    two_pow-le_of_bit_length 64 n k (omega (arith, bit_length-le 64 n, bit_length-pos 63 n pos))

pub two_pow-add : (a b : ℕ) → 2 ^ (a + b) ≡ 2 ^ a * 2 ^ b
two_pow-add zero b = rw zero-add (omega arith)
two_pow-add (suc a) b = rw (suc-add, pow-suc 2 (a + b), pow-suc 2 a, two_pow-add a b) (omega arith)
