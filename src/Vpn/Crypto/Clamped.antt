-- ===== src/Vpn/Crypto/Clamped.antt =====
-- internal/vpn/crypto.go, `GenerateWireGuardKeypair`: the private key as a number.
use vpn_price_public.Base.{
  ℕ, zero, suc, ◌+◌, ◌*◌, ◌%◌, ◌^◌, ◌≤◌, ◌<◌, ◌≡◌, List, [], ◌∷◌, arith, length, All,
}
use vpn_price_public.Vpn.Crypto.{clamp, at_last, clear_low, set_high}

-- The number that bytes stand for, the lowest first.
abbrev pub little_endian : List ℕ → ℕ
little_endian [] = 0
little_endian (b ∷ bs) = b + 256 * little_endian bs

-- `2 ^ (8 * n + 6)`
low_bound : ℕ → ℕ
low_bound zero = 64
low_bound (suc n) = 256 * low_bound n

at_last-bounds :
    (n b : ℕ) (bs : List ℕ)
    → length bs ≡ n
    → All (λ c. c < 256) (b ∷ bs)
    → (low_bound n ≤ little_endian (at_last set_high (b ∷ bs)))
      × (little_endian (at_last set_high (b ∷ bs)) < 2 * low_bound n)
unfolding low_bound
at_last-bounds zero b [] e h = (ground arith, ground arith)
at_last-bounds zero b (c ∷ bs) e h = ground arith
at_last-bounds (suc n) b [] e h = ground arith
at_last-bounds (suc n) b (c ∷ bs) e (h, hs) =
    let (low, high) = at_last-bounds n c bs (ground arith) hs in (omega arith, omega arith)

-- Of 32 bytes the clamping makes a number that is a multiple of 8, at least 2 ^ 254 and below 2 ^
-- 255, as Curve25519 asks of a private key.
pub clamp_lem :
    (bs : List ℕ)
    → length bs ≡ 32
    → All (λ b. b < 256) bs
    → (little_endian (clamp bs) % 8 ≡ 0)
      × (2 ^ 254 ≤ little_endian (clamp bs))
      × (little_endian (clamp bs) < 2 ^ 255)
unfolding clamp low_bound
clamp_lem [] e h = ground arith
clamp_lem (b ∷ []) e h = ground arith
clamp_lem (b ∷ c ∷ bs) e (h, hs) =
    let (low, high) = at_last-bounds 31 (clear_low b) (c ∷ bs) (ground arith) ((omega arith), hs) in
    (omega arith, low, high)
