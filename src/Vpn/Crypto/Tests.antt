-- ===== src/Vpn/Crypto/Tests.antt =====
-- A private key of 32 bytes that are all 255.
use vpn_price_public.Base.{ℕ, zero, suc, ◌%◌, ◌^◌, ◌≤◌, ◌<◌, ◌≡◌, refl, List, [], ◌∷◌, arith}
use vpn_price_public.Vpn.Crypto.{clamp}
use vpn_price_public.Vpn.Crypto.Clamped.{little_endian, clamp_lem}

abbrev ones : ℕ → List ℕ
ones zero = []
ones (suc n) = 255 ∷ ones n

clamp_example :
    (little_endian (clamp (ones 32)) % 8 ≡ 0)
    × (2 ^ 254 ≤ little_endian (clamp (ones 32)))
    × (little_endian (clamp (ones 32)) < 2 ^ 255)
clamp_example = clamp_lem (ones 32) refl (ground arith)
