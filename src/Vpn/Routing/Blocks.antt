-- ===== src/Vpn/Routing/Blocks.antt =====
-- internal/vpn/routing.go, `rangeToCIDRs`: the blocks of a range.
use vpn_price_public.Base.{
  ℕ, zero, suc, ◌+◌, ◌-◌, ◌^◌, ◌/◌, ◌≤◌, ◌<◌, ◌≡◌, Bool, ◌&&◌, List, [], arith, ltb, leb, ◌==◌,
  if◌then◌else◌, count_by, max_u32, IsAligned, trailing_zeros32-IsAligned, trailing_zeros32-le,
  leading_zeros64-fits, two_pow-pos, same_block, All, Bool-cases, leb→le, inl, inr,
}
use vpn_price_public.Vpn.Routing.{Cidr, block_bits, cidrs_from, range_to_cidrs}

-- Whether an address lies in a network: the bits of the prefix agree.
abbrev pub matches : ℕ → Cidr → Bool
matches a c = a / 2 ^ (32 - c.prefix) == c.addr / 2 ^ (32 - c.prefix)

-- A network as it is printed: its address is in 32 bits and masked.
abbrev pub IsBlock : Cidr → Type 0
IsBlock c = (c.addr < 4294967296) × (c.prefix ≤ 32) × IsAligned (32 - c.prefix) c.addr

abbrev pub within : ℕ → ℕ → ℕ → Bool
within a start end = leb start a && leb a end

abbrev pub once_if : Bool → ℕ
once_if b = if b then 1 else 0

block_bits-fits : (s e : ℕ) → s ≤ e → 2 ^ block_bits s e ≤ e - s + 1
unfolding block_bits
block_bits-fits s e h =
    leading_zeros64-fits (e - s + 1) (block_bits s e) (omega arith) (ground arith)

zero-IsAligned : (k : ℕ) → IsAligned k 0
zero-IsAligned k = (0, omega arith)

block_bits-IsAligned : (s e : ℕ) → IsAligned (block_bits s e) s
unfolding block_bits
block_bits-IsAligned zero e = zero-IsAligned (block_bits zero e)
block_bits-IsAligned (suc s) e =
    trailing_zeros32-IsAligned (suc s) (block_bits (suc s) e) (ground arith)

block_bits-le : (s e : ℕ) → block_bits s e ≤ 32
unfolding block_bits
block_bits-le s e = ground (arith, trailing_zeros32-le s)

-- The first block of a range holds its addresses and no other.
matches-block :
    (a s e : ℕ)
    → matches a (record { addr = s; prefix = 32 - block_bits s e })
      ≡ (leb s a && ltb a (s + 2 ^ block_bits s e))
matches-block a s e =
    let k : 32 - (32 - block_bits s e) ≡ block_bits s e = omega (arith, block_bits-le s e) in
    rw k (same_block (block_bits s e) s a (block_bits-IsAligned s e))

module _ (a e : ℕ) (top : e ≤ max_u32) where
  -- One round of the loop: the block, and then what the rest holds.
  round :
      (s : ℕ) (rest : List Cidr)
      → s ≤ e
      → count_by (matches a) rest ≡ once_if (within a (s + 2 ^ block_bits s e) e)
      → once_if (leb s a && ltb a (s + 2 ^ block_bits s e))
          + count_by (matches a) (if ltb max_u32 (s + 2 ^ block_bits s e) then [] else rest)
        ≡ once_if (within a s e)
  round s rest h ih = ground (arith, block_bits-fits s e h, two_pow-pos (block_bits s e))

  count_by-cidrs_from :
      (fuel s : ℕ)
      → e < fuel + s
      → count_by (matches a) (cidrs_from fuel s e) ≡ once_if (within a s e)
  unfolding cidrs_from
  count_by-cidrs_from zero s h = ground arith
  count_by-cidrs_from (suc fuel) s h = elim (Bool-cases (leb s e)) [
    | inl more ↦ rw more (
        rw (matches-block a s e) (
          round s (cidrs_from fuel (s + 2 ^ block_bits s e) e) (leb→le s e more) (
            count_by-cidrs_from fuel (s + 2 ^ block_bits s e)
              (omega (arith, two_pow-pos (block_bits s e))))))
    | inr over ↦ rw over (ground arith)
  ]

block_bits-IsBlock :
    (s e : ℕ) → s ≤ max_u32 → IsBlock (record { addr = s; prefix = 32 - block_bits s e })
block_bits-IsBlock s e h =
    let k : 32 - (32 - block_bits s e) ≡ block_bits s e = omega (arith, block_bits-le s e) in
    (omega arith, omega arith, rw k (block_bits-IsAligned s e))

cidrs_from-IsBlock : (fuel s e : ℕ) → e ≤ max_u32 → All IsBlock (cidrs_from fuel s e)
unfolding cidrs_from
cidrs_from-IsBlock zero s e top = tt
cidrs_from-IsBlock (suc fuel) s e top = elim (Bool-cases (leb s e)) [
  | inl more ↦ rw more (
    block_bits-IsBlock s e (omega (arith, leb→le s e more)),
    elim (Bool-cases (ltb max_u32 (s + 2 ^ block_bits s e))) [
      | inl end ↦ rw end tt
      | inr next ↦ rw next (cidrs_from-IsBlock fuel (s + 2 ^ block_bits s e) e top)
    ],
  )
  | inr over ↦ rw over tt
]

pub range_to_cidrs-IsBlock : (s e : ℕ) → e ≤ max_u32 → All IsBlock (range_to_cidrs s e)
unfolding range_to_cidrs
range_to_cidrs-IsBlock s e top = cidrs_from-IsBlock (suc e - s) s e top

-- If the end of a range is a 32-bit address, every address of the range is in exactly one of its
-- blocks and any other in none.
pub count_by-range_to_cidrs :
    (a s e : ℕ) → e ≤ max_u32 → count_by (matches a) (range_to_cidrs s e) ≡ once_if (within a s e)
unfolding range_to_cidrs
count_by-range_to_cidrs a s e top = count_by-cidrs_from a e top (suc e - s) s (omega arith)
