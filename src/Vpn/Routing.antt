-- ===== src/Vpn/Routing.antt =====
-- internal/vpn/routing.go: the networks that a split tunnel routes.
use vpn_price_public.Base.{
  ℕ, zero, suc, ◌+◌, ◌-◌, ◌^◌, Bool, true, false, not, ◌&&◌, ◌||◌, List, [], ◌∷◌, ◌++◌, ltb, leb,
  ◌==◌, if◌then◌else◌, min, max_u32, u32, trailing_zeros32, leading_zeros64, Text, is_empty, codes,
  split, trim_space, Option, none, some,
}
use mathlib.Core.List.{flat_map}
use vpn_price_public.Vpn.Net.{Network, parse_cidr}
pub mod Blocks
pub mod Complement
pub mod Excluded
pub mod Printing
pub mod AllowedIps

pub record IpRange : Type 0 where
  pub start : ℕ
  pub end : ℕ

-- The text `a.b.c.d/prefix`, before it is printed.
pub record Cidr : Type 0 where
  pub addr : ℕ
  pub prefix : ℕ

-- The size of the next block, as a power of two.
unfoldable pub block_bits : ℕ → ℕ → ℕ
block_bits start end =
    let max_size : ℕ = if start == 0 then 32 else trailing_zeros32 start in
    let fit_bits : ℕ = 63 - leading_zeros64 (end - start + 1) in
    if ltb fit_bits max_size then fit_bits else max_size

-- The loop of `rangeToCIDRs`.
unfoldable pub cidrs_from : ℕ → ℕ → ℕ → List Cidr
cidrs_from zero start end = []
cidrs_from (suc fuel) start end =
    let size = block_bits start end in
    let block : Cidr = record { addr = start; prefix = 32 - size } in
    let next = start + 2 ^ size in
    let rest = cidrs_from fuel next end in
    if leb start end then block ∷ (if ltb max_u32 next then [] else rest) else []

-- Each round covers an address or more, so the fuel is enough.
unfoldable pub range_to_cidrs : ℕ → ℕ → List Cidr
range_to_cidrs start end = cidrs_from (suc end - start) start end

-- The test of `mergeRanges`, whose `last.end + 1` wraps around.
pub joins : IpRange → IpRange → Bool
joins last r = leb r.start (u32 (last.end + 1)) && not (last.end == max_u32)

pub grown : IpRange → IpRange → IpRange
grown last r = if ltb last.end r.end then record last { end = r.end } else last

-- The loop of `mergeRanges`; `last` is the last element of `merged`.
pub merge_from : IpRange → List IpRange → List IpRange
merge_from last [] = last ∷ []
merge_from last (r ∷ rs) =
    let joined = merge_from (grown last r) rs in
    let apart = last ∷ merge_from r rs in if joins last r then joined else apart

-- `mergeRanges` of ranges that are sorted by their start.
pub merge_sorted : List IpRange → List IpRange
unfolding merge_from
merge_sorted [] = []
merge_sorted (r ∷ rs) = merge_from r rs

-- `sort` stands for `sort.Slice` by the start of a range.
unfoldable pub merge_ranges : (List IpRange → List IpRange) → List IpRange → List IpRange
unfolding merge_sorted
merge_ranges sort [] = []
merge_ranges sort (r ∷ rs) = merge_sorted (sort (r ∷ rs))

-- What one round of `computeComplement` adds before the range `r`.
pub gap_before : ℕ → Bool → IpRange → List Cidr
gap_before cursor started r =
    if ltb cursor r.start || (not started && r.start == 0)
    then (if ltb cursor r.start then range_to_cidrs cursor (r.start - 1) else [])
    else []

-- The loop of `computeComplement`.
pub complement_from : ℕ → Bool → List IpRange → List Cidr
complement_from cursor started [] = range_to_cidrs cursor max_u32
complement_from cursor started (r ∷ rs) =
    let rest = complement_from (u32 (r.end + 1)) true rs in
    gap_before cursor started r ++ (if r.end == max_u32 then [] else rest)

unfoldable pub compute_complement : List IpRange → List Cidr
unfolding complement_from
compute_complement excluded = complement_from 0 false excluded

abbrev pub range_of : Network → IpRange
range_of n =
    let size : ℕ = u32 (2 ^ (32 - n.ones)) in
    record { start = n.ip4; end = u32 (n.ip4 + size + max_u32) }

abbrev pub range_of_parsed : Option Network → List IpRange
range_of_parsed none = []
range_of_parsed (some n) = range_of n ∷ []

-- What `add` of `excludedRanges` appends for one line.
pub ranges_of : Text → List IpRange
ranges_of line =
    let cidr = trim_space line in if is_empty cidr then [] else range_of_parsed (parse_cidr cidr)

abbrev pub private_cidrs : List Text
private_cidrs =
    codes "0.0.0.0/8"
    ∷ codes "10.0.0.0/8"
    ∷ codes "100.64.0.0/10"
    ∷ codes "127.0.0.0/8"
    ∷ codes "169.254.0.0/16"
    ∷ codes "172.16.0.0/12"
    ∷ codes "192.168.0.0/16"
    ∷ codes "192.0.0.0/24"
    ∷ codes "192.0.2.0/24"
    ∷ codes "198.18.0.0/15"
    ∷ codes "198.51.100.0/24"
    ∷ codes "203.0.113.0/24"
    ∷ codes "224.0.0.0/4"
    ∷ codes "240.0.0.0/4"
    ∷ []

-- The two loops of `excludedRanges`; `ru_cidrs` is the text of data/ru_cidrs.txt.
pub all_ranges : Text → List IpRange
unfolding ranges_of
all_ranges ru_cidrs = flat_map ranges_of (split 10 ru_cidrs) ++ flat_map ranges_of private_cidrs

pub excluded_ranges : (List IpRange → List IpRange) → Text → List IpRange
unfolding all_ranges
excluded_ranges sort ru_cidrs = merge_ranges sort (all_ranges ru_cidrs)
