-- ===== src/Vpn/Routing/Excluded.antt =====
-- internal/vpn/routing.go, `excludedRanges`: the listed and the private networks.
use mathlib.Core.List.{Permᴰ, flat_map}
use vpn_price_public.Base.{
  ℕ, suc, ◌+◌, ◌-◌, ◌^◌, ◌≤◌, ◌<◌, ◌≡◌, refl, ap, ◌∙◌, Bool, not, List, [], ◌∷◌, ◌++◌, Option, none,
  some, arith, any, any-append, All, count_by, is_empty, Text, trim_space, split, max_u32,
  same_block, two_pow-pos, u32, All-append, any-perm, All-perm, if◌then◌else◌,
}
use vpn_price_public.Vpn.Net.{Network, parse_cidr}
use vpn_price_public.Vpn.Net.Parsing.{IsNetwork, parse_cidr-IsNetwork}
use vpn_price_public.Vpn.Routing.{
  IpRange, range_of, range_of_parsed, ranges_of, all_ranges, private_cidrs, merge_sorted,
  merge_ranges, excluded_ranges, compute_complement,
}
use vpn_price_public.Vpn.Routing.Blocks.{matches, once_if, IsBlock}
use vpn_price_public.Vpn.Routing.Complement.{
  in_range, IsRange, IsSortedFrom, count_by-complement-merge, complement-IsBlock,
}

-- The networks that a line of the list names: one, or none.
abbrev network_list : Option Network → List Network
network_list none = []
network_list (some n) = n ∷ []

abbrev networks_of : Text → List Network
networks_of line = network_list (parse_cidr (trim_space line))

-- Whether an address lies in a network: the bits of the mask agree.
abbrev pub in_network : ℕ → Network → Bool
in_network a n = matches a (record { addr = n.ip4; prefix = n.ones })

-- The networks of the list and the private ones, which stay outside the tunnel.
pub direct_networks : Text → List Network
direct_networks ru_cidrs =
    flat_map networks_of (split 10 ru_cidrs) ++ flat_map networks_of private_cidrs

range_end :
    (ip size : ℕ)
    → 0 < size
    → ip + size ≤ 4294967296
    → suc (u32 (ip + u32 size + max_u32)) ≡ ip + size
range_end ip size pos h = omega arith

range_of_lem :
    (a : ℕ) (n : Network)
    → IsNetwork n
    → IsRange (range_of n) × (in_range a (range_of n) ≡ in_network a n)
range_of_lem a n (short, aligned, inside) =
    let size = 2 ^ (32 - n.ones) in
    let end = range_end n.ip4 size (two_pow-pos (32 - n.ones)) inside in
    let pos = two_pow-pos (32 - n.ones) in
    ((omega arith, omega arith), rw (same_block (32 - n.ones) n.ip4 a aligned) (ground arith))

ranges_of_lem :
    (a : ℕ) (parsed : Option Network)
    → ((n : Network) → parsed ≡ some n → IsNetwork n)
    → All IsRange (range_of_parsed parsed)
      × (any (in_range a) (range_of_parsed parsed) ≡ any (in_network a) (network_list parsed))
ranges_of_lem a none h = (tt, refl)
ranges_of_lem a (some n) h =
    let (range, same) = range_of_lem a n (h n refl) in ((range, tt), rw same)

cidr_lem :
    (a : ℕ) (cidr : Text)
    → let ranges = if is_empty cidr then [] else range_of_parsed (parse_cidr cidr) in
      All IsRange ranges
      × (any (in_range a) ranges ≡ any (in_network a) (network_list (parse_cidr cidr)))
unfolding parse_cidr
cidr_lem a [] = (tt, refl)
cidr_lem a (c ∷ cidr) =
    ranges_of_lem a (parse_cidr (c ∷ cidr)) (λ n e. parse_cidr-IsNetwork (c ∷ cidr) e)

ranges_of-networks_of :
    (a : ℕ) (line : Text)
    → All IsRange (ranges_of line)
      × (any (in_range a) (ranges_of line) ≡ any (in_network a) (networks_of line))
unfolding ranges_of
ranges_of-networks_of a line = cidr_lem a (trim_space line)

flat_map-ranges_of :
    (a : ℕ) (lines : List Text)
    → All IsRange (flat_map ranges_of lines)
      × (any (in_range a) (flat_map ranges_of lines)
          ≡ any (in_network a) (flat_map networks_of lines))
unfolding flat_map
flat_map-ranges_of a [] = (tt, refl)
flat_map-ranges_of a (l ∷ ls) =
    let (here_ok, here) = ranges_of-networks_of a l in
    let (rest_ok, rest) = flat_map-ranges_of a ls in
    (
      All-append IsRange (ranges_of l) (flat_map ranges_of ls) here_ok rest_ok,
      rw (any-append (in_range a) (ranges_of l) (flat_map ranges_of ls)) (
          rw (any-append (in_network a) (networks_of l) (flat_map networks_of ls))
            (rw (here, rest))),
    )

all_ranges_lem :
    (a : ℕ) (ru_cidrs : Text)
    → All IsRange (all_ranges ru_cidrs)
      × (any (in_range a) (all_ranges ru_cidrs) ≡ any (in_network a) (direct_networks ru_cidrs))
unfolding all_ranges direct_networks
all_ranges_lem a t =
    let (ru_ok, ru) = flat_map-ranges_of a (split 10 t) in
    let (private_ok, private) = flat_map-ranges_of a private_cidrs in
    (
      All-append IsRange _ _ ru_ok private_ok,
      rw
          (any-append (in_range a) (flat_map ranges_of (split 10 t))
            (flat_map ranges_of private_cidrs))
          (rw
            (any-append (in_network a) (flat_map networks_of (split 10 t))
              (flat_map networks_of private_cidrs))
            (rw (ru, private))),
    )

-- What `sort.Slice` promises: the same ranges, by growing start.
abbrev pub IsAscending : List IpRange → Type 0
IsAscending [] = Unit
IsAscending (r ∷ rs) = All (λ s. r.start ≤ s.start) rs × IsAscending rs

pub record IsSort (sort : List IpRange → List IpRange) : Type 0 where
  pub permutes : (rs : List IpRange) → Permᴰ (sort rs) rs
  pub ascends : (rs : List IpRange) → IsAscending (sort rs)

ascending-IsSortedFrom :
    (low : ℕ) (rs : List IpRange)
    → All (λ s. low ≤ s.start) rs
    → IsAscending rs
    → All IsRange rs
    → IsSortedFrom low rs
ascending-IsSortedFrom low [] above up ok = tt
ascending-IsSortedFrom low (r ∷ rs) above up ok =
    (above.0, ok.0, ascending-IsSortedFrom r.start rs up.0 up.1 ok.1)

zero_below : (rs : List IpRange) → All (λ s. 0 ≤ s.start) rs
zero_below [] = tt
zero_below (r ∷ rs) = (omega arith, zero_below rs)

sort-IsSortedFrom :
    {sort : List IpRange → List IpRange}
    → IsSort sort
    → (rs : List IpRange) → All IsRange rs
    → IsSortedFrom 0 (sort rs)
sort-IsSortedFrom {sort} sorts rs ok =
    ascending-IsSortedFrom 0 (sort rs) (zero_below (sort rs)) (sorts.ascends rs)
      (All-perm IsRange (sorts.permutes rs) ok)

-- `mergeRanges` merges some sorted list of the same ranges.
merge_ranges_lem :
    {sort : List IpRange → List IpRange}
    → IsSort sort
    → (rs : List IpRange) → All IsRange rs
    → (sorted : List IpRange) × (merge_ranges sort rs ≡ merge_sorted sorted)
      × IsSortedFrom 0 sorted
      × ((a : ℕ) → any (in_range a) sorted ≡ any (in_range a) rs)
unfolding merge_ranges merge_sorted
merge_ranges_lem sorts [] ok = ([], refl, tt, λ a. refl)
merge_ranges_lem {sort} sorts (r ∷ rs) ok = (
  sort (r ∷ rs),
  refl,
  sort-IsSortedFrom sorts (r ∷ rs) ok,
  λ a. any-perm (in_range a) (sorts.permutes (r ∷ rs)),
)

-- A 32-bit address is in exactly one block of the complement if no listed and no private network
-- holds it, and in none otherwise; provided the sort permutes its argument into ascending order.
pub count_by-complement-excluded :
    {sort : List IpRange → List IpRange}
    → IsSort sort
    → (ru_cidrs : Text) (a : ℕ) → a ≤ max_u32
    → count_by (matches a) (compute_complement (excluded_ranges sort ru_cidrs))
      ≡ once_if (not (any (in_network a) (direct_networks ru_cidrs)))
unfolding excluded_ranges
count_by-complement-excluded sorts t a h =
    let (ok, same) = all_ranges_lem a t in
    let (sorted, merged, ordered, holds) = merge_ranges_lem sorts (all_ranges t) ok in
    rw merged
      (count_by-complement-merge a sorted h ordered ∙ ap (λ b. once_if (not b)) (holds a ∙ same))

pub complement-excluded-IsBlock :
    {sort : List IpRange → List IpRange}
    → IsSort sort
    → (ru_cidrs : Text) → All IsBlock (compute_complement (excluded_ranges sort ru_cidrs))
unfolding excluded_ranges
complement-excluded-IsBlock sorts t =
    let (sorted, merged, ordered, holds) =
      merge_ranges_lem sorts (all_ranges t) (all_ranges_lem 0 t).0 in
    rw merged (complement-IsBlock sorted ordered)
