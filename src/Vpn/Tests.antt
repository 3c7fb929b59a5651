-- ===== src/Vpn/Tests.antt =====
-- Concrete runs of the routing and of the allocation of addresses, with insertion sort as the sort.
use mathlib.Core.List.{Permᴰ}
use mathlib.Core.List.Permᴰ
use vpn_price_public.Base.{
  ℕ, ◌≤◌, ◌<◌, ◌+◌, ◌≡◌, ◌≢◌, refl, ◌⊎◌, inl, inr, not, none, some, List, [], ◌∷◌, arith, leb, any,
  All, count_by, Text, codes, if◌then◌else◌, Bool-cases, leb→le, max_u32, trim_space, join,
}
use vpn_price_public.Vpn.Net.{ip_text, Network, parse_cidr}
use vpn_price_public.Vpn.Routing.{IpRange, Cidr}
use vpn_price_public.Vpn.Routing.Blocks.{once_if}
use vpn_price_public.Vpn.Routing.Excluded.{IsSort, IsAscending, in_network, direct_networks}
use vpn_price_public.Vpn.Routing.Printing.{cidr_text, cidr_round_trip}
use vpn_price_public.Vpn.Routing.AllowedIps.{
  split_cidrs, split_allowed, allowed_ips_for, text_holds, IsCache, split_cidrs_lem,
  allowed_ips_for-cached,
}
use vpn_price_public.Vpn.Wireguard.{
  ok, err, subnet_exhausted, allocate_wireguard_ip, host_text, is_taken,
}
use vpn_price_public.Vpn.Wireguard.Lowest.{IsFree, allocate_wireguard_ip_lem, allocate-allocate_ne}

abbrev insert : IpRange → List IpRange → List IpRange
insert r [] = r ∷ []
insert r (x ∷ xs) = if leb r.start x.start then r ∷ x ∷ xs else x ∷ insert r xs

abbrev insertion_sort : List IpRange → List IpRange
insertion_sort [] = []
insertion_sort (r ∷ rs) = insert r (insertion_sort rs)

insert-perm : (r : IpRange) (xs : List IpRange) → Permᴰ (insert r xs) (r ∷ xs)
insert-perm r [] = Permᴰ.refl (r ∷ [])
insert-perm r (x ∷ xs) = elim (Bool-cases (leb r.start x.start)) [
  | inl first ↦ rw first (Permᴰ.refl (r ∷ x ∷ xs))
  | inr later ↦ rw later (Permᴰ.trans (Permᴰ.cons refl (insert-perm r xs)) (Permᴰ.swap refl refl))
]

above-insert :
    (low : ℕ) (r : IpRange) (xs : List IpRange)
    → low ≤ r.start
    → All (λ s. low ≤ s.start) xs
    → All (λ s. low ≤ s.start) (insert r xs)
above-insert low r [] h hs = (h, tt)
above-insert low r (x ∷ xs) h (h', hs) = elim (Bool-cases (leb r.start x.start)) [
  | inl first ↦ rw first (h, (h', hs))
  | inr later ↦ rw later (h', above-insert low r xs h hs)
]

above_weaken :
    (low high : ℕ) (xs : List IpRange)
    → low ≤ high
    → All (λ s. high ≤ s.start) xs
    → All (λ s. low ≤ s.start) xs
above_weaken low high [] h hs = tt
above_weaken low high (x ∷ xs) h (h', hs) = (omega arith, above_weaken low high xs h hs)

insert-IsAscending : (r : IpRange) (xs : List IpRange) → IsAscending xs → IsAscending (insert r xs)
insert-IsAscending r [] h = (tt, tt)
insert-IsAscending r (x ∷ xs) (above, up) = elim (Bool-cases (leb r.start x.start)) [
  | inl first ↦ rw first (
      let le = leb→le r.start x.start first in
      ((le, above_weaken r.start x.start xs le above), (above, up)))
  | inr later ↦
      rw later (above-insert x.start r xs (ground arith) above, insert-IsAscending r xs up)
]

insertion_sort-perm : (rs : List IpRange) → Permᴰ (insertion_sort rs) rs
insertion_sort-perm [] = Permᴰ.nil
insertion_sort-perm (r ∷ rs) =
    Permᴰ.trans (insert-perm r (insertion_sort rs)) (Permᴰ.cons refl (insertion_sort-perm rs))

insertion_sort-IsAscending : (rs : List IpRange) → IsAscending (insertion_sort rs)
insertion_sort-IsAscending [] = tt
insertion_sort-IsAscending (r ∷ rs) =
    insert-IsAscending r (insertion_sort rs) (insertion_sort-IsAscending rs)

insertion_sort-IsSort : IsSort insertion_sort
insertion_sort-IsSort = record {
  permutes = insertion_sort-perm;
  ascends = insertion_sort-IsAscending;
}

-- Two listed networks, which touch, and an address outside of all.
abbrev listed : Text
listed = codes "5.8.8.0/22"

split_cidrs_lem_example :
    (ts : List Text) × (split_cidrs insertion_sort listed ≡ some ts)
    × ((a : ℕ)
        → a ≤ max_u32
        → count_by (text_holds a) ts ≡ once_if (not (any (in_network a) (direct_networks listed))))
split_cidrs_lem_example = split_cidrs_lem insertion_sort insertion_sort-IsSort listed

-- What the first call in split mode answers, and leaves in the cache.
abbrev split_text : Text
split_text = join (codes ", ") split_cidrs_lem_example.0

first_call :
    allowed_ips_for insertion_sort listed (codes "split_ru") none
    ≡ some (split_text, some split_text)
unfolding allowed_ips_for
first_call = rw (split_cidrs_lem_example.1, split_allowed) refl

allowed_ips_for-cached_example :
    (split_allowed insertion_sort listed ≡ some split_text)
    × IsCache insertion_sort listed (some split_text)
allowed_ips_for-cached_example =
    allowed_ips_for-cached insertion_sort listed (codes "split_ru") none {answer = split_text}
      {cache' = some split_text} (inl refl) first_call

abbrev ten_block : Cidr
ten_block = record { addr = 167772160; prefix = 8 }

cidr_round_trip_example :
    (t : Text) × (cidr_text ten_block ≡ some t)
    × (parse_cidr t ≡ some (record { ip4 = 167772160; ones = 8 }))
cidr_round_trip_example = cidr_round_trip ten_block (omega arith, omega arith, (10, refl))

abbrev subnet : Text
subnet = codes "10.8.0.0/29"

abbrev subnet_network : Network
subnet_network = record { ip4 = 168296448; ones = 29 }

subnet_parsed : parse_cidr subnet ≡ some subnet_network
unfolding parse_cidr
subnet_parsed = refl

allocate_wireguard_ip_lem_example :
    ((o : ℕ) × (allocate_wireguard_ip subnet (codes "10.8.0.2" ∷ [])
        ≡ ok (host_text (168296448 + o)))
      × IsFree subnet_network (codes "10.8.0.2" ∷ []) o
      × ((lower : ℕ) → lower < o → ¬ IsFree subnet_network (codes "10.8.0.2" ∷ []) lower))
    ⊎ (allocate_wireguard_ip subnet (codes "10.8.0.2" ∷ []) ≡ err subnet_exhausted)
      × ((o : ℕ) → ¬ IsFree subnet_network (codes "10.8.0.2" ∷ []) o)
allocate_wireguard_ip_lem_example =
    allocate_wireguard_ip_lem subnet (codes "10.8.0.2" ∷ []) {n = subnet_network} subnet_parsed

first_free : allocate_wireguard_ip subnet [] ≡ ok (codes "10.8.0.2/32")
unfolding allocate_wireguard_ip parse_cidr ip_text is_taken
first_free = refl

allocate-allocate_ne_example :
    allocate_wireguard_ip subnet (codes "10.8.0.2/32" ∷ []) ≢ ok (codes "10.8.0.2/32")
allocate-allocate_ne_example = allocate-allocate_ne subnet [] {t = codes "10.8.0.2/32"} first_free

-- The last free address is handed out, and then the pool is exhausted.
exhausted :
    allocate_wireguard_ip (codes "10.8.0.0/30") (codes "10.8.0.2/32" ∷ []) ≡ err subnet_exhausted
unfolding allocate_wireguard_ip parse_cidr ip_text is_taken trim_space
exhausted = refl
