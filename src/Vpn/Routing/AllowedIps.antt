-- ===== src/Vpn/Routing/AllowedIps.antt =====
-- internal/vpn/routing.go, `allowedIPsFor`: the text of the routed networks, computed once.

use vpn_price_public.Base.{
  ℕ, ◌≤◌, ◌≡◌, refl, ◌∙◌, Bool, false, not, List, [], ◌∷◌, Option, none, some, arith, any, All,
  count_by, Text, codes, join, text_eq, if◌then◌else◌, max_u32, Bool-cases, inl, inr, ◌⊎◌,
}
use vpn_price_public.Vpn.Net.{parse_cidr}
use vpn_price_public.Vpn.Routing.{Cidr, IpRange, compute_complement, excluded_ranges}
use vpn_price_public.Vpn.Routing.Blocks.{matches, once_if, IsBlock}
use vpn_price_public.Vpn.Routing.Excluded.{
  IsSort, in_network, direct_networks, count_by-complement-excluded, complement-excluded-IsBlock,
}
use vpn_price_public.Vpn.Routing.Printing.{cidr_text, cidr_round_trip}

-- The texts that `computeComplement` returns; `none` if one of them panics.
pub cidr_texts : List Cidr → Option (List Text)
cidr_texts [] = some []
cidr_texts (c ∷ cs) = elim (cidr_text c) [
  | none ↦ none
  | some t ↦ elim (cidr_texts cs) [ none ↦ none | some ts ↦ some (t ∷ ts) ]
]

abbrev pub full_allowed_ips : Text
full_allowed_ips = codes "0.0.0.0/0, ::/0"

-- `splitOnce` and `splitAllowed`: `none` until the first call.
abbrev pub SplitCache : Type 0
SplitCache = Option Text

-- Whether an address lies in the network that a text names.
abbrev pub text_holds : ℕ → Text → Bool
text_holds a t = elim (parse_cidr t) [ none ↦ false | some n ↦ in_network a n ]

module _ (sort : List IpRange → List IpRange) (ru_cidrs : Text) where
  unfoldable pub split_cidrs : Option (List Text)
  split_cidrs = cidr_texts (compute_complement (excluded_ranges sort ru_cidrs))

  unfoldable pub split_allowed : Option Text
  unfolding split_cidrs
  split_allowed = elim split_cidrs [ none ↦ none | some ts ↦ some (join (codes ", ") ts) ]

  -- `splitOnce.Do` fills the cache at the first call in split mode.
  unfoldable pub fill : SplitCache → Option Text
  unfolding split_allowed
  fill (some allowed) = some allowed
  fill none = split_allowed

  unfoldable pub allowed_ips_for : Text → SplitCache → Option (Text × SplitCache)
  unfolding fill
  allowed_ips_for mode cache =
      if text_eq mode (codes "split_ru")
      then elim (fill cache) [ none ↦ none | some allowed ↦ some (allowed, some allowed) ]
      else some (full_allowed_ips, cache)

cidr_texts_lem :
    (cs : List Cidr)
    → All IsBlock cs
    → (ts : List Text) × (cidr_texts cs ≡ some ts)
      × ((a : ℕ) → count_by (text_holds a) ts ≡ count_by (matches a) cs)
unfolding cidr_texts
cidr_texts_lem [] h = ([], refl, λ a. refl)
cidr_texts_lem (c ∷ cs) (block, blocks) =
    let (t, printed, parsed) = cidr_round_trip c block in
    let (ts, rest, counts) = cidr_texts_lem cs blocks in
    (t ∷ ts, ground arith, λ a. ground (arith, counts a))

-- The texts of the routed networks of the split tunnel can always be printed, and read back exactly
-- one of them holds each 32-bit address that no listed and no private network holds, and none holds
-- any other; provided the sort permutes its argument into ascending order.
pub split_cidrs_lem :
    (sort : List IpRange → List IpRange)
    → IsSort sort
    → (ru_cidrs : Text)
    → (ts : List Text) × (split_cidrs sort ru_cidrs ≡ some ts)
      × ((a : ℕ)
          → a ≤ max_u32
          → count_by (text_holds a) ts
            ≡ once_if (not (any (in_network a) (direct_networks ru_cidrs))))
unfolding split_cidrs
split_cidrs_lem sort sorts ru =
    let (ts, printed, counts) = cidr_texts_lem _ (complement-excluded-IsBlock sorts ru) in
    (ts, printed, λ a h. counts a ∙ count_by-complement-excluded sorts ru a h)

-- The cache is empty or holds the text that a first call computes.
abbrev pub IsCache : (List IpRange → List IpRange) → Text → SplitCache → Type 0
IsCache sort ru cache = (cache ≡ none) ⊎ (cache ≡ split_allowed sort ru)

fill_lem :
    (sort : List IpRange → List IpRange) (ru : Text) (cache : SplitCache)
    → IsCache sort ru cache
    → fill sort ru cache ≡ split_allowed sort ru
unfolding fill
fill_lem sort ru none h = refl
fill_lem sort ru (some t) h = ground arith

-- If the cache is empty or holds the text that a first call computes, an answer of allowedIPsFor is
-- the text computed without a cache, and the cache it leaves is again such a cache.
pub allowed_ips_for-cached :
    (sort : List IpRange → List IpRange) (ru mode : Text) (cache : SplitCache) {answer : Text}
    {cache' : SplitCache}
    → IsCache sort ru cache
    → allowed_ips_for sort ru mode cache ≡ some (answer, cache')
    → ((if text_eq mode (codes "split_ru") then split_allowed sort ru else some full_allowed_ips)
        ≡ some answer)
      × IsCache sort ru cache'
unfolding allowed_ips_for
allowed_ips_for-cached sort ru mode cache h e =
    elim (Bool-cases (text_eq mode (codes "split_ru"))) [
      | inl split ↦ rw split (ground (arith, fill_lem sort ru cache h))
      | inr full ↦ rw full (ground arith)
    ]
