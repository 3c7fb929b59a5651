-- ===== src/Vpn/Routing/Complement.antt =====
-- internal/vpn/routing.go, `mergeRanges` and `computeComplement`: merged ranges and the gaps.
use vpn_price_public.Base.{
  ℕ, suc, ◌+◌, ◌-◌, ◌≤◌, ◌<◌, ◌≡◌, Bool, true, false, not, ◌&&◌, ◌||◌, List, [], ◌∷◌, ◌⊎◌, arith,
  ltb, leb, ◌==◌, count_by, count_by-append, any, All, All-append, max_u32, u32, Bool-cases, inl,
  inr, refl,
}
use vpn_price_public.Vpn.Routing.{
  IpRange, merge_from, complement_from, compute_complement, gap_before, joins, grown, merge_from,
  merge_sorted,
}
use vpn_price_public.Vpn.Routing.Blocks.{
  matches, within, once_if, count_by-range_to_cidrs, IsBlock, range_to_cidrs-IsBlock,
}

abbrev pub in_range : ℕ → IpRange → Bool
in_range a r = within a r.start r.end

abbrev pub IsRange : IpRange → Type 0
IsRange r = (r.start ≤ r.end) × (r.end ≤ max_u32)

-- Ranges by growing start, all at `low` or above.
abbrev pub IsSortedFrom : ℕ → List IpRange → Type 0
IsSortedFrom low [] = Unit
IsSortedFrom low (r ∷ rs) = (low ≤ r.start) × IsRange r × IsSortedFrom r.start rs

-- Sorted ranges with gaps between them, up to one that ends at the last address.
abbrev IsMergedFrom : ℕ → List IpRange → Type 0
IsMergedFrom low [] = Unit
IsMergedFrom low (r ∷ rs) =
    (low ≤ r.start)
    × IsRange r
    × ((r.end ≡ max_u32) × IsSortedFrom r.start rs
        ⊎ (r.end < max_u32) × IsMergedFrom (suc r.end) rs)

any-below :
    (a low : ℕ) (rs : List IpRange) → IsSortedFrom low rs → a < low → any (in_range a) rs ≡ false
any-below a low [] s h = refl
any-below a low (r ∷ rs) s h = ground (arith, any-below a r.start rs s.2)

any-top :
    (a : ℕ) (r : IpRange) (rs : List IpRange)
    → IsSortedFrom r.start rs
    → r.end ≡ max_u32
    → a ≤ max_u32
    → any (in_range a) (r ∷ rs) ≡ leb r.start a
any-top a r rs s t h = ground (arith, any-below a r.start rs s)

any-below_merged :
    (a low : ℕ) (rs : List IpRange) → IsMergedFrom low rs → a < low → any (in_range a) rs ≡ false
any-below_merged a low [] m h = refl
any-below_merged a low (r ∷ rs) (above, range, inl (top, sorted)) h =
    ground (arith, any-below a r.start rs sorted)
any-below_merged a low (r ∷ rs) (above, range, inr (inner, merged)) h =
    ground (arith, any-below_merged a (suc r.end) rs merged)

count_by-gap_before :
    (a cursor : ℕ) (started : Bool) (r : IpRange)
    → r.start ≤ max_u32
    → count_by (matches a) (gap_before cursor started r) ≡ once_if (leb cursor a && ltb a r.start)
unfolding gap_before
count_by-gap_before a cursor started r h =
    ground (arith, count_by-range_to_cidrs a cursor (r.start - 1))

-- The gaps hold exactly the addresses that no range holds.
count_by-complement_from :
    (a cursor : ℕ) (started : Bool) (rs : List IpRange)
    → a ≤ max_u32
    → IsMergedFrom cursor rs
    → count_by (matches a) (complement_from cursor started rs)
      ≡ once_if (leb cursor a && not (any (in_range a) rs))
unfolding complement_from
count_by-complement_from a cursor started [] h m =
    ground (arith, count_by-range_to_cidrs a cursor max_u32)
count_by-complement_from a cursor started (r ∷ rs) h (above, range, inl (top, sorted)) =
    rw (count_by-append (matches a) (gap_before cursor started r))
      (ground (arith, count_by-gap_before a cursor started r, any-below a r.start rs sorted))
count_by-complement_from a cursor started (r ∷ rs) h (above, range, inr (inner, merged)) =
    let next : u32 (r.end + 1) ≡ suc r.end = omega arith in
    rw (count_by-append (matches a) (gap_before cursor started r)) (
      rw next (
        ground (
          arith,
          count_by-gap_before a cursor started r,
          any-below_merged a (suc r.end) rs merged,
          count_by-complement_from a (suc r.end) true rs h merged,
        )))

IsSortedFrom-lower :
    (low high : ℕ) (rs : List IpRange) → IsSortedFrom high rs → low ≤ high → IsSortedFrom low rs
IsSortedFrom-lower low high [] s h = tt
IsSortedFrom-lower low high (r ∷ rs) s h = (omega arith, s.1, s.2)

grown_lem :
    (last r : IpRange)
    → IsRange last
    → IsRange r
    → last.start ≤ r.start
    → IsRange (grown last r) × ((grown last r).start ≡ last.start)
unfolding grown
grown_lem last r p q h = ground arith

-- What is sorted after `last` and `r` is sorted after the two joined.
after_grown :
    (last r : IpRange) (rs : List IpRange)
    → IsRange last
    → IsSortedFrom last.start (r ∷ rs)
    → IsSortedFrom (grown last r).start rs
after_grown last r rs p s =
    IsSortedFrom-lower (grown last r).start r.start rs s.2
      (omega (arith, (grown_lem last r p s.1 s.0).1))

merge_from-IsSortedFrom :
    (low : ℕ) (last : IpRange) (rs : List IpRange)
    → low ≤ last.start
    → IsRange last
    → IsSortedFrom last.start rs
    → IsSortedFrom low (merge_from last rs)
unfolding merge_from
merge_from-IsSortedFrom low last [] above range s = (above, range, tt)
merge_from-IsSortedFrom low last (r ∷ rs) above range s = elim (Bool-cases (joins last r)) [
  | inl e ↦ rw e (
      merge_from-IsSortedFrom low (grown last r) rs (omega (arith, grown_lem last r range s.1 s.0))
        (grown_lem last r range s.1 s.0).0 (after_grown last r rs range s))
  | inr e ↦ rw e (above, range, merge_from-IsSortedFrom last.start r rs s.0 s.1 s.2)
]

apart_gap :
    (last r : IpRange)
    → IsRange last
    → joins last r ≡ false
    → (last.end ≡ max_u32) ⊎ (last.end < max_u32) × (suc last.end ≤ r.start)
unfolding joins
apart_gap last r range e = ground arith

last_range : (r : IpRange) → IsRange r → (r.end ≡ max_u32) × Unit {0} ⊎ (r.end < max_u32) × Unit {0}
last_range r range = elim (Bool-cases (r.end == max_u32)) [
  | inl e ↦ inl (ground arith, tt)
  | inr e ↦ inr (ground arith, tt)
]

merge_from-IsMergedFrom :
    (low : ℕ) (last : IpRange) (rs : List IpRange)
    → low ≤ last.start
    → IsRange last
    → IsSortedFrom last.start rs
    → IsMergedFrom low (merge_from last rs)
unfolding merge_from
merge_from-IsMergedFrom low last [] above range s = (above, range, last_range last range)
merge_from-IsMergedFrom low last (r ∷ rs) above range s = elim (Bool-cases (joins last r)) [
  | inl e ↦ rw e (
      merge_from-IsMergedFrom low (grown last r) rs (omega (arith, grown_lem last r range s.1 s.0))
        (grown_lem last r range s.1 s.0).0 (after_grown last r rs range s))
  | inr e ↦ rw e (
    above,
    range,
    elim (apart_gap last r range e) [
      | inl top ↦ inl (top, merge_from-IsSortedFrom last.start r rs s.0 s.1 s.2)
      | inr (inner, gap) ↦ inr (inner, merge_from-IsMergedFrom (suc last.end) r rs gap s.1 s.2)
    ],
  )
]

in_range-grown :
    (a : ℕ) (last r : IpRange)
    → IsRange last
    → IsRange r
    → last.start ≤ r.start
    → joins last r ≡ true
    → in_range a (grown last r) ≡ (in_range a last || in_range a r)
unfolding grown joins
in_range-grown a last r p q h e = ground arith

any-merge_from :
    (a : ℕ) (last : IpRange) (rs : List IpRange)
    → IsRange last
    → IsSortedFrom last.start rs
    → any (in_range a) (merge_from last rs) ≡ any (in_range a) (last ∷ rs)
unfolding merge_from
any-merge_from a last [] range s = refl
any-merge_from a last (r ∷ rs) range s = elim (Bool-cases (joins last r)) [
  | inl e ↦ rw e (
      rw
        (any-merge_from a (grown last r) rs (grown_lem last r range s.1 s.0).0
          (after_grown last r rs range s))
        (ground (arith, in_range-grown a last r range s.1 s.0 e)))
  | inr e ↦ rw e (rw (any-merge_from a r rs s.1 s.2))
]

gap_before-IsBlock :
    (cursor : ℕ) (started : Bool) (r : IpRange)
    → r.start ≤ max_u32
    → All IsBlock (gap_before cursor started r)
unfolding gap_before
gap_before-IsBlock cursor started r h = ground (arith, range_to_cidrs-IsBlock cursor (r.start - 1))

complement_from-IsBlock :
    (cursor : ℕ) (started : Bool) (rs : List IpRange)
    → IsMergedFrom cursor rs
    → All IsBlock (complement_from cursor started rs)
unfolding complement_from
complement_from-IsBlock cursor started [] m = range_to_cidrs-IsBlock cursor max_u32 (omega arith)
complement_from-IsBlock cursor started (r ∷ rs) (above, range, inl (top, sorted)) =
    All-append IsBlock (gap_before cursor started r) _
      (gap_before-IsBlock cursor started r (omega arith)) (ground arith)
complement_from-IsBlock cursor started (r ∷ rs) (above, range, inr (inner, merged)) =
    let next : u32 (r.end + 1) ≡ suc r.end = omega arith in
    All-append IsBlock (gap_before cursor started r) _
      (gap_before-IsBlock cursor started r (omega arith))
      (rw next (ground (arith, complement_from-IsBlock (suc r.end) true rs merged)))

-- The complement of the merged ranges has each address that no range holds in one network, and
-- no other address.
pub count_by-complement-merge :
    (a : ℕ) (rs : List IpRange)
    → a ≤ max_u32
    → IsSortedFrom 0 rs
    → count_by (matches a) (compute_complement (merge_sorted rs))
      ≡ once_if (not (any (in_range a) rs))
unfolding compute_complement merge_sorted
count_by-complement-merge a [] h s = ground (arith, count_by-complement_from a 0 false [] h tt)
count_by-complement-merge a (r ∷ rs) h s =
    rw
      (count_by-complement_from a 0 false (merge_from r rs) h
        (merge_from-IsMergedFrom 0 r rs s.0 s.1 s.2))
      (rw (any-merge_from a r rs s.1 s.2) (ground arith))

pub complement-IsBlock :
    (rs : List IpRange) → IsSortedFrom 0 rs → All IsBlock (compute_complement (merge_sorted rs))
unfolding compute_complement merge_sorted
complement-IsBlock [] s = complement_from-IsBlock 0 false [] tt
complement-IsBlock (r ∷ rs) s =
    complement_from-IsBlock 0 false (merge_from r rs) (merge_from-IsMergedFrom 0 r rs s.0 s.1 s.2)
