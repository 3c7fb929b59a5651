-- ===== src/Vpn/Wireguard/Lowest.antt =====
-- internal/vpn/wireguard.go, `allocateWireGuardIP`: free addresses.
use vpn_price_public.Base.{
  ℕ, zero, suc, ◌+◌, ◌-◌, ◌^◌, ◌≤◌, ◌<◌, ◌≡◌, ◌≢◌, refl, ◌⊎◌, inl, inr, Bool, true, false, none,
  some, List, ◌∷◌, arith, ltb, Bool-cases, Option-cases, sym, ◌∙◌, ◌==◌, ltb→lt, subst, u32,
  max_u32, Text, codes, two_pow-pos,
}
use vpn_price_public.Vpn.Net.{Network, parse_cidr, ip_text}
use vpn_price_public.Vpn.Routing.Printing.{
  cut-append, no_slash-ip_text, trim_space-ip_text, parse_ip4-ip_text,
}
use vpn_price_public.Vpn.Net.Parsing.{parse_cidr-IsNetwork}
use vpn_price_public.Vpn.Wireguard.{
  AllocationError, bad_subnet, ok, err, subnet_exhausted, is_taken, used_address, free_from,
  allocate_wireguard_ip, host_text,
}

-- An offset below `end`, but for the network and the gateway, whose address nobody has.
abbrev FreeBelow : ℕ → ℕ → List Text → ℕ → Type 0
FreeBelow end network used offset =
    (2 ≤ offset) × (offset < end) × (is_taken used (network + offset) ≡ false)

-- A host address that is free: not the network, the gateway or the broadcast address.
abbrev pub IsFree : Network → List Text → ℕ → Type 0
IsFree n used offset =
    (2 ≤ offset) × (suc offset < 2 ^ (32 - n.ones)) × (is_taken used (n.ip4 + offset) ≡ false)

module _ (end network : ℕ) (used : List Text) (inside : network + end < 4294967296) where
  -- No offset from 2 up to `offset` is free.
  abbrev AllTaken : ℕ → Type 0
  AllTaken offset = (o : ℕ) → o < offset → ¬ FreeBelow end network used o

  free-ne-taken :
      (o offset : ℕ)
      → FreeBelow end network used o
      → o ≡ offset
      → is_taken used (network + offset) ≢ true
  free-ne-taken o offset free same busy = ground arith

  -- The sum is below 2^32, so the word is the sum.
  word :
      (offset : ℕ) {b : Bool}
      → offset < end
      → is_taken used (u32 (network + offset)) ≡ b
      → is_taken used (network + offset) ≡ b
  word offset {b} h e = subst (λ w. is_taken used w ≡ b) (omega arith) e

  AllTaken-suc :
      (offset : ℕ)
      → AllTaken offset
      → is_taken used (network + offset) ≡ true
      → AllTaken (suc offset)
  AllTaken-suc offset taken busy o h free = elim (Bool-cases (o == offset)) [
    | inl same ↦ free-ne-taken o offset free (ground arith) busy
    | inr other ↦ taken o (ground arith) free
  ]

  free_from_lem :
      (fuel offset : ℕ)
      → 2 ≤ offset
      → end ≤ fuel + offset
      → AllTaken offset
      → ((o : ℕ) × (free_from fuel offset end network used ≡ some (network + o))
          × FreeBelow end network used o
          × AllTaken o)
        ⊎ (free_from fuel offset end network used ≡ none) × AllTaken end
  unfolding free_from
  free_from_lem zero offset low far taken = inr (refl, λ o h. taken o (omega arith))
  free_from_lem (suc fuel) offset low far taken = elim (Bool-cases (ltb offset end)) [
    | inr over ↦ rw over (inr (refl, λ o h. taken o (ground arith)))
    | inl more ↦ elim (Bool-cases (is_taken used (u32 (network + offset)))) [
      | inl busy ↦
          rw (more, busy)
            (free_from_lem fuel (suc offset) (omega arith) (omega arith)
              (AllTaken-suc offset taken (word offset (ltb→lt offset end more) busy)))
      | inr free ↦
          rw (more, free)
            (inl (
              offset,
              ground arith,
              (low, ltb→lt offset end more, word offset (ltb→lt offset end more) free),
              taken,
            ))
    ]
  ]

-- Of a subnet that parses, the allocated address is the lowest host address that is neither the
-- network, the gateway, the broadcast address nor in use; or no such address exists, and the pool
-- is reported as exhausted.
pub allocate_wireguard_ip_lem :
    (subnet : Text) (used : List Text) {n : Network}
    → parse_cidr subnet ≡ some n
    → ((o : ℕ) × (allocate_wireguard_ip subnet used ≡ ok (host_text (n.ip4 + o)))
        × IsFree n used o
        × ((lower : ℕ) → lower < o → ¬ IsFree n used lower))
      ⊎ (allocate_wireguard_ip subnet used ≡ err subnet_exhausted) × ((o : ℕ) → ¬ IsFree n used o)
unfolding allocate_wireguard_ip
allocate_wireguard_ip_lem subnet used {n} e =
    let size = 2 ^ (32 - n.ones) in
    let (short, aligned, inside) = parse_cidr-IsNetwork subnet e in
    let end : ℕ = u32 (u32 size + max_u32) in
    let last : suc end ≡ size = omega (arith, two_pow-pos (32 - n.ones)) in
    elim (free_from_lem end n.ip4 used (omega (arith, last)) (end - 2) 2 (omega arith) (omega arith)
      (λ o h f. omega arith)) [
        | inl (o, found, free, lowest) ↦ inl (
          o,
          rw (e, found),
          (free.0, omega arith, free.2),
          λ lower h f. lowest lower h (f.0, omega arith, f.2),
        )
        | inr (nothing, taken) ↦
            inr (rw (e, nothing), λ o f. taken o (omega arith) (f.0, omega arith, f.2))
      ]

used_address-host_text : (ip : ℕ) → ip < 4294967296 → used_address (host_text ip) ≡ some ip
unfolding used_address
used_address-host_text ip h =
    rw (cut-append (ip_text ip) (codes "32") (no_slash-ip_text ip))
      (rw (trim_space-ip_text ip) (parse_ip4-ip_text ip h))

is_taken-host_text :
    (ip : ℕ) (used : List Text) → ip < 4294967296 → is_taken (host_text ip ∷ used) ip ≡ true
unfolding is_taken
is_taken-host_text ip used h = ground (arith, used_address-host_text ip h)

ok-ne-err : {t : Text} {e : AllocationError} → ok t ≢ err e
ok-ne-err h = cc

ok-injective : {t u : Text} → ok t ≡ ok u → t ≡ u
ok-injective h = ground arith

true-ne-false : ◌≢◌ {A = Bool} true false
true-ne-false h = cc

allocate-bad_subnet :
    (subnet : Text) (used : List Text)
    → parse_cidr subnet ≡ none
    → allocate_wireguard_ip subnet used ≡ err bad_subnet
unfolding allocate_wireguard_ip
allocate-bad_subnet subnet used e = rw e

-- An address that has been allocated in a subnet is not allocated again once it is added to the
-- addresses in use.
pub allocate-allocate_ne :
    (subnet : Text) (used : List Text) {t : Text}
    → allocate_wireguard_ip subnet used ≡ ok t
    → allocate_wireguard_ip subnet (t ∷ used) ≢ ok t
allocate-allocate_ne subnet used {t} first second = elim (Option-cases (parse_cidr subnet)) [
  | inl bad ↦ ok-ne-err (sym second ∙ allocate-bad_subnet subnet (t ∷ used) bad)
  | inr (n, e) ↦ elim (allocate_wireguard_ip_lem subnet (t ∷ used) e) [
    | inl (o, found, free, lowest) ↦
        let same : t ≡ host_text (n.ip4 + o) = ok-injective (sym second ∙ found) in
        let (short, aligned, inside) = parse_cidr-IsNetwork subnet e in
        let taken : is_taken (t ∷ used) (n.ip4 + o) ≡ true =
          rw same (is_taken-host_text (n.ip4 + o) used (omega arith)) in
        true-ne-false (sym taken ∙ free.2)
    | inr (nothing, taken) ↦ ok-ne-err (sym second ∙ nothing)
  ]
]
