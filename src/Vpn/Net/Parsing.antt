-- ===== src/Vpn/Net/Parsing.antt =====
-- Networks as net.ParseCIDR returns them.
use vpn_price_public.Base.{
  ℕ, suc, ◌+◌, ◌-◌, ◌*◌, ◌/◌, ◌^◌, ◌≤◌, ◌<◌, ◌≡◌, ◌≢◌, subst, refl, ◌∙◌, sym, ap, Option, none,
  some, [], ◌∷◌, arith, ltb, Bool-cases, inl, inr, Text, IsAligned, two_pow-pos, two_pow-add,
}
use mathlib.Core.Option.{some-injective}
use native.Mathlib.Nat.{pow-suc, div-lt_iff_lt-mul}
use vpn_price_public.Vpn.Net.{
  Network, parse_fields, parse_ip4, parse_prefix, parse_cidr, network_of, network_of_parts, cut,
}

three_fields : (pos : ℕ) → pos ≡ 3 → 256 ^ pos ≡ 16777216
three_fields pos e = rw e

parse_fields-lt :
    (acc pos val digits : ℕ) (s : Text) {ip : ℕ}
    → acc < 256 ^ pos
    → val < 256
    → parse_fields acc pos val digits s ≡ some ip
    → ip < 256 ^ 4
unfolding parse_fields
parse_fields-lt acc pos val digits [] small byte e = ground (arith, three_fields pos)
parse_fields-lt acc pos val digits (c ∷ s) {ip} small byte e = ground (
  arith,
  pow-suc 256 pos,
  parse_fields-lt acc pos (val * 10 + (c - b'0')) (suc digits) s {ip = ip},
  parse_fields-lt (acc * 256 + val) (suc pos) 0 0 s {ip = ip},
)

pub parse_ip4-lt : (s : Text) {ip : ℕ} → parse_ip4 s ≡ some ip → ip < 4294967296
unfolding parse_ip4
parse_ip4-lt s e = parse_fields-lt 0 0 0 0 s (omega arith) (omega arith) e

-- The block of an address ends within the 32-bit words.
block_in_word :
    (ip k n : ℕ) → n + k ≡ 32 → ip < 4294967296 → ip / 2 ^ k * 2 ^ k + 2 ^ k ≤ 4294967296
block_in_word ip k n e small =
    let whole : 2 ^ n * 2 ^ k ≡ 4294967296 = sym (two_pow-add n k) ∙ ap (λ (i : ℕ). 2 ^ i) e in
    let short : ip / 2 ^ k < 2 ^ n = (div-lt_iff_lt-mul (two_pow-pos k)).1 (omega arith) in
    grind arith

abbrev pub IsNetwork : Network → Type 0
IsNetwork n =
    (n.ones ≤ 32) × IsAligned (32 - n.ones) n.ip4 × (n.ip4 + 2 ^ (32 - n.ones) ≤ 4294967296)

masked-IsNetwork :
    (ip n : ℕ)
    → ip < 4294967296
    → n ≤ 32
    → IsNetwork (record { ip4 = ip / 2 ^ (32 - n) * 2 ^ (32 - n); ones = n })
masked-IsNetwork ip n small short =
    (short, (ip / 2 ^ (32 - n), refl), block_in_word ip (32 - n) n (omega arith) small)

none-ne-some : {x : Network} → ◌≢◌ {A = Option Network} none (some x)
none-ne-some e = cc

network_of-IsNetwork :
    (ip n : Option ℕ) {net : Network}
    → ((i : ℕ) → ip ≡ some i → i < 4294967296)
    → network_of ip n ≡ some net
    → IsNetwork net
network_of-IsNetwork none n small e = cc
network_of-IsNetwork (some ip) none small e = cc
network_of-IsNetwork (some ip) (some n) {net} small e = elim (Bool-cases (ltb 32 n)) [
  | inl long ↦ absurd (none-ne-some (rw long at e))
  | inr short ↦
      subst IsNetwork (some-injective _ _ (rw short at e))
        (masked-IsNetwork ip n (small ip refl) (ground arith))
]

network_of_parts-IsNetwork :
    (parts : Option (Text × Text)) {net : Network}
    → network_of_parts parts ≡ some net
    → IsNetwork net
network_of_parts-IsNetwork none e = cc
network_of_parts-IsNetwork (some (addr, [])) e = cc
network_of_parts-IsNetwork (some (addr, c ∷ mask)) e =
    network_of-IsNetwork (parse_ip4 addr) (parse_prefix 0 (c ∷ mask)) (λ i h. parse_ip4-lt addr h) e

-- A network that `net.ParseCIDR` returns is masked and lies within the 32-bit addresses.
pub parse_cidr-IsNetwork : (s : Text) {net : Network} → parse_cidr s ≡ some net → IsNetwork net
unfolding parse_cidr
parse_cidr-IsNetwork s e = network_of_parts-IsNetwork (cut b'/' s) e
