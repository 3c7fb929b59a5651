-- ===== src/Vpn/Net.antt =====
-- What the program uses of Go's net package: IPv4 networks and their texts. A text with `:`
-- before any `.` is IPv6, which the callers skip; here it is not parsed. Texts of IPv4 addresses mapped
-- into IPv6 (`::ffff:a.b.c.d`) are outside the model.
use vpn_price_public.Base.{
  ℕ, suc, ◌+◌, ◌-◌, ◌*◌, ◌/◌, ◌%◌, ◌^◌, Bool, true, false, ◌&&◌, ◌||◌, Option, none, some, List, [],
  ◌∷◌, ◌++◌, leb, ltb, ◌==◌, if◌then◌else◌, Text, is_empty, is_digit,
}
pub mod Parsing

-- An IPv4 network: its masked address, and how many bits its mask has.
pub record Network : Type 0 where
  pub ip4 : ℕ
  pub ones : ℕ

-- One byte of an address: the fields read so far, their number, the field at hand, its digits.
unfoldable pub parse_fields : ℕ → ℕ → ℕ → ℕ → Text → Option ℕ
parse_fields acc pos val digits [] =
    if pos == 3 && leb 1 digits then some (acc * 256 + val) else none
parse_fields acc pos val digits (c ∷ s) =
    let longer = parse_fields acc pos (val * 10 + (c - b'0')) (suc digits) s in
    let next = parse_fields (acc * 256 + val) (suc pos) 0 0 s in
    if is_digit c
    then (if digits == 1 && val == 0
        then none
        else if ltb 255 (val * 10 + (c - b'0'))
        then none
        else longer)
    else if c == b'.'
    then (if digits == 0 || pos == 3 then none else next)
    else none

-- net.ParseIP of an IPv4 address, as a big-endian word
unfoldable pub parse_ip4 : Text → Option ℕ
unfolding parse_fields
parse_ip4 s = parse_fields 0 0 0 0 s

-- The length of a prefix; `none` from 0xFFFFFF up.
unfoldable pub parse_prefix : ℕ → Text → Option ℕ
parse_prefix n [] = some n
parse_prefix n (c ∷ s) =
    let rest = parse_prefix (n * 10 + (c - b'0')) s in
    if is_digit c then (if leb 0xFFFFFF (n * 10 + (c - b'0')) then none else rest) else none

-- The text before and after the first `c`.
unfoldable pub cut : ℕ → Text → Option (Text × Text)
cut c [] = none
cut c (d ∷ s) =
    let rest = cut c s in
    if d == c then some ([], s) else elim rest [ none ↦ none | some (a, b) ↦ some (d ∷ a, b) ]

abbrev network_of : Option ℕ → Option ℕ → Option Network
network_of none _ = none
network_of (some ip) none = none
network_of (some ip) (some n) =
    if ltb 32 n then none else some (record { ip4 = ip / 2 ^ (32 - n) * 2 ^ (32 - n); ones = n })

abbrev network_of_parts : Option (Text × Text) → Option Network
network_of_parts none = none
network_of_parts (some (addr, mask)) =
    if is_empty mask then none else network_of (parse_ip4 addr) (parse_prefix 0 mask)

-- net.ParseCIDR: the network of `a.b.c.d/n`
unfoldable pub parse_cidr : Text → Option Network
unfolding cut parse_ip4 parse_prefix
parse_cidr s = network_of_parts (cut b'/' s)

unfoldable pub byte_text : ℕ → Text
byte_text n =
    if ltb n 10
    then (b'0' + n) ∷ []
    else if ltb n 100
    then (b'0' + n / 10) ∷ (b'0' + n % 10) ∷ []
    else (b'0' + n / 100) ∷ (b'0' + n / 10 % 10) ∷ (b'0' + n % 10) ∷ []

-- net.IP.String of an IPv4 address
unfoldable pub ip_text : ℕ → Text
unfolding byte_text
ip_text v =
    byte_text (v / 16777216 % 256)
    ++ b'.'
      ∷ (byte_text (v / 65536 % 256)
          ++ b'.' ∷ (byte_text (v / 256 % 256) ++ b'.' ∷ byte_text (v % 256)))
