-- ===== src/Vpn/Routing/Printing.antt =====
-- internal/vpn/routing.go: the texts of networks, and net.ParseCIDR on them.
use vpn_price_public.Base.{
  ℕ, zero, suc, ◌+◌, ◌-◌, ◌*◌, ◌/◌, ◌%◌, ◌^◌, ◌<◌, ◌≡◌, refl, ◌∙◌, sym, ap, Bool, [], ◌∷◌, ◌++◌,
  Option, none, some, arith, ◌==◌, Text, if◌then◌else◌, any, any-append, false, is_empty, is_space,
  trim_space, trim_space_id, two_pow-pos,
}
use native.Mathlib.Nat.{mul-div_cancel}
use vpn_price_public.Vpn.Routing.Blocks.{IsBlock}
use vpn_price_public.Vpn.Net.{
  parse_cidr, ip_text, byte_text, parse_fields, parse_prefix, cut, parse_ip4,
}
use vpn_price_public.Vpn.Routing.{Cidr}

-- The loop of `itoa`, which fills an array of three bytes from its end; `none` is the panic of
-- an index below 0.
unfoldable pub digits_before : ℕ → ℕ → Text → Option Text
digits_before zero n text = if n == 0 then some text else none
digits_before (suc room) n text =
    let more = digits_before room (n / 10) ((b'0' + n % 10) ∷ text) in
    if n == 0 then some text else more

unfoldable pub itoa : ℕ → Option Text
unfolding digits_before
itoa n = if n == 0 then some (b'0' ∷ []) else digits_before 3 n []

abbrev pub with_prefix : Text → Option Text → Option Text
with_prefix addr none = none
with_prefix addr (some prefix) = some (addr ++ b'/' ∷ prefix)

-- `ipString(start) + "/" + itoa(prefix)`
unfoldable pub cidr_text : Cidr → Option Text
unfolding itoa ip_text
cidr_text c = with_prefix (ip_text c.addr) (itoa c.prefix)

itoa-byte_text : (n : ℕ) → n < 1000 → itoa n ≡ some (byte_text n)
unfolding itoa byte_text
itoa-byte_text n h = ground arith

parse_prefix-byte_text : (n : ℕ) → n < 1000 → parse_prefix 0 (byte_text n) ≡ some n
unfolding parse_prefix byte_text
parse_prefix-byte_text n h = ground arith

-- A number below 1000 is printed by itoa without an overrun of its buffer, and the text is read
-- back as the number.
itoa_round_trip : (n : ℕ) → n < 1000 → (t : Text) × (itoa n ≡ some t) × (parse_prefix 0 t ≡ some n)
itoa_round_trip n h = (byte_text n, itoa-byte_text n h, parse_prefix-byte_text n h)

-- A byte in a text of an address is read back, up to the dot behind it.
parse_fields-byte_text :
    (acc pos n : ℕ) (s : Text)
    → n < 256
    → pos < 3
    → parse_fields acc pos 0 0 (byte_text n ++ b'.' ∷ s)
      ≡ parse_fields (acc * 256 + n) (suc pos) 0 0 s
unfolding parse_fields byte_text
parse_fields-byte_text acc pos n s h p = ground arith

parse_fields-last_byte :
    (acc n : ℕ) → n < 256 → parse_fields acc 3 0 0 (byte_text n) ≡ some (acc * 256 + n)
unfolding parse_fields byte_text
parse_fields-last_byte acc n h = ground arith

-- The text of an address is read back as that address.
pub parse_ip4-ip_text : (v : ℕ) → v < 4294967296 → parse_ip4 (ip_text v) ≡ some v
unfolding parse_ip4 ip_text
parse_ip4-ip_text v h =
    parse_fields-byte_text 0 0 (v / 16777216 % 256) _ (omega arith) (omega arith)
    ∙ parse_fields-byte_text (0 * 256 + v / 16777216 % 256) 1 (v / 65536 % 256) _ (omega arith)
        (omega arith)
    ∙ parse_fields-byte_text ((0 * 256 + v / 16777216 % 256) * 256 + v / 65536 % 256) 2
        (v / 256 % 256) _ (omega arith) (omega arith)
    ∙ parse_fields-last_byte
        (((0 * 256 + v / 16777216 % 256) * 256 + v / 65536 % 256) * 256 + v / 256 % 256) (v % 256)
        (omega arith)
    ∙ ap (λ (w : ℕ). some w) (omega arith)

abbrev pub is_slash : ℕ → Bool
is_slash c = c == b'/'

pub cut-append : (s t : Text) → any is_slash s ≡ false → cut b'/' (s ++ b'/' ∷ t) ≡ some (s, t)
unfolding cut
cut-append [] t h = refl
cut-append (c ∷ s) t h = ground (arith, cut-append s t)

-- A test that fails on digits and on the dot fails all over the text of an address.
module _ (p : ℕ → Bool) (digit : (d : ℕ) → d < 10 → p (b'0' + d) ≡ false)
    (dot : p b'.' ≡ false) where
  any-byte_text : (n : ℕ) → n < 256 → any p (byte_text n) ≡ false
  unfolding byte_text
  any-byte_text n h =
      ground (arith, digit n, digit (n / 10), digit (n % 10), digit (n / 100), digit (n / 10 % 10))

  any-dotted :
      (n : ℕ) (s : Text) → n < 256 → any p s ≡ false → any p (byte_text n ++ b'.' ∷ s) ≡ false
  any-dotted n s h rest =
      rw (any-append p (byte_text n) (b'.' ∷ s)) (rw (any-byte_text n h, dot, rest))

  any-ip_text : (v : ℕ) → any p (ip_text v) ≡ false
  unfolding ip_text
  any-ip_text v = any-dotted (v / 16777216 % 256) _ (omega arith) (
      any-dotted (v / 65536 % 256) _ (omega arith)
        (any-dotted (v / 256 % 256) _ (omega arith) (any-byte_text (v % 256) (omega arith))))

pub no_slash-ip_text : (v : ℕ) → any is_slash (ip_text v) ≡ false
no_slash-ip_text = any-ip_text is_slash (λ d h. ground arith) refl

pub trim_space-ip_text : (v : ℕ) → trim_space (ip_text v) ≡ ip_text v
trim_space-ip_text v = trim_space_id (ip_text v) (any-ip_text is_space (λ d h. ground arith) refl v)

not_empty-byte_text : (n : ℕ) → is_empty (byte_text n) ≡ false
unfolding byte_text
not_empty-byte_text n = ground arith

-- The text of an aligned block in 32 bits can be printed, and parsed as a network it gives the
-- block's address and prefix.
pub cidr_round_trip :
    (c : Cidr)
    → IsBlock c
    → (t : Text) × (cidr_text c ≡ some t)
      × (parse_cidr t ≡ some (record { ip4 = c.addr; ones = c.prefix }))
unfolding cidr_text parse_cidr
cidr_round_trip c (small, short, aligned) =
    let printed = itoa-byte_text c.prefix (omega arith) in
    let text = ip_text c.addr ++ b'/' ∷ byte_text c.prefix in
    let (q, e) = aligned in
    let masked : c.addr / 2 ^ (32 - c.prefix) * 2 ^ (32 - c.prefix) ≡ c.addr =
      ap (λ (a : ℕ). a / 2 ^ (32 - c.prefix) * 2 ^ (32 - c.prefix)) e
      ∙ ap (λ (a : ℕ). a * 2 ^ (32 - c.prefix)) (mul-div_cancel q (two_pow-pos (32 - c.prefix)))
      ∙ sym e in
    (
      text,
      rw printed,
      rw (cut-append (ip_text c.addr) (byte_text c.prefix) (no_slash-ip_text c.addr)) (
          rw
            (
              not_empty-byte_text c.prefix,
              parse_ip4-ip_text c.addr small,
              parse_prefix-byte_text c.prefix (omega arith),
            )
            (ground (arith, masked))),
    )
