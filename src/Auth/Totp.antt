-- ===== src/Auth/Totp.antt =====
-- internal/auth/totp.go: time-based codes of six digits.
use vpn_price_public.Base.{
  ℕ, zero, suc, ◌+◌, ◌-◌, ◌*◌, ◌/◌, ◌%◌, ◌≡◌, refl, inl, inr, Bool, true, false, not, ◌||◌, Option,
  none, some, [], ◌∷◌, arith, ◌==◌, if◌then◌else◌, length, Text, text_eq, trim_space, leb, ◌&&◌,
  map, subst, sym, Option-cases,
}

abbrev pub totp_period : ℕ
totp_period = 30

abbrev pub totp_digits : ℕ
totp_digits = 6

-- The byte at an index; none where Go would panic.
abbrev pub byte_at : ℕ → Text → Option ℕ
byte_at i [] = none
byte_at zero (c ∷ s) = some c
byte_at (suc i) (c ∷ s) = byte_at i s

abbrev pub last_byte : ℕ → Text → ℕ
last_byte c [] = c
last_byte c (d ∷ s) = last_byte d s

-- The dynamic truncation of a sum at an offset.
abbrev pub truncated : Option ℕ → Option ℕ → Option ℕ → Option ℕ → Option ℕ
truncated (some a) (some b) (some c) (some d) =
    some ((a % 128 * 16777216 + b * 65536 + c * 256 + d) % 1000000)
truncated _ _ _ _ = none

abbrev pub code_number : Text → Option ℕ
code_number [] = none
code_number (c ∷ s) =
    let offset = last_byte c s % 16 in
    truncated (byte_at offset (c ∷ s)) (byte_at (offset + 1) (c ∷ s)) (byte_at (offset + 2) (c ∷ s))
      (byte_at (offset + 3) (c ∷ s))

-- `%06d` of a number below 1000000
abbrev pub six_digits : ℕ → Text
six_digits n =
    (b'0' + n / 100000)
    ∷ (b'0' + n / 10000 % 10)
    ∷ (b'0' + n / 1000 % 10)
    ∷ (b'0' + n / 100 % 10)
    ∷ (b'0' + n / 10 % 10)
    ∷ (b'0' + n % 10)
    ∷ []

-- The counter as eight bytes, the highest first.
abbrev pub counter_bytes : ℕ → Text
counter_bytes n =
    n / 72057594037927936 % 256
    ∷ n / 281474976710656 % 256
    ∷ n / 1099511627776 % 256
    ∷ n / 4294967296 % 256
    ∷ n / 16777216 % 256
    ∷ n / 65536 % 256
    ∷ n / 256 % 256
    ∷ n % 256
    ∷ []

abbrev code_text : Option ℕ → Option Text
code_text none = none
code_text (some n) = some (six_digits n)

-- strings.ToUpper of a character; a secret is in ASCII.
abbrev pub upper : ℕ → ℕ
upper c = if leb b'a' c && leb c b'z' then c - 32 else c

-- Whether a computed code is the one that was given.
abbrev pub is_code : Text → Option Text → Bool
is_code given none = false
is_code given (some c) = text_eq c given

-- `decode_base32` is the unpadded base32 decoding, `hmac_sha1` the HMAC-SHA1 of a message under a
-- key, which has 20 bytes.
module _ (decode_base32 : Text → Option Text) (hmac_sha1 : Text → Text → Text) where
  abbrev pub code_of_key : ℕ → Option Text → Option Text
  code_of_key t none = none
  code_of_key t (some key) =
      code_text (code_number (hmac_sha1 key (counter_bytes (t / totp_period))))

  unfoldable pub totp_at : Text → ℕ → Option Text
  totp_at secret t = code_of_key t (decode_base32 (map upper (trim_space secret)))

  -- `ValidateTOTP` at the time `now`, which is at least one period.
  unfoldable pub validate_totp : ℕ → Text → Text → Bool
  unfolding totp_at
  validate_totp now secret code =
      let given = trim_space code in
      if not (length given == totp_digits)
      then false
      else (is_code given (totp_at secret (now - totp_period))
          || (is_code given (totp_at secret now)
              || is_code given (totp_at secret (now + totp_period))))

text_eq-length : (s t : Text) → text_eq s t ≡ true → length s ≡ length t
text_eq-length [] [] h = refl
text_eq-length [] (d ∷ t) h = ground arith
text_eq-length (c ∷ s) [] h = ground arith
text_eq-length (c ∷ s) (d ∷ t) h = ground (arith, text_eq-length s t)

module _ (decode_base32 : Text → Option Text) (hmac_sha1 : Text → Text → Text) where
  is_code_text-length :
      (given : Text) (o : Option ℕ)
      → is_code given (code_text o) ≡ true
      → length given ≡ totp_digits
  is_code_text-length given none h = ground arith
  is_code_text-length given (some n) h = sym (text_eq-length (six_digits n) given h)

  is_code-length :
      (given secret : Text) (t : ℕ)
      → is_code given (totp_at decode_base32 hmac_sha1 secret t) ≡ true
      → length given ≡ totp_digits
  unfolding totp_at
  is_code-length given secret t h =
      elim (Option-cases (decode_base32 (map upper (trim_space secret)))) [
        | inl bad ↦
            (let g : is_code given (code_of_key decode_base32 hmac_sha1 t none) ≡ true =
                subst (λ o. is_code given (code_of_key decode_base32 hmac_sha1 t o) ≡ true) bad h in
              ground arith)
        | inr (key, e) ↦
            is_code_text-length given
              (code_number (hmac_sha1 key (counter_bytes (t / totp_period))))
              (subst (λ o. is_code given (code_of_key decode_base32 hmac_sha1 t o) ≡ true) e h)
      ]

  -- A text is accepted exactly if, trimmed, it is the code of the period at hand, the one before or
  -- the one after; the test of its length refuses no such code.
  pub validate_totp_lem :
      (now : ℕ) (secret code : Text)
      → validate_totp decode_base32 hmac_sha1 now secret code ≡ (
          is_code (trim_space code) (totp_at decode_base32 hmac_sha1 secret (now - totp_period))
          || (is_code (trim_space code) (totp_at decode_base32 hmac_sha1 secret now)
              || is_code
                  (trim_space code)
                  (totp_at decode_base32 hmac_sha1 secret (now + totp_period))))
  unfolding validate_totp
  validate_totp_lem now secret code = ground (
    arith,
    is_code-length (trim_space code) secret (now - totp_period),
    is_code-length (trim_space code) secret now,
    is_code-length (trim_space code) secret (now + totp_period),
  )
