-- ===== src/Vpn/Crypto.antt =====
-- internal/vpn/crypto.go: keys, and the cipher of the secrets at rest. Bytes are numbers below 256.
use vpn_price_public.Base.{
  ℕ, zero, suc, ◌+◌, ◌-◌, ◌%◌, Bool, Option, none, some, List, [], ◌∷◌, ◌++◌, ltb, if◌then◌else◌,
  length, Text,
}
pub mod Sealed
pub mod Clamped
mod Tests

-- What the code calls of other packages: the random source by the number of the draw, X25519 at the
-- base point, base64, AES-256-GCM under the service's key, SHA-256 in hex, the text of a URL, and
-- the image of a QR code.
pub record Url : Type 0 where
  pub scheme : Text
  pub user : Text
  pub host : Text
  pub query : List (Text × Text)
  pub fragment : Text

pub record Primitives : Type 0 where
  pub random_bytes : ℕ → ℕ → List ℕ
  pub random_uuid : ℕ → Text
  pub x25519_base : List ℕ → Option (List ℕ)
  pub base64 : List ℕ → Text
  pub unbase64 : Text → Option (List ℕ)
  pub raw_base64_url : List ℕ → Text
  pub seal : List ℕ → List ℕ → List ℕ
  pub unseal : List ℕ → List ℕ → Option (List ℕ)
  pub sha256hex : Text → Text
  pub url_string : Url → Text
  pub qr_png : Text → ℕ → Option Text

-- `b &= 248`
abbrev pub clear_low : ℕ → ℕ
clear_low b = b - b % 8

-- `b &= 127` and `b |= 64`
abbrev pub set_high : ℕ → ℕ
set_high b = let c = b % 128 in if ltb c 64 then c + 64 else c

abbrev pub at_last : (ℕ → ℕ) → List ℕ → List ℕ
at_last f [] = []
at_last f (b ∷ []) = f b ∷ []
at_last f (b ∷ c ∷ bs) = b ∷ at_last f (c ∷ bs)

-- The clamping of the 32 bytes: the first is `priv[0]`, the last `priv[31]`.
unfoldable pub clamp : List ℕ → List ℕ
clamp [] = []
clamp (b ∷ bs) = at_last set_high (clear_low b ∷ bs)

abbrev pub encoded_pair : (List ℕ → Text) → List ℕ → Option (List ℕ) → Option (Text × Text)
encoded_pair encode priv none = none
encoded_pair encode priv (some pub_key) = some (encode priv, encode pub_key)

module _ (x : Primitives) where
  unfoldable pub generate_wireguard_keypair : ℕ → Option (Text × Text)
  unfolding clamp
  generate_wireguard_keypair n =
      let priv : List ℕ = clamp (x.random_bytes n 32) in
      encoded_pair x.base64 priv (x.x25519_base priv)

  unfoldable pub generate_preshared_key : ℕ → Text
  generate_preshared_key n = x.base64 (x.random_bytes n 32)

  unfoldable pub generate_shadowsocks_key : ℕ → Text
  generate_shadowsocks_key n = x.base64 (x.random_bytes n 16)

  -- `NonceSize` of GCM is 12; `Seal` appends the ciphertext to the nonce.
  unfoldable pub encrypt : ℕ → Text → Text
  encrypt n plaintext =
      let nonce : List ℕ = x.random_bytes n 12 in x.base64 (nonce ++ x.seal nonce plaintext)

  -- `raw[:ns]` and `raw[ns:]`
  abbrev pub take_bytes : ℕ → List ℕ → List ℕ
  take_bytes zero bs = []
  take_bytes (suc n) [] = []
  take_bytes (suc n) (b ∷ bs) = b ∷ take_bytes n bs

  abbrev pub drop_bytes : ℕ → List ℕ → List ℕ
  drop_bytes zero bs = bs
  drop_bytes (suc n) [] = []
  drop_bytes (suc n) (b ∷ bs) = drop_bytes n bs

  abbrev pub opened : Option (List ℕ) → Option Text
  opened none = none
  opened (some raw) =
      if ltb (length raw) 12 then none else x.unseal (take_bytes 12 raw) (drop_bytes 12 raw)

  unfoldable pub decrypt : Text → Option Text
  decrypt encoded = opened (x.unbase64 encoded)
