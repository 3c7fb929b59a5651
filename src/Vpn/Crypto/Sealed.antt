-- ===== src/Vpn/Crypto/Sealed.antt =====
-- internal/vpn/crypto.go: what is decrypted is what was encrypted, and the shape of private keys.
use vpn_price_public.Base.{
  ℕ, zero, suc, ◌≤◌, ◌≡◌, refl, ap, false, some, List, [], ◌∷◌, ◌++◌, arith, ltb, length, Text,
}
use vpn_price_public.Vpn.Crypto.{Primitives, take_bytes, drop_bytes, encrypt, decrypt}

-- What the packages promise: base64 is read back, random reads have the length asked for, and GCM
-- opens what it sealed under the same nonce.
pub record IsCipher (x : Primitives) : Type 0 where
  pub unbase64_base64 : (bs : List ℕ) → x.unbase64 (x.base64 bs) ≡ some bs
  pub random_length : (n k : ℕ) → length (x.random_bytes n k) ≡ k
  pub unseal_seal : (nonce t : List ℕ) → x.unseal nonce (x.seal nonce t) ≡ some t

module _ (x : Primitives) where
  split-append :
      (n : ℕ) (bs cs : List ℕ)
      → length bs ≡ n
      → (take_bytes x n (bs ++ cs) ≡ bs) × (drop_bytes x n (bs ++ cs) ≡ cs)
  split-append zero [] cs h = (refl, refl)
  split-append zero (b ∷ bs) cs h = ground arith
  split-append (suc n) [] cs h = ground arith
  split-append (suc n) (b ∷ bs) cs h =
      let (front, back) = split-append n bs cs (ground arith) in (ap (λ t. b ∷ t) front, back)

  length-append-le : (bs cs : List ℕ) → length bs ≤ length (bs ++ cs)
  length-append-le [] cs = omega arith
  length-append-le (b ∷ bs) cs = omega (arith, length-append-le bs cs)

  -- If base64 is read back, random reads have the length asked for and GCM opens what it has
  -- sealed, then Decrypt gives back each text that Encrypt was given.
  pub decrypt-encrypt : (n : ℕ) (t : Text) → IsCipher x → decrypt x (encrypt x n t) ≡ some t
  unfolding decrypt encrypt
  decrypt-encrypt n t law =
      let nonce : List ℕ = x.random_bytes n 12 in
      let long : ltb (length (nonce ++ x.seal nonce t)) 12 ≡ false =
        ground (arith, length-append-le nonce (x.seal nonce t), law.random_length n 12) in
      let (front, back) = split-append 12 nonce (x.seal nonce t) (law.random_length n 12) in
      rw (law.unbase64_base64 (nonce ++ x.seal nonce t), long, front, back)
        (law.unseal_seal nonce t)
