-- ===== src/Vpn/Fleet/Stored.antt =====
-- internal/vpn/service.go, `storeConfig` and `FetchConfig`: the object that is stored is the one that
-- is fetched.
use vpn_price_public.Base.{
  ℕ, ◌≡◌, refl, sym, ◌∙◌, ap, inl, inr, Option, none, some, ◌∷◌, Bool-cases, Text, text_eq_refl,
}
use vpn_price_public.Vpn.Crypto.{encrypt}
use vpn_price_public.Vpn.Fleet.Model.{Generated, Result, ok, err}
use vpn_price_public.Vpn.Fleet.Store.{World, M, continue, access, draw, fault_of}
use vpn_price_public.Vpn.Fleet.Issue.{
  Service, random, put, encrypted, store_config, store_qr, config_key, qr_key, apply_encrypted_keys,
  encrypted_or_none, with_user_key,
}
use vpn_price_public.Vpn.Fleet.Service.{object_at}
use vpn_price_public.Vpn.Fleet.Persist.{CreateParams}
use vpn_price_public.Vpn.Fleet.Ends.{Ends, Ends-continue, Ends-pure, access-ok}

-- The objects are as they were.
pub record Untouched {A : Type 0} (w : World) (r : Result A × World) : Type 0 where
  pub untouched : r.1.objects ≡ w.objects

pub Untouched-ok :
    {A : Type 0} (w : World) (r : Result A × World) {a : A} {v : World}
    → Untouched w r
    → r ≡ (ok a, v)
    → v.objects ≡ w.objects
Untouched-ok w r h e = sym (ap (λ x. x.1.objects) e) ∙ h.untouched

pub Untouched-continue :
    {A B : Type 0} (w : World) (r : Result A × World) (f : A → M B)
    → Untouched w r
    → ((a : A) (v : World) → Untouched v (f a v))
    → Untouched w (continue r f)
unfolding continue
Untouched-continue w (ok a, v) f h k = record { untouched = (k a v).untouched ∙ h.untouched }
Untouched-continue w (err e, v) f h k = record { untouched = h.untouched }

pub Untouched-here : {A : Type 0} (w : World) (r : Result A) → Untouched w (r, w)
Untouched-here w r = record { untouched = refl }

Untouched-random : (w : World) → Untouched w (random w)
unfolding access draw
Untouched-random w = elim (Bool-cases (fault_of w.faults)) [
  | inl failed ↦ rw failed (record { untouched = refl })
  | inr done ↦ rw done (record { untouched = refl })
]

module _ (s : Service) where
  encrypted-Untouched : (t : Text) (w : World) → Untouched w (encrypted s t w)
  unfolding encrypted
  encrypted-Untouched t w =
      Untouched-continue w _ _ (Untouched-random w) λ n w1. Untouched-here w1 _

  encrypted-ok :
      (t : Text) (w : World)
      → Ends (λ enc v. (n : ℕ) × (enc ≡ encrypt s.crypto n t)) (encrypted s t w)
  unfolding encrypted
  encrypted-ok t w = Ends-continue _ _ _ λ n w1 _. Ends-pure _ _ _ (n, refl)

  put-ok :
      (key bytes : Text) (w : World) {u : Unit {0}} {v : World}
      → put s key bytes w ≡ (ok u, v)
      → v.objects ≡ (key, bytes) ∷ w.objects
  put-ok key bytes w e = let h = access-ok _ w e in sym (ap (λ x. x.1.objects) h)

  -- What is stored under a configuration's key.
  abbrev pub Holds : Text → Text → World → Type 0
  Holds key text w = (n : ℕ) × (object_at key w.objects ≡ some (encrypt s.crypto n text))

  Holds-put :
      (id : ℕ) (text png : Text) (w v : World)
      → Holds (config_key s id) text w
      → v.objects ≡ (qr_key s id, png) ∷ w.objects
      → Holds (config_key s id) text v
  Holds-put id text png w v (n, there) e = (n, rw e there)

  store_qr-Holds :
      (id : ℕ) (text : Text) (png : Option Text) (w : World)
      → Holds (config_key s id) text w
      → Ends (λ key v. Holds (config_key s id) text v) (store_qr s (qr_key s id) png w)
  unfolding store_qr
  store_qr-Holds id text none w h = Ends-pure _ _ _ h
  store_qr-Holds id text (some png) w h =
      Ends-continue _ _ _
        λ u w1 did. Ends-pure _ _ _ (Holds-put id text png w w1 h (put-ok (qr_key s id) png w did))

  pub store_config-Holds :
      (id : ℕ) (g : Generated) (w : World)
      → Ends
          (λ keys v. (keys.0 ≡ config_key s id) × Holds (config_key s id) g.config_text v)
          (store_config s id g w)
  unfolding store_config
  store_config-Holds id g w = Ends-continue _ _ _ λ enc w1 did1.
      let (n, is_enc) = (encrypted-ok g.config_text w).ends did1 in
      Ends-continue _ _ _ λ u w2 did2.
        let stored = put-ok (config_key s id) enc w1 did2 in
        let holds : Holds (config_key s id) g.config_text w2 =
          (n, rw (stored, text_eq_refl (config_key s id), is_enc) refl) in
        Ends-continue _ _ _ λ qr w3 did3.
          Ends-pure _ _ _ (refl, (store_qr-Holds id g.config_text _ w2 holds).ends did3)

  encrypted_or_none-Untouched :
      (t : Option Text) (w : World) → Untouched w (encrypted_or_none s t w)
  unfolding encrypted_or_none
  encrypted_or_none-Untouched none w = Untouched-here w _
  encrypted_or_none-Untouched (some t) w =
      Untouched-continue w _ _ (encrypted-Untouched t w) λ v w1. Untouched-here w1 _

  -- The fields that the encryption of the keys leaves alone.
  abbrev pub SameFields : CreateParams → CreateParams → Type 0
  SameFields p q =
      (q.user_id ≡ p.user_id) × (q.hash ≡ p.hash) × (q.config_object_key ≡ p.config_object_key)

  with_user_key-Ends :
      (t : Option Text) (p q : CreateParams) (w : World)
      → SameFields p q
      → Ends (λ r v. SameFields p r × (v.objects ≡ w.objects)) (with_user_key s t q w)
  unfolding with_user_key
  with_user_key-Ends none p q w h = Ends-pure _ _ _ (h, refl)
  with_user_key-Ends (some t) p q w h =
      Ends-continue _ _ _
        λ v w1 did. Ends-pure _ _ _ (h, Untouched-ok w _ (encrypted-Untouched t w) did)

  pub apply_encrypted_keys-Fields :
      (g : Generated) (p : CreateParams) (w : World)
      → Ends (λ q v. SameFields p q × (v.objects ≡ w.objects)) (apply_encrypted_keys s g p w)
  unfolding apply_encrypted_keys
  apply_encrypted_keys-Fields g p w = Ends-continue _ _ _ λ priv w1 did1.
      Ends-continue _ _ _ λ psk w2 did2. record {
        ends = λ did.
            let (fields, same) =
              (with_user_key-Ends g.ss_user_key p _ w2 (refl, refl, refl)).ends did in
            (
              fields,
              same
                  ∙ Untouched-ok w1 _ (encrypted_or_none-Untouched g.psk w1) did2
                  ∙ Untouched-ok w _ (encrypted_or_none-Untouched g.private_key w) did1,
            );
      }
