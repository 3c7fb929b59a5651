-- ===== src/Vpn/Fleet/Fetched.antt =====
-- internal/vpn/service.go: a configuration that `Create` makes, and `FetchConfig`.
use vpn_price_public.Base.{
  ℕ, ◌≡◌, refl, sym, ◌∙◌, ap, subst, inl, inr, true, false, ◌&&◌, none, some, List, [], ◌∷◌, arith,
  ◌==◌, any, select, if◌then◌else◌, Bool-cases, Text,
}
use vpn_price_public.Vpn.Crypto.{encrypt, decrypt}
use vpn_price_public.Vpn.Crypto.Sealed.{IsCipher, decrypt-encrypt}
use vpn_price_public.Vpn.Fleet.Model.{
  Protocol, Server, Config, Generated, VpnView, not_found, Result, ok, err,
}
use vpn_price_public.Vpn.Fleet.Store.{
  Tables, World, continue, access, statement, fault_of, tick, clock, commit, transaction, or_raise,
}
use vpn_price_public.Vpn.Fleet.Queries.{latest_config, get_artifact_for_user}
use vpn_price_public.Vpn.Fleet.Selection.{found_or, is_kept}
use vpn_price_public.Vpn.Fleet.Persist.{
  CreateParams, new_config, persist, persist_body, insert_subscription, insert_config, insert_key,
  increment_load,
}
use vpn_price_public.Vpn.Fleet.Issue.{
  Service, generate, generate_wireguard, generate_reality, generate_shadowsocks, generate_trojan,
  config_key,
}
use vpn_price_public.Vpn.Fleet.Service.{
  CreateRequest, create_params, prepare, create, object_at, fetch_config,
}
use vpn_price_public.Vpn.Fleet.Failure.{prepare-Same}
use vpn_price_public.Vpn.Fleet.Same.{Same-ok}
use vpn_price_public.Vpn.Fleet.Ends.{Ends, Ends-continue, Ends-pure}
use vpn_price_public.Vpn.Fleet.Effects.{persisted, persist-Ends}
use vpn_price_public.Vpn.Fleet.Stored.{
  Untouched, Untouched-ok, Untouched-continue, Untouched-here, Holds, store_config-Holds,
  apply_encrypted_keys-Fields,
}

-- The answer of `GetArtifactForUser`.
abbrev pub artifact : ℕ → ℕ → Tables → Result Config
artifact user sub db = found_or not_found (
    if any (λ s. s.id == sub && (s.user_id == user && is_kept s.status)) db.subscriptions
    then latest_config sub db.configs
    else none)

module _ (s : Service) where
  abbrev Hashed : Generated → World → Type 0
  Hashed g v = g.hash ≡ s.crypto.sha256hex g.config_text

  generate-Hashed :
      (srv : Server) (p : Protocol) (label mode : Text) (w : World)
      → Ends Hashed (generate s srv p label mode w)
  unfolding generate generate_wireguard generate_reality generate_shadowsocks generate_trojan
  generate-Hashed srv Protocol.wireguard label mode w = Ends-continue _ _ _ λ set w1 _.
      Ends-continue _ _ _ λ n w2 _. Ends-continue _ _ _ λ pair w3 _. Ends-continue _ _ _ λ m w4 _.
        Ends-continue _ _ _ λ used w5 _.
          Ends-continue _ _ _ λ ip w6 _. Ends-continue _ _ _ λ allowed w7 _. Ends-pure _ _ _ refl
  generate-Hashed srv Protocol.vless_reality label mode w =
      Ends-continue _ _ _ λ set w1 _. Ends-continue _ _ _ λ n w2 _. Ends-pure _ _ _ refl
  generate-Hashed srv Protocol.shadowsocks label mode w =
      Ends-continue _ _ _
        λ set w1 _. Ends-continue _ _ _ λ n w2 _. Ends-continue _ _ _ λ m w3 _. Ends-pure _ _ _ refl
  generate-Hashed srv Protocol.trojan label mode w =
      Ends-continue _ _ _
        λ set w1 _. Ends-continue _ _ _ λ n w2 _. Ends-continue _ _ _ λ m w3 _. Ends-pure _ _ _ refl
  generate-Hashed srv (Protocol.other p) label mode w = record { ends = λ e. ground arith }

  -- The parameters that go to the database name an object, which holds a text of their hash.
  abbrev pub IsPrepared : CreateRequest → CreateParams → World → Type 0
  IsPrepared r p v =
      (text : Text) × (p.user_id ≡ r.user_id)
      × (p.hash ≡ s.crypto.sha256hex text)
      × Holds s p.config_object_key text v

  prepare-IsPrepared :
      (r : CreateRequest) (w : World) → Ends (λ made v. IsPrepared r made.0 v) (prepare s r w)
  unfolding prepare clock
  prepare-IsPrepared r w = Ends-continue _ _ _ λ u w1 _. Ends-continue _ _ _ λ t w2 _.
      Ends-continue _ _ _ λ srv w3 _. Ends-continue _ _ _ λ id w4 _.
        Ends-continue _ _ _ λ g w5 did5.
          let hashed = (generate-Hashed srv r.protocol _ _ w4).ends did5 in
          Ends-continue _ _ _ λ u w6 _. Ends-continue _ _ _ λ keys w7 did7.
            let stored = (store_config-Holds s id g w6).ends did7 in
            Ends-continue _ _ _ λ now w8 did8. Ends-continue _ _ _ λ p w9 did9.
              let kept =
                (apply_encrypted_keys-Fields s g (create_params r srv t now g keys) w8).ends did9 in
              let objects : w9.objects ≡ w7.objects = kept.1 ∙ sym (ap (λ x. x.1.objects) did8) in
              let key : p.config_object_key ≡ config_key s id = kept.0.2 ∙ stored.0 in
              Ends-pure _ _ _ (
                g.config_text,
                kept.0.0,
                kept.0.1 ∙ hashed,
                (stored.1.0, rw (objects, key) stored.1.1),
              )

Untouched-statement :
    {A : Type 0} (run : Tables → Result A × Tables) (w : World) → Untouched w (statement run w)
unfolding access
Untouched-statement run w = elim (Bool-cases (fault_of w.faults)) [
  | inl failed ↦ rw failed (record { untouched = refl })
  | inr done ↦ rw done (record { untouched = refl })
]

Untouched-commit :
    {A : Type 0} (saved : Tables) (w : World) (r : Result A × World)
    → Untouched w r
    → Untouched w (commit saved r)
unfolding commit
Untouched-commit saved w (err e, v) h = record { untouched = h.untouched }
Untouched-commit saved w (ok a, v) h = elim (Bool-cases (fault_of v.faults)) [
  | inl failed ↦ rw failed (record { untouched = h.untouched })
  | inr done ↦ rw done (record { untouched = h.untouched })
]

persist_body-Untouched :
    (now : ℕ) (p : CreateParams) (id : ℕ) (w : World) → Untouched w (persist_body now p id w)
unfolding persist_body insert_subscription insert_config insert_key increment_load
persist_body-Untouched now p id w = Untouched-continue w _ _ (Untouched-statement _ w) λ sub w1.
    Untouched-continue w1 _ _ (Untouched-statement _ w1) λ cfg w2.
      Untouched-continue w2 _ _ (Untouched-statement _ w2)
        λ u w3. Untouched-continue w3 _ _ (Untouched-statement _ w3) λ u w4. Untouched-here w4 _

persist-Untouched :
    (now : ℕ) (p : CreateParams) (id : ℕ) (w : World) → Untouched w (persist now p id w)
unfolding persist transaction
persist-Untouched now p id w = elim (Bool-cases (fault_of w.faults)) [
  | inl failed ↦ rw failed (record { untouched = refl })
  | inr begun ↦ rw begun (record {
    untouched =
        (Untouched-commit w.db (tick w) _ (persist_body-Untouched now p id (tick w))).untouched;
  })
]

-- What a creation leaves: the new configuration is the subscription's only one, and its object holds
-- a text of its hash.
abbrev pub IsStored : Service → CreateRequest → VpnView → World → Type 0
IsStored s r view v =
    (text : Text) × (art : Config) × (n : ℕ) × (view.config.hash ≡ s.crypto.sha256hex text)
    × (artifact r.user_id view.subscription.id v.db ≡ ok art)
    × (object_at art.config_object_key v.objects ≡ some (encrypt s.crypto n text))

none-selected :
    (sub : ℕ) (configs : List Config)
    → any (λ (c : Config). c.subscription_id == sub) configs ≡ false
    → select (λ (c : Config). c.subscription_id == sub) configs ≡ []
none-selected sub [] h = refl
none-selected sub (c ∷ cs) h = ground (arith, none-selected sub cs)

artifact-persisted :
    (now : ℕ) (p : CreateParams) (id : ℕ) (db : Tables)
    → any (λ (c : Config). c.subscription_id == db.next_id) db.configs ≡ false
    → artifact p.user_id db.next_id (persisted now p id db) ≡ ok (new_config id db.next_id 1 now p)
artifact-persisted now p id db fresh =
    let same : (db.next_id == db.next_id) ≡ true = ground arith in
    let mine : (p.user_id == p.user_id) ≡ true = ground arith in
    rw (same, mine, none-selected db.next_id db.configs fresh) refl

create-IsStored :
    (s : Service) (r : CreateRequest) (w : World)
    → any (λ (c : Config). c.subscription_id == w.db.next_id) w.db.configs ≡ false
    → Ends (IsStored s r) (create s r w)
unfolding create clock
create-IsStored s r w fresh = Ends-continue _ _ _ λ made w1 did1.
    let (text, user, hash, (n, there)) = (prepare-IsPrepared s r w).ends did1 in
    let db1 = Same-ok w _ (prepare-Same s r w) did1 in
    Ends-continue _ _ _ λ now w2 did2.
      let same2 : w2.db ≡ w.db = sym (ap (λ x. x.1.db) did2) ∙ db1 in
      let objects2 : w2.objects ≡ w1.objects = sym (ap (λ x. x.1.objects) did2) in
      Ends-continue _ _ _ λ row w3 did3.
        let (is_row, left, _, _) = (persist-Ends now made.0 made.1.0 w2).ends did3 in
        let objects3 = Untouched-ok w2 _ (persist-Untouched now made.0 made.1.0 w2) did3 in
        let fresh2 : any (λ (c : Config). c.subscription_id == w2.db.next_id) w2.db.configs
            ≡ false =
          subst
            (λ (db : Tables).
              any (λ (c : Config). c.subscription_id == db.next_id) db.configs ≡ false)
            (sym same2) fresh in
        Ends-pure _ _ _ (
          text,
          new_config made.1.0 w2.db.next_id 1 now made.0,
          n,
          rw is_row hash,
          rw (is_row, left)
              (subst
                (λ (u : ℕ).
                  artifact u w2.db.next_id (persisted now made.0 made.1.0 w2.db)
                  ≡ ok (new_config made.1.0 w2.db.next_id 1 now made.0))
                user (artifact-persisted now made.0 made.1.0 w2.db fresh2)),
          rw (objects3, objects2) there,
        )

fetch-stored :
    (s : Service) (user sub : ℕ) (w : World) {art : Config} {enc text : Text}
    → w.faults ≡ []
    → artifact user sub w.db ≡ ok art
    → object_at art.config_object_key w.objects ≡ some enc
    → decrypt s.crypto enc ≡ some text
    → (fetch_config s user sub w).0 ≡ ok text
unfolding fetch_config get_artifact_for_user access continue or_raise
fetch-stored s user sub w calm found there opens = rw (calm, found, there, opens) refl

-- If the cipher keeps its promises and no configuration bears the next identifier yet, then after a
-- creation that succeeds the owner fetches, in any state with these tables and objects in which no
-- access fails, a text whose hash is the one that the creation returned.
pub create-fetch_config :
    (s : Service) (r : CreateRequest) (w later : World) {view : VpnView} {v : World}
    → IsCipher s.crypto
    → any (λ (c : Config). c.subscription_id == w.db.next_id) w.db.configs ≡ false
    → create s r w ≡ (ok view, v)
    → later.db ≡ v.db
    → later.objects ≡ v.objects
    → later.faults ≡ []
    → (text : Text) × ((fetch_config s r.user_id view.subscription.id later).0 ≡ ok text)
      × (view.config.hash ≡ s.crypto.sha256hex text)
create-fetch_config s r w later {view} {v} law fresh e same_db same_objects calm =
    let (text, art, n, hash, found, there) = (create-IsStored s r w fresh).ends e in
    (
      text,
      fetch-stored s r.user_id view.subscription.id later {art = art}
          {enc = encrypt s.crypto n text} calm (rw same_db found) (rw same_objects there)
          (decrypt-encrypt s.crypto n text law),
      hash,
    )
