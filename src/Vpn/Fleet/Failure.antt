-- ===== src/Vpn/Fleet/Failure.antt =====
-- internal/vpn/service.go: what is left in the database when an operation fails.
use vpn_price_public.Base.{◌≡◌, refl, ◌∙◌, arith, inl, inr, ℕ, Option, none, some, Bool-cases, Text}
use vpn_price_public.Vpn.Fleet.Model.{Protocol, Server, Generated, VpnError, Result, ok, err}
use vpn_price_public.Vpn.Fleet.Store.{World, M, continue, tick, fault_of, commit, transaction}
use vpn_price_public.Vpn.Fleet.Queries.{get_plan, list_used_ips}
use vpn_price_public.Vpn.Fleet.Selection.{select_server}
use vpn_price_public.Vpn.Fleet.Persist.{CreateParams, persist, persist_body}
use vpn_price_public.Vpn.Fleet.Provisioner.{
  add_wireguard_peer, add_vless_client, add_shadowsocks_client, add_trojan_client,
}
use vpn_price_public.Vpn.Fleet.Issue.{
  Service, generate, generate_wireguard, generate_reality, generate_shadowsocks, generate_trojan,
  routed, put, provision, encrypted, store_config, store_qr, apply_encrypted_keys,
  encrypted_or_none, with_user_key,
}
use vpn_price_public.Vpn.Fleet.Service.{CreateRequest, create_params, terms, prepare, create}
use vpn_price_public.Vpn.Fleet.Same.{
  Same, Same-continue, Same-here, Same-or_raise, Same-access, Same-draw, Same-clock, Same-guard,
  Same-lift, Same-query, Same-send, Same-cached, Same-random,
}

module _ (s : Service) where
  generate_wireguard-Same :
      (srv : Server) (mode : Text) (w : World) → Same w (generate_wireguard s srv mode w)
  unfolding generate_wireguard list_used_ips routed
  generate_wireguard-Same srv mode w = Same-continue w _ _ (Same-or_raise _ _ w) λ set w1.
      Same-continue w1 _ _ (Same-random w1) λ n w2.
        Same-continue w2 _ _ (Same-or_raise _ _ w2) λ pair w3.
          Same-continue w3 _ _ (Same-random w3) λ m w4.
            Same-continue w4 _ _ (Same-query _ w4) λ used w5.
              Same-continue w5 _ _ (Same-lift _ w5)
                λ ip w6. Same-continue w6 _ _ (Same-cached w6 _) λ allowed w7. Same-here w7 _

  generate_shadowsocks-Same :
      (srv : Server) (label : Text) (w : World) → Same w (generate_shadowsocks s srv label w)
  unfolding generate_shadowsocks
  generate_shadowsocks-Same srv label w = Same-continue w _ _ (Same-or_raise _ _ w) λ set w1.
      Same-continue w1 _ _ (Same-random w1)
        λ n w2. Same-continue w2 _ _ (Same-draw w2) λ m w3. Same-here w3 _

  generate_reality-Same :
      (srv : Server) (label : Text) (w : World) → Same w (generate_reality s srv label w)
  unfolding generate_reality
  generate_reality-Same srv label w =
      Same-continue w _ _ (Same-or_raise _ _ w)
        λ set w1. Same-continue w1 _ _ (Same-draw w1) λ n w2. Same-here w2 _

  generate_trojan-Same :
      (srv : Server) (label : Text) (w : World) → Same w (generate_trojan s srv label w)
  unfolding generate_trojan
  generate_trojan-Same srv label w = Same-continue w _ _ (Same-or_raise _ _ w) λ set w1.
      Same-continue w1 _ _ (Same-draw w1)
        λ n w2. Same-continue w2 _ _ (Same-draw w2) λ m w3. Same-here w3 _

  pub generate-Same :
      (srv : Server) (p : Protocol) (label mode : Text) (w : World)
      → Same w (generate s srv p label mode w)
  unfolding generate
  generate-Same srv Protocol.wireguard label mode w = generate_wireguard-Same srv mode w
  generate-Same srv Protocol.vless_reality label mode w = generate_reality-Same srv label w
  generate-Same srv Protocol.shadowsocks label mode w = generate_shadowsocks-Same srv label w
  generate-Same srv Protocol.trojan label mode w = generate_trojan-Same srv label w
  generate-Same srv (Protocol.other p) label mode w = Same-here w _

  pub provision-Same :
      (srv : Server) (p : Protocol) (g : Generated) (w : World) → Same w (provision s srv p g w)
  unfolding provision add_wireguard_peer add_vless_client add_shadowsocks_client add_trojan_client
  provision-Same srv Protocol.wireguard g w = Same-send s.provisioner srv _ _ w
  provision-Same srv Protocol.vless_reality g w = Same-send s.provisioner srv _ _ w
  provision-Same srv Protocol.shadowsocks g w = Same-send s.provisioner srv _ _ w
  provision-Same srv Protocol.trojan g w = Same-send s.provisioner srv _ _ w
  provision-Same srv (Protocol.other p) g w = Same-here w _

  encrypted-Same : (t : Text) (w : World) → Same w (encrypted s t w)
  unfolding encrypted
  encrypted-Same t w = Same-continue w _ _ (Same-random w) λ n w1. Same-here w1 _

  put-Same : (key bytes : Text) (w : World) → Same w (put s key bytes w)
  put-Same key bytes w = Same-access _ w (record { same = refl })

  store_qr-Same : (key : Text) (png : Option Text) (w : World) → Same w (store_qr s key png w)
  unfolding store_qr
  store_qr-Same key none w = Same-here w _
  store_qr-Same key (some png) w = Same-continue w _ _ (put-Same key png w) λ u w1. Same-here w1 _

  pub store_config-Same : (id : ℕ) (g : Generated) (w : World) → Same w (store_config s id g w)
  unfolding store_config
  store_config-Same id g w = Same-continue w _ _ (encrypted-Same g.config_text w) λ enc w1.
      Same-continue w1 _ _ (put-Same _ enc w1)
        λ u w2. Same-continue w2 _ _ (store_qr-Same _ _ w2) λ qr w3. Same-here w3 _

  encrypted_or_none-Same : (t : Option Text) (w : World) → Same w (encrypted_or_none s t w)
  unfolding encrypted_or_none
  encrypted_or_none-Same none w = Same-here w _
  encrypted_or_none-Same (some t) w =
      Same-continue w _ _ (encrypted-Same t w) λ v w1. Same-here w1 _

  with_user_key-Same :
      (t : Option Text) (p : CreateParams) (w : World) → Same w (with_user_key s t p w)
  unfolding with_user_key
  with_user_key-Same none p w = Same-here w _
  with_user_key-Same (some t) p w = Same-continue w _ _ (encrypted-Same t w) λ v w1. Same-here w1 _

  pub apply_encrypted_keys-Same :
      (g : Generated) (p : CreateParams) (w : World) → Same w (apply_encrypted_keys s g p w)
  unfolding apply_encrypted_keys
  apply_encrypted_keys-Same g p w =
      Same-continue w _ _ (encrypted_or_none-Same g.private_key w) λ priv w1.
        Same-continue w1 _ _ (encrypted_or_none-Same g.psk w1)
          λ psk w2. with_user_key-Same g.ss_user_key _ w2

  terms-Same : (plan : Option ℕ) (w : World) → Same w (terms plan w)
  unfolding terms get_plan
  terms-Same none w = Same-here w _
  terms-Same (some id) w = Same-continue w _ _ (Same-query _ w) λ plan w1. Same-here w1 _

  pub prepare-Same : (r : CreateRequest) (w : World) → Same w (prepare s r w)
  unfolding prepare select_server
  prepare-Same r w = Same-continue w _ _ (Same-guard _ _ w) λ u w1.
      Same-continue w1 _ _ (terms-Same r.plan_id w1) λ t w2.
        Same-continue w2 _ _ (Same-query _ w2) λ srv w3.
          Same-continue w3 _ _ (Same-draw w3) λ id w3.
            Same-continue w3 _ _ (generate-Same srv r.protocol _ _ w3) λ g w4.
              Same-continue w4 _ _ (provision-Same srv r.protocol g w4) λ u w5.
                Same-continue w5 _ _ (store_config-Same id g w5) λ keys w6.
                  Same-continue w6 _ _ (Same-clock w6) λ now w6.
                    Same-continue w6 _ _
                      (apply_encrypted_keys-Same g (create_params r srv t now g keys) w6)
                      λ p w7. Same-here w7 _

-- Only what committed is left of a transaction.
abbrev pub Undone : {A : Type 0} → World → Result A × World → Type 0
Undone w (ok a, v) = Unit
Undone w (err e, v) = v.db ≡ w.db

commit-Undone : {A : Type 0} (w : World) (r : Result A × World) → Undone w (commit w.db r)
unfolding commit
commit-Undone w (err e, v) = refl
commit-Undone w (ok a, v) = elim (Bool-cases (fault_of v.faults)) [
  | inl failed ↦ rw failed refl
  | inr done ↦ rw done tt
]

pub transaction-Undone : {A : Type 0} (body : M A) (w : World) → Undone w (transaction body w)
unfolding transaction
transaction-Undone body w = elim (Bool-cases (fault_of w.faults)) [
  | inl failed ↦ rw failed refl
  | inr begun ↦ rw begun (commit-Undone w (body (tick w)))
]

Undone-same :
    {A : Type 0} (w v : World) (r : Result A × World) → v.db ≡ w.db → Undone v r → Undone w r
Undone-same w v (ok a, v') e h = tt
Undone-same w v (err x, v') e h = h ∙ e

pub Undone-continue :
    {A B : Type 0} (w : World) (r : Result A × World) (f : A → M B)
    → Same w r
    → ((a : A) (v : World) → Undone v (f a v))
    → Undone w (continue r f)
unfolding continue
Undone-continue w (err e, v) f h k = h.same
Undone-continue w (ok a, v) f h k = Undone-same w v (f a v) h.same (k a v)

-- An action on a result that succeeded.
Undone-then :
    {A B : Type 0} (w : World) (r : Result A × World) (f : A → B)
    → Undone w r
    → Undone w (continue r (λ a v. (ok (f a), v)))
unfolding continue
Undone-then w (ok a, v) f h = tt
Undone-then w (err e, v) f h = h

create-Undone : (s : Service) (r : CreateRequest) (w : World) → Undone w (create s r w)
unfolding create persist
create-Undone s r w = Undone-continue w _ _ (prepare-Same s r w) λ made w1.
    Undone-continue w1 _ _ (Same-clock w1)
      λ now w2. Undone-then w2 _ _ (transaction-Undone (persist_body now made.0 made.1.0) w2)

pub Undone-err :
    {A : Type 0} (w : World) (r : Result A × World) {e : VpnError} {v : World}
    → Undone w r
    → r ≡ (err e, v)
    → v.db ≡ w.db
Undone-err w (ok a, v') h eq = ground arith
Undone-err w (err x, v') h eq = ground arith

-- A creation that ends in an error has left all tables as they were.
pub create-err :
    (s : Service) (r : CreateRequest) (w : World) {e : VpnError} {v : World}
    → create s r w ≡ (err e, v)
    → v.db ≡ w.db
create-err s r w {e} {v} h = Undone-err w (create s r w) (create-Undone s r w) h
