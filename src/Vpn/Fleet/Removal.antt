-- ===== src/Vpn/Fleet/Removal.antt =====
-- internal/vpn/service.go, `Delete`: what is left of a VPN.
use vpn_price_public.Base.{
  ◌≡◌, ◌≢◌, refl, ◌∙◌, inl, inr, ℕ, Bool, true, false, not, ◌&&◌, Option, none, some, List, [], ◌∷◌,
  arith, ◌==◌, any, find, select, update_where, Bool-cases, Text,
}
use vpn_price_public.Vpn.Fleet.Model.{
  Protocol, Server, Subscription, Config, Key, VpnError, Result, ok, err,
}
use vpn_price_public.Vpn.Fleet.Store.{World, M, continue, attempt, attempted}
use vpn_price_public.Vpn.Fleet.Queries.{belongs_to, get_artifact_for_user}
use vpn_price_public.Vpn.Fleet.Selection.{is_kept}
use vpn_price_public.Vpn.Fleet.Updates.{
  Deletion, owned, is_sub, as_deleted, revoked, soft_delete, soft_delete_body,
}
use vpn_price_public.Vpn.Fleet.Provisioner.{
  remove_wireguard_peer, remove_vless_client, remove_shadowsocks_client, remove_trojan_client,
}
use vpn_price_public.Vpn.Fleet.Issue.{Service}
use vpn_price_public.Vpn.Fleet.Service.{
  remove_object, if_some, deprovision, purge, delete, fetch_config,
}
use vpn_price_public.Vpn.Fleet.Failure.{Undone, transaction-Undone, Undone-err}
use vpn_price_public.Vpn.Fleet.Same.{
  Same, Same-continue, Same-ok, Same-here, Same-access, Same-attempted, Same-send,
}
use vpn_price_public.Vpn.Fleet.Ends.{continue-ok, query-ok}
use vpn_price_public.Vpn.Fleet.Effects.{removed, soft_delete-Ends}

-- The action keeps the tables.
abbrev pub Keeps : {A : Type 0} → M A → Type 0
Keeps m = (w : World) → Same w (m w)

module _ (s : Service) where
  if_some-Same :
      (t : Option Text) (f : Text → M (Unit {0}))
      → ((x : Text) → Keeps (f x))
      → Keeps (if_some s t f)
  if_some-Same none f h w = Same-here w _
  if_some-Same (some t) f h w = h t w

  pub deprovision-Same :
      (srv : Server) (p : Protocol) (key uuid : Option Text) → Keeps (deprovision s srv p key uuid)
  unfolding deprovision remove_wireguard_peer remove_vless_client remove_shadowsocks_client
      remove_trojan_client
  deprovision-Same srv Protocol.wireguard key uuid w =
      if_some-Same key _ (λ x v. Same-send s.provisioner srv _ _ v) w
  deprovision-Same srv Protocol.vless_reality key uuid w =
      if_some-Same uuid _ (λ x v. Same-send s.provisioner srv _ _ v) w
  deprovision-Same srv Protocol.shadowsocks key uuid w =
      if_some-Same uuid _ (λ x v. Same-send s.provisioner srv _ _ v) w
  deprovision-Same srv Protocol.trojan key uuid w =
      if_some-Same uuid _ (λ x v. Same-send s.provisioner srv _ _ v) w
  deprovision-Same srv (Protocol.other p) key uuid w = Same-here w _

  remove_object-Same : (key : Text) → Keeps (remove_object key)
  remove_object-Same key w = Same-access _ w (record { same = refl })

  purge-Same : (keys : List Text) → Keeps (purge s keys)
  unfolding purge
  purge-Same [] w = Same-here w _
  purge-Same (key ∷ keys) w =
      Same-continue w _ _ (Same-attempted w _ (remove_object-Same key w)) λ u w1. purge-Same keys w1

abbrev pub is_kept_sub : ℕ → Subscription → Bool
is_kept_sub sub x = x.id == sub && is_kept x.status

abbrev pub is_live_key : List Config → ℕ → Key → Bool
is_live_key configs sub k = k.live && belongs_to configs sub k

none-kept :
    (sub : ℕ) (rows : List Subscription)
    → any (is_kept_sub sub) (update_where (is_sub sub) as_deleted rows) ≡ false
none-kept sub [] = refl
none-kept sub (r ∷ rows) = ground (arith, none-kept sub rows)

none-live :
    (configs : List Config) (sub : ℕ) (keys : List Key)
    → any (is_live_key configs sub) (update_where (belongs_to configs sub) revoked keys) ≡ false
none-live configs sub [] = refl
none-live configs sub (k ∷ keys) = elim (Bool-cases (belongs_to configs sub k)) [
  | inl its ↦ rw its (ground (arith, none-live configs sub keys))
  | inr other ↦ rw other (ground (arith, none-live configs sub keys))
]

find-any :
    (p : Subscription → Bool) (rows : List Subscription) {x : Subscription}
    → find p rows ≡ some x
    → any p rows ≡ true
find-any p [] {x} h = ground arith
find-any p (r ∷ rows) {x} h = ground (arith, find-any p rows {x = x})

not-owned :
    (user sub : ℕ) (rows : List Subscription)
    → any (is_kept_sub sub) rows ≡ false
    → any (owned user sub) rows ≡ false
not-owned user sub [] h = refl
not-owned user sub (r ∷ rows) h = ground (arith, not-owned user sub rows)

others-select :
    (sub : ℕ) (rows : List Subscription)
    → select (λ x. not (is_sub sub x)) (update_where (is_sub sub) as_deleted rows)
      ≡ select (λ x. not (is_sub sub x)) rows
others-select sub [] = refl
others-select sub (r ∷ rows) = ground (arith, others-select sub rows)

-- What follows the transaction.
pub cleanup-Same :
    (s : Service) (del : Deletion) (w : World)
    → Same w (
        continue
          (attempt (deprovision s del.server del.protocol del.public_key del.client_uuid) w)
          (λ _. purge s del.object_keys))
cleanup-Same s del w =
    Same-continue w _ _ (Same-attempted w _ (deprovision-Same s del.server del.protocol _ _ w))
      λ u w1. purge-Same s del.object_keys w1

-- A deletion that succeeds was asked for by the owner of a subscription that was not yet deleted;
-- afterwards it is deleted, none of its keys is active, and the other subscriptions are as they
-- were.
pub delete-ok :
    (s : Service) (user sub : ℕ) (w : World) {u : Unit {0}} {v : World}
    → delete s user sub w ≡ (ok u, v)
    → (any (owned user sub) w.db.subscriptions ≡ true)
      × (any (is_kept_sub sub) v.db.subscriptions ≡ false)
      × (any (is_live_key v.db.configs sub) v.db.keys ≡ false)
      × (select (λ x. not (is_sub sub x)) v.db.subscriptions
          ≡ select (λ x. not (is_sub sub x)) w.db.subscriptions)
unfolding delete
delete-ok s user sub w {u} {v} e =
    let (del, w1, did, rest) = continue-ok (soft_delete s.arrange user sub w) _ e in
    let (x, found, db1, _, _) = (soft_delete-Ends s.arrange user sub w).ends did in
    let left : v.db ≡ removed sub x.server_id w.db =
      Same-ok w1 _ (cleanup-Same s del w1) rest ∙ db1 in
    (
      find-any _ w.db.subscriptions found,
      rw left (none-kept sub w.db.subscriptions),
      rw left (none-live w.db.configs sub w.db.keys),
      rw left (others-select sub w.db.subscriptions),
    )

fetch-none :
    (s : Service) (user sub : ℕ) (w : World) {text : Text} {v : World}
    → any (is_kept_sub sub) w.db.subscriptions ≡ false
    → fetch_config s user sub w ≢ (ok text, v)
unfolding fetch_config get_artifact_for_user
fetch-none s user sub w {text} {v} gone e =
    let (art, w1, did, rest) = continue-ok _ _ e in
    let (found, _) = query-ok _ w did in
    let others = not-owned user sub w.db.subscriptions gone in ground arith

-- After a deletion that succeeds no user can fetch the configuration, for as long as the tables
-- stay as they are.
pub delete-fetch_config :
    (s : Service) (user reader sub : ℕ) (w later : World) {u : Unit {0}} {v : World} {text : Text}
    {after : World}
    → delete s user sub w ≡ (ok u, v)
    → later.db ≡ v.db
    → fetch_config s reader sub later ≢ (ok text, after)
delete-fetch_config s user reader sub w later {u} {v} {text} {after} e same =
    let (_, gone, _, _) = delete-ok s user sub w e in fetch-none s reader sub later (rw same gone)

-- What never ends in an error.
abbrev Succeeds : {A : Type 0} → Result A × World → Type 0
Succeeds (ok a, v) = Unit
Succeeds (err e, v) = ⊥

Succeeds-attempted :
    {A B : Type 0} (r : Result A × World) (f : Option A → M B)
    → ((a : Option A) (v : World) → Succeeds (f a v))
    → Succeeds (continue (attempted r) f)
unfolding continue attempted
Succeeds-attempted (ok a, v) f h = h (some a) v
Succeeds-attempted (err e, v) f h = h none v

purge-Succeeds : (s : Service) (keys : List Text) (w : World) → Succeeds (purge s keys w)
unfolding purge
purge-Succeeds s [] w = tt
purge-Succeeds s (key ∷ keys) w = Succeeds-attempted _ _ λ u w1. purge-Succeeds s keys w1

Succeeds-Undone : {A : Type 0} (w : World) (r : Result A × World) → Succeeds r → Undone w r
Succeeds-Undone w (ok a, v) h = tt
Succeeds-Undone w (err e, v) h = elim h [ ]

Undone-first :
    {A B : Type 0} (w : World) (r : Result A × World) (f : A → M B)
    → Undone w r
    → ((a : A) (v : World) → Succeeds (f a v))
    → Undone w (continue r f)
unfolding continue
Undone-first w (err e, v) f h k = h
Undone-first w (ok a, v) f h k = Succeeds-Undone w (f a v) (k a v)

delete-Undone : (s : Service) (user sub : ℕ) (w : World) → Undone w (delete s user sub w)
unfolding delete soft_delete
delete-Undone s user sub w =
    Undone-first w _ _ (transaction-Undone (soft_delete_body s.arrange user sub) w)
      λ del w1. Succeeds-attempted _ _ λ u w2. purge-Succeeds s del.object_keys w2

-- A deletion that ends in an error has left all tables as they were.
pub delete-err :
    (s : Service) (user sub : ℕ) (w : World) {e : VpnError} {v : World}
    → delete s user sub w ≡ (err e, v)
    → v.db ≡ w.db
delete-err s user sub w {e} {v} h =
    Undone-err w (delete s user sub w) (delete-Undone s user sub w) h
