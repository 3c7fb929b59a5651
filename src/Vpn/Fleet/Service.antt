-- ===== src/Vpn/Fleet/Service.antt =====
-- internal/vpn/service.go: creating, fetching and deleting VPNs.
use vpn_price_public.Base.{
  ℕ, ◌+◌, ◌*◌, Bool, true, false, not, Option, none, some, List, [], ◌∷◌, if◌then◌else◌, Text,
  codes, is_empty, text_eq,
}
use vpn_price_public.Vpn.Crypto.{decrypt}
use vpn_price_public.Vpn.Fleet.Model.{
  Protocol, Server, Subscription, Config, Generated, VpnView, unsupported_protocol, not_found,
  undecipherable, refused, ok,
}
use vpn_price_public.Vpn.Fleet.Store.{
  M, ◌>>=◌, ◌>>◌, pure, guard, or_raise, attempt, clock, draw, access,
}
use vpn_price_public.Vpn.Fleet.Queries.{get_plan, get_artifact_for_user}
use vpn_price_public.Vpn.Fleet.Selection.{found_or, select_server}
use vpn_price_public.Vpn.Fleet.Updates.{soft_delete}
use vpn_price_public.Vpn.Fleet.Persist.{CreateParams, persist}
use vpn_price_public.Vpn.Fleet.Provisioner.{
  remove_wireguard_peer, remove_vless_client, remove_shadowsocks_client, remove_trojan_client,
}
use vpn_price_public.Vpn.Fleet.Issue.{
  Service, generate, provision, store_config, apply_encrypted_keys,
}

pub record CreateRequest : Type 0 where
  pub user_id : ℕ
  pub country_id : ℕ
  pub protocol : Protocol
  pub plan_id : Option ℕ
  pub label : Option Text
  pub routing : Text

-- `Protocol.Valid`
abbrev pub is_valid : Protocol → Bool
is_valid (Protocol.other p) = false
is_valid _ = true

-- The days and the devices of the plan, or 30 and 1.
unfoldable pub terms : Option ℕ → M (ℕ × ℕ)
unfolding get_plan
terms none = pure (30, 1)
terms (some id) = do plan ← get_plan id; pure (plan.days, plan.max_devices)

abbrev pub label_or : Option Text → Text
label_or none = codes "VPN"
label_or (some t) = if is_empty t then codes "VPN" else t

abbrev pub create_params :
    CreateRequest → Server → ℕ × ℕ → ℕ → Generated → Text × Text → CreateParams
create_params r srv days_devices now g keys = record {
  user_id = r.user_id;
  server = srv;
  country_id = r.country_id;
  plan_id = r.plan_id;
  protocol = r.protocol;
  label = r.label;
  max_devices = days_devices.1;
  expires_at = now + days_devices.0 * (24 * 3600);
  uri = g.uri;
  config_object_key = keys.0;
  qr_object_key = keys.1;
  hash = g.hash;
  private_key_enc = none;
  public_key = g.public_key;
  psk_enc = none;
  client_uuid = g.client_uuid;
  assigned_ip = g.assigned_ip;
}

-- The objects under a key.
abbrev pub object_at : Text → List (Text × Text) → Option Text
object_at key [] = none
object_at key ((k, bytes) ∷ rest) = if text_eq k key then some bytes else object_at key rest

abbrev pub without : Text → List (Text × Text) → List (Text × Text)
without key [] = []
without key ((k, bytes) ∷ rest) =
    let kept = without key rest in if text_eq k key then kept else (k, bytes) ∷ kept

abbrev pub get_object : Text → M Text
get_object key = access λ w. (found_or refused (object_at key w.objects), w)

abbrev pub remove_object : Text → M (Unit {0})
remove_object key = access λ w. (ok tt, record w { objects = without key w.objects })

module _ (s : Service) where
  -- What is done before the database is written: the material is made, the node is told, and the
  -- configuration is stored.
  unfoldable pub prepare : CreateRequest → M (CreateParams × (ℕ × Text))
  unfolding terms select_server generate provision store_config apply_encrypted_keys
  prepare r = do
    guard (is_valid r.protocol) unsupported_protocol
    t ← terms r.plan_id
    srv ← select_server r.country_id r.protocol
    config_id ← draw
    g ← generate s srv r.protocol (label_or r.label) r.routing
    provision s srv r.protocol g
    keys ← store_config s config_id g
    now ← clock
    p ← apply_encrypted_keys s g (create_params r srv t now g keys)
    pure (p, (config_id, srv.public_host))

  abbrev pub created : CreateParams × (ℕ × Text) → Subscription × Config → VpnView
  created made row = record { subscription = row.0; config = row.1; country = []; host = made.1.1 }

  unfoldable pub create : CreateRequest → M VpnView
  unfolding prepare persist
  create r = do
    made ← prepare r
    now ← clock
    row ← persist now made.0 made.1.0
    pure (created made row)

  unfoldable pub fetch_config : ℕ → ℕ → M Text
  unfolding get_artifact_for_user
  fetch_config user sub = do
    art ← get_artifact_for_user user sub
    enc ← get_object art.config_object_key
    or_raise (decrypt s.crypto enc) undecipherable

  unfoldable pub fetch_qr : ℕ → ℕ → M Text
  unfolding get_artifact_for_user
  fetch_qr user sub = do
    art ← get_artifact_for_user user sub
    guard (not (is_empty art.qr_object_key)) not_found
    get_object art.qr_object_key

  abbrev pub if_some : Option Text → (Text → M (Unit {0})) → M (Unit {0})
  if_some none f = pure tt
  if_some (some t) f = f t

  -- The removal of a client from its node, by the key or the identifier at hand.
  unfoldable pub deprovision : Server → Protocol → Option Text → Option Text → M (Unit {0})
  unfolding remove_wireguard_peer remove_vless_client remove_shadowsocks_client remove_trojan_client
  deprovision srv Protocol.wireguard key uuid =
      if_some key (remove_wireguard_peer s.provisioner srv)
  deprovision srv Protocol.vless_reality key uuid =
      if_some uuid (remove_vless_client s.provisioner srv)
  deprovision srv Protocol.shadowsocks key uuid =
      if_some uuid (remove_shadowsocks_client s.provisioner srv)
  deprovision srv Protocol.trojan key uuid = if_some uuid (remove_trojan_client s.provisioner srv)
  deprovision srv (Protocol.other p) key uuid = pure tt

  -- The loop over the objects, whose errors are logged.
  unfoldable pub purge : List Text → M (Unit {0})
  purge [] = pure tt
  purge (key ∷ keys) = attempt (remove_object key) >> purge keys

  unfoldable pub delete : ℕ → ℕ → M (Unit {0})
  unfolding soft_delete deprovision purge
  delete user sub = do
    del ← soft_delete s.arrange user sub
    attempt (deprovision del.server del.protocol del.public_key del.client_uuid)
    purge del.object_keys
