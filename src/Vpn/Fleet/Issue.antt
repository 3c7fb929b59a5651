-- ===== src/Vpn/Fleet/Issue.antt =====
-- internal/vpn/service.go: making a configuration, sending it to the node, and storing it.
use vpn_price_public.Base.{
  ℕ, Option, none, some, List, [], ◌∷◌, ◌++◌, if◌then◌else◌, Text, codes, is_empty, text_eq,
}
use vpn_price_public.Vpn.Crypto.{
  Primitives, generate_wireguard_keypair, generate_preshared_key, generate_shadowsocks_key, encrypt,
}
use vpn_price_public.Vpn.Routing.{IpRange}
use vpn_price_public.Vpn.Routing.AllowedIps.{SplitCache, allowed_ips_for}
use vpn_price_public.Vpn.Wireguard.{
  Allocation, AllocationError, allocate_wireguard_ip, render_wireguard_config,
}
use vpn_price_public.Vpn.Fleet.Model.{
  Protocol, Server, Key, Config, Generated, VpnError, unsupported_protocol, server_not_configured,
  panics, refused, Result, ok, err,
}
use vpn_price_public.Vpn.Fleet.Store.{
  World, M, ◌>>=◌, ◌>>◌, pure, raise, lift, or_raise, draw, access,
}
use vpn_price_public.Vpn.Fleet.Queries.{list_used_ips}
use vpn_price_public.Vpn.Fleet.Persist.{CreateParams}
use vpn_price_public.Vpn.Fleet.Uris.{
  render_reality_uri, render_shadowsocks_uri, render_trojan_uri, host_port,
}
use vpn_price_public.Vpn.Fleet.Provisioner.{
  Provisioner, add_wireguard_peer, add_vless_client, add_shadowsocks_client, add_trojan_client,
}

-- What the service calls: the primitives, the provisioner, the sort and the list of networks of the
-- routing, and the order in which the database returns rows that a query does not order.
pub record Service : Type 0 where
  pub crypto : Primitives
  pub provisioner : Provisioner
  pub sort : List IpRange → List IpRange
  pub ru_cidrs : Text
  pub arrange : List (Key × Config) → List (Key × Config)

abbrev pub both : {A B : Type 0} → Option A → Option B → Option (A × B)
both (some a) (some b) = some (a, b)
both _ _ = none

abbrev pub value_or : Text → Option Text → Text
value_or fallback none = fallback
value_or fallback (some t) = t

-- `derefStr`
abbrev pub deref : Option Text → Text
deref t = value_or [] t

abbrev pub allocated : Allocation → Result Text
allocated (Allocation.ok ip) = ok ip
allocated (Allocation.err AllocationError.bad_subnet) = err VpnError.bad_subnet
allocated (Allocation.err AllocationError.subnet_exhausted) = err VpnError.subnet_exhausted

-- `strings.TrimSuffix(ip, "/32")`
abbrev pub trim_mask : Text → Text
trim_mask [] = []
trim_mask (c ∷ s) = if text_eq (c ∷ s) (codes "/32") then [] else c ∷ trim_mask s

-- Bytes of the random source, which may fail.
abbrev pub random : M ℕ
random = access draw

unfoldable pub cached : World → Option (Text × SplitCache) → Result Text × World
cached w none = (err panics, w)
cached w (some (allowed, cache)) = (ok allowed, record w { cache = cache })

abbrev pub shared_link : Text → Text → Text → Option Text → Generated
shared_link uri hash client_uuid ss_user_key = record {
  uri = uri;
  config_text = uri;
  hash = hash;
  private_key = none;
  public_key = none;
  psk = none;
  client_uuid = some client_uuid;
  assigned_ip = none;
  ss_user_key = ss_user_key;
}

module _ (s : Service) where
  unfoldable pub generate_trojan : Server → Text → M Generated
  generate_trojan srv label = do
    set ←
        or_raise (both srv.trojan_port (both srv.reality_public_key srv.reality_sni))
          server_not_configured
    n ← draw
    m ← draw
    let password : Text = s.crypto.random_uuid n
    let email : Text = s.crypto.random_uuid m
    let uri : Text = render_trojan_uri s.crypto (record {
      password = password;
      host = srv.public_host;
      port = set.0;
      sni = set.1.1;
      public_key = set.1.0;
      short_id = deref srv.reality_short_id;
      label = label;
    })
    pure (shared_link uri (s.crypto.sha256hex uri) email (some password))

  unfoldable pub generate_shadowsocks : Server → Text → M Generated
  generate_shadowsocks srv label = do
    set ← or_raise (both srv.ss_port (both srv.ss_method srv.ss_server_key)) server_not_configured
    n ← random
    m ← draw
    let user_key : Text = generate_shadowsocks_key s.crypto n
    let email : Text = s.crypto.random_uuid m
    let uri : Text = render_shadowsocks_uri s.crypto (record {
      method = set.1.0;
      server_key = set.1.1;
      user_key = user_key;
      host = srv.public_host;
      port = set.0;
      label = label;
    })
    pure (shared_link uri (s.crypto.sha256hex uri) email (some user_key))

  unfoldable pub generate_reality : Server → Text → M Generated
  generate_reality srv label = do
    set ←
        or_raise (both srv.reality_port (both srv.reality_public_key srv.reality_sni))
          server_not_configured
    n ← draw
    let client_uuid : Text = s.crypto.random_uuid n
    let uri : Text = render_reality_uri s.crypto (record {
      uuid = client_uuid;
      host = srv.public_host;
      port = set.0;
      sni = set.1.1;
      public_key = set.1.0;
      short_id = deref srv.reality_short_id;
      label = label;
    })
    pure (shared_link uri (s.crypto.sha256hex uri) client_uuid none)

  abbrev pub wireguard_text : Server → Text → ℕ → Text × Text → Text → Text → Text → Text
  wireguard_text srv server_key port pair psk ip allowed = render_wireguard_config (record {
    client_private_key = pair.0;
    client_address = ip;
    dns = value_or (codes "1.1.1.1") srv.wg_dns;
    server_public_key = server_key;
    preshared_key = psk;
    endpoint = host_port srv.public_host port;
    allowed_ips = allowed;
  })

  unfoldable pub routed : Text → M Text
  routed mode w = cached w (allowed_ips_for s.sort s.ru_cidrs mode w.cache)

  unfoldable pub generate_wireguard : Server → Text → M Generated
  unfolding list_used_ips routed
  generate_wireguard srv routing = do
    set ← or_raise (both srv.wg_port (both srv.wg_public_key srv.wg_subnet)) server_not_configured
    n ← random
    pair ← or_raise (generate_wireguard_keypair s.crypto n) refused
    m ← random
    let psk : Text = generate_preshared_key s.crypto m
    used ← list_used_ips srv.id
    ip ← lift (allocated (allocate_wireguard_ip set.1.1 used))
    allowed ← routed routing
    let conf : Text = wireguard_text srv set.1.0 set.0 pair psk ip allowed
    pure (record {
      uri = [];
      config_text = conf;
      hash = s.crypto.sha256hex conf;
      private_key = some pair.0;
      public_key = some pair.1;
      psk = some psk;
      client_uuid = none;
      assigned_ip = some (trim_mask ip);
      ss_user_key = none;
    })

  unfoldable pub generate : Server → Protocol → Text → Text → M Generated
  unfolding generate_wireguard generate_reality generate_shadowsocks generate_trojan
  generate srv Protocol.wireguard label routing = generate_wireguard srv routing
  generate srv Protocol.vless_reality label routing = generate_reality srv label
  generate srv Protocol.shadowsocks label routing = generate_shadowsocks srv label
  generate srv Protocol.trojan label routing = generate_trojan srv label
  generate srv (Protocol.other p) label routing = raise unsupported_protocol

  abbrev pub allowed_ip : Option Text → Text
  allowed_ip none = []
  allowed_ip (some ip) = ip ++ codes "/32"

  unfoldable pub provision : Server → Protocol → Generated → M (Unit {0})
  unfolding add_wireguard_peer add_vless_client add_shadowsocks_client add_trojan_client
  provision srv Protocol.wireguard g =
      add_wireguard_peer s.provisioner srv (deref g.public_key) (deref g.psk)
        (allowed_ip g.assigned_ip)
  provision srv Protocol.vless_reality g = add_vless_client s.provisioner srv (deref g.client_uuid)
  provision srv Protocol.shadowsocks g =
      add_shadowsocks_client s.provisioner srv (deref g.ss_user_key) (deref g.client_uuid)
  provision srv Protocol.trojan g =
      add_trojan_client s.provisioner srv (deref g.ss_user_key) (deref g.client_uuid)
  provision srv (Protocol.other p) g = raise unsupported_protocol

  -- `Encrypt`, whose nonce comes from the random source.
  unfoldable pub encrypted : Text → M Text
  encrypted plaintext = do n ← random; pure (encrypt s.crypto n plaintext)

  abbrev pub put : Text → Text → M (Unit {0})
  put key bytes = access λ w. (ok tt, record w { objects = (key, bytes) ∷ w.objects })

  abbrev pub config_key : ℕ → Text
  config_key id = codes "cfg/" ++ s.crypto.random_uuid id

  abbrev pub qr_key : ℕ → Text
  qr_key id = codes "qr/" ++ (s.crypto.random_uuid id ++ codes ".png")

  -- The image is stored unless it cannot be drawn; its key is then empty.
  unfoldable pub store_qr : Text → Option Text → M Text
  store_qr key none = pure []
  store_qr key (some png) = do put key png; pure key

  abbrev pub qr_content : Generated → Text
  qr_content g = if is_empty g.uri then g.config_text else g.uri

  unfoldable pub store_config : ℕ → Generated → M (Text × Text)
  unfolding encrypted
  store_config config_id g = do
    enc ← encrypted g.config_text
    put (config_key config_id) enc
    qr ← store_qr (qr_key config_id) (s.crypto.qr_png (qr_content g) 512)
    pure (config_key config_id, qr)

  unfoldable pub encrypted_or_none : Option Text → M (Option Text)
  unfolding encrypted
  encrypted_or_none none = pure none
  encrypted_or_none (some t) = do v ← encrypted t; pure (some v)

  unfoldable pub with_user_key : Option Text → CreateParams → M CreateParams
  unfolding encrypted
  with_user_key none p = pure p
  with_user_key (some t) p = do v ← encrypted t; pure (record p { private_key_enc = some v })

  unfoldable pub apply_encrypted_keys : Generated → CreateParams → M CreateParams
  unfolding encrypted
  apply_encrypted_keys g p = do
    priv ← encrypted_or_none g.private_key
    psk ← encrypted_or_none g.psk
    with_user_key g.ss_user_key (record p { private_key_enc = priv; psk_enc = psk })
