-- ===== src/Vpn/Fleet/Uris.antt =====
-- internal/vpn/reality.go, shadowsocks.go and trojan.go: the import URIs.
use vpn_price_public.Base.{ℕ, [], ◌∷◌, ◌++◌, Text, codes, decimal}
use vpn_price_public.Vpn.Crypto.{Primitives}

pub record RealityParams : Type 0 where
  pub uuid : Text
  pub host : Text
  pub port : ℕ
  pub sni : Text
  pub public_key : Text
  pub short_id : Text
  pub label : Text

pub record SsParams : Type 0 where
  pub method : Text
  pub server_key : Text
  pub user_key : Text
  pub host : Text
  pub port : ℕ
  pub label : Text

pub record TrojanParams : Type 0 where
  pub password : Text
  pub host : Text
  pub port : ℕ
  pub sni : Text
  pub public_key : Text
  pub short_id : Text
  pub label : Text

-- `fmt.Sprintf("%s:%d", host, port)`
abbrev pub host_port : Text → ℕ → Text
host_port host port = host ++ (codes ":" ++ decimal port)

module _ (x : Primitives) where
  unfoldable pub render_reality_uri : RealityParams → Text
  render_reality_uri p = x.url_string (record {
    scheme = codes "vless";
    user = p.uuid;
    host = host_port p.host p.port;
    query =
        (codes "type", codes "tcp")
        ∷ (codes "security", codes "reality")
        ∷ (codes "encryption", codes "none")
        ∷ (codes "flow", codes "xtls-rprx-vision")
        ∷ (codes "sni", p.sni)
        ∷ (codes "fp", codes "chrome")
        ∷ (codes "pbk", p.public_key)
        ∷ (codes "sid", p.short_id)
        ∷ [];
    fragment = p.label;
  })

  unfoldable pub render_shadowsocks_uri : SsParams → Text
  render_shadowsocks_uri p = x.url_string (record {
    scheme = codes "ss";
    user =
        x.raw_base64_url (p.method ++ (codes ":" ++ (p.server_key ++ (codes ":" ++ p.user_key))));
    host = host_port p.host p.port;
    query = [];
    fragment = p.label;
  })

  unfoldable pub render_trojan_uri : TrojanParams → Text
  render_trojan_uri p = x.url_string (record {
    scheme = codes "trojan";
    user = p.password;
    host = host_port p.host p.port;
    query =
        (codes "type", codes "tcp")
        ∷ (codes "security", codes "reality")
        ∷ (codes "flow", codes "xtls-rprx-vision")
        ∷ (codes "sni", p.sni)
        ∷ (codes "fp", codes "chrome")
        ∷ (codes "pbk", p.public_key)
        ∷ (codes "sid", p.short_id)
        ∷ [];
    fragment = p.label;
  })
