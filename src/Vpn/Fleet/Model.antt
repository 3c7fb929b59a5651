-- ===== src/Vpn/Fleet/Model.antt =====
-- internal/vpn/model.go and migrations/00003_vpn.sql: servers, subscriptions, configurations, keys.
-- Identifiers are numbers, times are seconds.
use vpn_price_public.Base.{ℕ, Bool, Option, Text}

-- The texts of `Protocol`: those with a constant, and any other.
pub data Protocol : Type 0 where
  wireguard vless_reality shadowsocks trojan : Protocol
  other : Text → Protocol

pub data ServerStatus : Type 0 where
  provisioning active drain offline archived : ServerStatus

pub record Server : Type 0 where
  pub id : ℕ
  pub country_id : ℕ
  pub public_host : Text
  pub agent_url : Option Text
  pub status : ServerStatus
  pub wg_port : Option ℕ
  pub wg_public_key : Option Text
  pub wg_subnet : Option Text
  pub wg_dns : Option Text
  pub reality_port : Option ℕ
  pub reality_public_key : Option Text
  pub reality_sni : Option Text
  pub reality_short_id : Option Text
  pub reality_dest : Option Text
  pub ss_port : Option ℕ
  pub ss_method : Option Text
  pub ss_server_key : Option Text
  pub trojan_port : Option ℕ

-- A row of `servers`: the columns that `scanServer` reads, and those that the queries sort by.
pub record ServerRow : Type 0 where
  pub server : Server
  pub reserve : Bool
  pub priority : ℕ
  pub client_count : ℕ

pub record PlanRow : Type 0 where
  pub id : ℕ
  pub name : Text
  pub price : ℕ
  pub currency : Text
  pub days : ℕ
  pub max_devices : ℕ
  pub active : Bool

pub record CountryRow : Type 0 where
  pub id : ℕ
  pub iso : Text
  pub name : Text
  pub flag : Option Text
  pub enabled : Bool
  pub priority : ℕ

pub data SubStatus : Type 0 where
  active paused blocked expired migrated deleted : SubStatus

pub record Subscription : Type 0 where
  pub id : ℕ
  pub user_id : ℕ
  pub plan_id : Option ℕ
  pub server_id : ℕ
  pub country_id : ℕ
  pub protocol : Protocol
  pub status : SubStatus
  pub label : Option Text
  pub max_devices : ℕ
  pub expires_at : ℕ
  pub created_at : ℕ

-- `id` is the random identifier's number.
pub record Config : Type 0 where
  pub id : ℕ
  pub subscription_id : ℕ
  pub protocol : Protocol
  pub uri : Text
  pub config_object_key : Text
  pub qr_object_key : Text
  pub hash : Text
  pub version : ℕ
  pub created_at : ℕ

-- `live` is `status = 'active'`.
pub record Key : Type 0 where
  pub vpn_config_id : ℕ
  pub server_id : ℕ
  pub private_key : Option Text
  pub public_key : Option Text
  pub psk : Option Text
  pub client_uuid : Option Text
  pub assigned_ip : Option Text
  pub live : Bool

pub record Migration : Type 0 where
  pub subscription_id : ℕ
  pub user_id : ℕ
  pub from_server : ℕ
  pub to_server : ℕ
  pub reason : Text

-- The columns of `users` that the queries join.
pub record UserRow : Type 0 where
  pub id : ℕ
  pub telegram_id : Option ℕ

pub record VpnView : Type 0 where
  pub subscription : Subscription
  pub config : Config
  pub country : Text
  pub host : Text

pub record Generated : Type 0 where
  pub uri : Text
  pub config_text : Text
  pub hash : Text
  pub private_key : Option Text
  pub public_key : Option Text
  pub psk : Option Text
  pub client_uuid : Option Text
  pub assigned_ip : Option Text
  pub ss_user_key : Option Text

pub data VpnError : Type 0 where
  unsupported_protocol server_not_configured no_server_available : VpnError
  subnet_exhausted not_found : VpnError
  bad_subnet : VpnError  -- the subnet is no CIDR, or one of IPv6
  no_agent_url : VpnError  -- the server has no agent
  conflict : VpnError  -- a primary key or a unique index refuses a row
  null_column : VpnError  -- a NULL is scanned into a field that is not a pointer
  undecipherable : VpnError  -- `Decrypt` fails
  panics : VpnError  -- the texts of the split networks cannot be computed
  refused : VpnError  -- the database, the object store, the network or the random source failed

pub data Result {ℓ} (A : Type ℓ) : Type ℓ where
  ok : A → Result A
  err : VpnError → Result A
