-- ===== src/Vpn/Fleet/Samples.antt =====
-- Servers, tables and primitives for concrete runs of the VPN service.
use vpn_price_public.Base.{ℕ, zero, suc, Bool, true, false, none, some, List, [], ◌∷◌, codes}
use vpn_price_public.Vpn.Crypto.{Primitives}
use vpn_price_public.Vpn.Fleet.Model.{
  Protocol, ServerStatus, Server, ServerRow, SubStatus, Subscription, Config, Key,
}
use vpn_price_public.Vpn.Fleet.Store.{Tables, World}
use vpn_price_public.Vpn.Fleet.Provisioner.{Provisioner}
use vpn_price_public.Vpn.Fleet.Issue.{Service}

-- Base64 that changes nothing, a cipher that appends nothing, random bytes that are all the same.
abbrev pub bytes : ℕ → ℕ → List ℕ
bytes n zero = []
bytes n (suc k) = n ∷ bytes n k

abbrev pub test_primitives : Primitives
test_primitives = record {
  random_bytes = bytes;
  random_uuid = λ n. n ∷ [];
  x25519_base = λ bs. some bs;
  base64 = λ bs. bs;
  unbase64 = λ t. some t;
  raw_base64_url = λ bs. bs;
  seal = λ nonce t. t;
  unseal = λ nonce t. some t;
  sha256hex = λ t. t;
  url_string = λ u. u.user;
  qr_png = λ t size. none;
}

abbrev pub test_service : Service
test_service = record {
  crypto = test_primitives;
  provisioner = Provisioner.agent;
  sort = λ rs. rs;
  ru_cidrs = [];
  arrange = λ rows. rows;
}

abbrev pub server_named : ℕ → Server
server_named id = record {
  id = id;
  country_id = 1;
  public_host = codes "host";
  agent_url = some (codes "http://agent");
  status = ServerStatus.active;
  wg_port = none;
  wg_public_key = none;
  wg_subnet = none;
  wg_dns = none;
  reality_port = some 443;
  reality_public_key = some (codes "pbk");
  reality_sni = some (codes "sni");
  reality_short_id = none;
  reality_dest = none;
  ss_port = none;
  ss_method = none;
  ss_server_key = none;
  trojan_port = none;
}

abbrev pub row : ℕ → Bool → ℕ → ServerRow
row id reserve clients = record {
  server = server_named id;
  reserve = reserve;
  priority = 100;
  client_count = clients;
}

abbrev test_sub : Subscription
test_sub = record {
  id = 4;
  user_id = 7;
  plan_id = none;
  server_id = 1;
  country_id = 1;
  protocol = Protocol.vless_reality;
  status = SubStatus.active;
  label = none;
  max_devices = 1;
  expires_at = 100;
  created_at = 5;
}

abbrev test_config : Config
test_config = record {
  id = 2;
  subscription_id = 4;
  protocol = Protocol.vless_reality;
  uri = codes "vless";
  config_object_key = codes "cfg/2";
  qr_object_key = [];
  hash = codes "hash";
  version = 1;
  created_at = 5;
}

abbrev test_key : Key
test_key = record {
  vpn_config_id = 2;
  server_id = 1;
  private_key = none;
  public_key = none;
  psk = none;
  client_uuid = some (codes "uuid");
  assigned_ip = none;
  live = true;
}

abbrev pub test_tables : Tables
test_tables = record {
  servers = row 1 false 1 ∷ row 2 true 0 ∷ [];
  plans = [];
  countries =
      record {
        id = 1;
        iso = codes "NL";
        name = codes "Netherlands";
        flag = none;
        enabled = true;
        priority = 1;
      }
      ∷ [];
  users = record { id = 7; telegram_id = none } ∷ [];
  subscriptions = test_sub ∷ [];
  configs = test_config ∷ [];
  keys = test_key ∷ [];
  migrations = [];
  next_id = 5;
}

abbrev pub world_with : List Bool → World
world_with faults = record {
  db = test_tables;
  objects = (codes "cfg/2", codes "stored") ∷ [];
  requests = [];
  faults = faults;
  now = 10;
  drawn = 3;
  cache = none;
}
