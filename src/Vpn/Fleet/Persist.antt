-- ===== src/Vpn/Fleet/Persist.antt =====
-- internal/vpn/repository.go: `Persist` and its statements.
use vpn_price_public.Base.{
  ℕ, suc, ◌-◌, Bool, true, false, Option, none, some, List, ◌∷◌, ◌==◌, if◌then◌else◌, any,
  update_where, Text, text_eq,
}
use vpn_price_public.Vpn.Fleet.Model.{
  Protocol, Server, ServerRow, Subscription, SubStatus, Config, Key, conflict, ok, err,
}
use vpn_price_public.Vpn.Fleet.Store.{Tables, M, ◌>>=◌, ◌>>◌, pure, statement, transaction}
use vpn_price_public.Vpn.Fleet.Queries.{used_ips}

pub record CreateParams : Type 0 where
  pub user_id : ℕ
  pub server : Server
  pub country_id : ℕ
  pub plan_id : Option ℕ
  pub protocol : Protocol
  pub label : Option Text
  pub max_devices : ℕ
  pub expires_at : ℕ
  pub uri : Text
  pub config_object_key : Text
  pub qr_object_key : Text
  pub hash : Text
  pub private_key_enc : Option Text
  pub public_key : Option Text
  pub psk_enc : Option Text
  pub client_uuid : Option Text
  pub assigned_ip : Option Text

-- The row that the INSERT makes, with the defaults of its columns.
abbrev pub new_subscription : ℕ → ℕ → CreateParams → Subscription
new_subscription id now p = record {
  id = id;
  user_id = p.user_id;
  plan_id = p.plan_id;
  server_id = p.server.id;
  country_id = p.country_id;
  protocol = p.protocol;
  status = SubStatus.active;
  label = p.label;
  max_devices = p.max_devices;
  expires_at = p.expires_at;
  created_at = now;
}

abbrev pub adding_subscription : ℕ → CreateParams → Tables → Tables
adding_subscription now p db = record db {
  subscriptions = new_subscription db.next_id now p ∷ db.subscriptions;
  next_id = suc db.next_id;
}

unfoldable pub insert_subscription : ℕ → CreateParams → M Subscription
insert_subscription now p =
    statement λ db. (ok (new_subscription db.next_id now p), adding_subscription now p db)

abbrev pub new_config : ℕ → ℕ → ℕ → ℕ → CreateParams → Config
new_config id sub version now p = record {
  id = id;
  subscription_id = sub;
  protocol = p.protocol;
  uri = p.uri;
  config_object_key = p.config_object_key;
  qr_object_key = p.qr_object_key;
  hash = p.hash;
  version = version;
  created_at = now;
}

abbrev pub adding_config : Config → Tables → Tables
adding_config row db = record db { configs = row ∷ db.configs }

-- `id` is the primary key.
unfoldable pub insert_config : ℕ → ℕ → ℕ → ℕ → CreateParams → M Config
insert_config id sub version now p = statement λ db.
    let row = new_config id sub version now p in
    if any (λ c. c.id == id) db.configs then (err conflict, db) else (ok row, adding_config row db)

abbrev pub new_key : ℕ → CreateParams → Key
new_key config p = record {
  vpn_config_id = config;
  server_id = p.server.id;
  private_key = p.private_key_enc;
  public_key = p.public_key;
  psk = p.psk_enc;
  client_uuid = p.client_uuid;
  assigned_ip = p.assigned_ip;
  live = true;
}

-- The unique index on the server and the address of the active keys.
abbrev pub is_assigned : ℕ → Option Text → List Key → Bool
is_assigned server none keys = false
is_assigned server (some ip) keys = any (text_eq ip) (used_ips server keys)

abbrev pub adding_key : Key → Tables → Tables
adding_key row db = record db { keys = row ∷ db.keys }

unfoldable pub insert_key : ℕ → CreateParams → M (Unit {0})
insert_key config p = statement λ db.
    if is_assigned p.server.id p.assigned_ip db.keys
    then (err conflict, db)
    else (ok tt, adding_key (new_key config p) db)

abbrev pub is_server : ℕ → ServerRow → Bool
is_server id r = r.server.id == id

abbrev pub one_more : ServerRow → ServerRow
one_more r = record r { client_count = suc r.client_count }

-- `GREATEST(client_count - 1, 0)`
abbrev pub one_less : ServerRow → ServerRow
one_less r = record r { client_count = r.client_count - 1 }

abbrev pub loading : (ServerRow → ServerRow) → ℕ → Tables → Tables
loading f server db = record db { servers = update_where (is_server server) f db.servers }

unfoldable pub increment_load : ℕ → M (Unit {0})
increment_load server = statement λ db. (ok tt, loading one_more server db)

unfoldable pub decrement_load : ℕ → M (Unit {0})
decrement_load server = statement λ db. (ok tt, loading one_less server db)

unfoldable pub persist_body : ℕ → CreateParams → ℕ → M (Subscription × Config)
unfolding insert_subscription insert_config insert_key increment_load
persist_body now p config_id = do
  sub ← insert_subscription now p
  cfg ← insert_config config_id sub.id 1 now p
  insert_key cfg.id p
  increment_load p.server.id
  pure (sub, cfg)

unfoldable pub persist : ℕ → CreateParams → ℕ → M (Subscription × Config)
unfolding transaction
persist now p config_id = transaction (persist_body now p config_id)
