-- ===== src/Vpn/Fleet/Updates.antt =====
-- internal/vpn/repository.go: `Reassign` and `SoftDelete`.
use vpn_price_public.Base.{
  ℕ, suc, Bool, false, ◌&&◌, Option, none, some, List, [], ◌∷◌, ◌++◌, ◌==◌, ltb, if◌then◌else◌,
  find, update_where, Text,
}
use vpn_price_public.Vpn.Fleet.Model.{
  Protocol, Server, Subscription, SubStatus, Config, Key, Migration, not_found, ok,
}
use vpn_price_public.Vpn.Fleet.Store.{Tables, M, ◌>>=◌, ◌>>◌, pure, statement, transaction}
use vpn_price_public.Vpn.Fleet.Queries.{belongs_to}
use vpn_price_public.Vpn.Fleet.Selection.{found_or, server_of, is_kept}
use vpn_price_public.Vpn.Fleet.Persist.{
  CreateParams, insert_config, insert_key, is_server, increment_load, decrement_load,
}

abbrev pub revoked : Key → Key
revoked k = record k { live = false }

abbrev pub revoking : ℕ → Tables → Tables
revoking sub db = record db { keys = update_where (belongs_to db.configs sub) revoked db.keys }

unfoldable pub revoke_keys : ℕ → M (Unit {0})
revoke_keys sub = statement λ db. (ok tt, revoking sub db)

-- `COALESCE(max(version),0)`
abbrev pub max_version : ℕ → List Config → ℕ
max_version sub [] = 0
max_version sub (c ∷ cs) =
    let rest = max_version sub cs in
    if c.subscription_id == sub && ltb rest c.version then c.version else rest

unfoldable pub next_version : ℕ → M ℕ
next_version sub = statement λ db. (ok (suc (max_version sub db.configs)), db)

abbrev pub is_sub : ℕ → Subscription → Bool
is_sub id s = s.id == id

abbrev pub moved_to : ℕ → Subscription → Subscription
moved_to server s = record s { server_id = server; status = SubStatus.active }

abbrev pub changing_sub : (Subscription → Subscription) → ℕ → Tables → Tables
changing_sub f sub db = record db { subscriptions = update_where (is_sub sub) f db.subscriptions }

unfoldable pub move_subscription : ℕ → ℕ → M (Unit {0})
move_subscription sub server = statement λ db. (ok tt, changing_sub (moved_to server) sub db)

abbrev pub adding_migration : Migration → Tables → Tables
adding_migration row db = record db { migrations = row ∷ db.migrations }

unfoldable pub insert_migration : ℕ → ℕ → ℕ → ℕ → Text → M (Unit {0})
insert_migration sub user from_server to_server reason = statement λ db. (
  ok tt,
  adding_migration
      (record {
        subscription_id = sub;
        user_id = user;
        from_server = from_server;
        to_server = to_server;
        reason = reason;
      })
      db,
)

unfoldable pub reassign_body : ℕ → CreateParams → ℕ → ℕ → ℕ → Text → M (Unit {0})
unfolding revoke_keys next_version insert_config insert_key move_subscription increment_load
    decrement_load insert_migration
reassign_body now p config_id sub old_server reason = do
  revoke_keys sub
  version ← next_version sub
  insert_config config_id sub version now p
  insert_key config_id p
  move_subscription sub p.server.id
  increment_load p.server.id
  decrement_load old_server
  insert_migration sub p.user_id old_server p.server.id reason

unfoldable pub reassign : ℕ → CreateParams → ℕ → ℕ → ℕ → Text → M (Unit {0})
unfolding transaction
reassign now p config_id sub old_server reason =
    transaction (reassign_body now p config_id sub old_server reason)

pub record Deletion : Type 0 where
  pub server : Server
  pub protocol : Protocol
  pub public_key : Option Text
  pub client_uuid : Option Text
  pub object_keys : List Text

abbrev pub owned : ℕ → ℕ → Subscription → Bool
owned user sub s = s.id == sub && (s.user_id == user && is_kept s.status)

-- `SELECT server_id, protocol … FOR UPDATE`
unfoldable pub lock_subscription : ℕ → ℕ → M Subscription
lock_subscription user sub =
    statement λ db. (found_or not_found (find (owned user sub) db.subscriptions), db)

-- The rows of a subscription's configurations joined with their keys.
abbrev pub with_keys : Config → List Key → List (Key × Config)
with_keys c [] = []
with_keys c (k ∷ ks) = if k.vpn_config_id == c.id then (k, c) ∷ with_keys c ks else with_keys c ks

abbrev pub joined_keys : ℕ → List Key → List Config → List (Key × Config)
joined_keys sub keys [] = []
joined_keys sub keys (c ∷ cs) =
    if c.subscription_id == sub
    then with_keys c keys ++ joined_keys sub keys cs
    else joined_keys sub keys cs

-- The loop over the joined rows: the keys as long as no public key is held, and all object keys.
abbrev pub gather : Option Text × Option Text → List (Key × Config) → Option Text × Option Text
gather held [] = held
gather (none, uuid) ((k, c) ∷ rest) = gather (k.public_key, k.client_uuid) rest
gather (some pub_key, uuid) ((k, c) ∷ rest) = gather (some pub_key, uuid) rest

abbrev pub object_keys_of : List (Key × Config) → List Text
object_keys_of [] = []
object_keys_of ((k, c) ∷ rest) = c.config_object_key ∷ c.qr_object_key ∷ object_keys_of rest

-- The query names no order; `arrange` is the one in which the rows come.
unfoldable pub load_keys : (List (Key × Config) → List (Key × Config)) → ℕ → M (List (Key × Config))
load_keys arrange sub = statement λ db. (ok (arrange (joined_keys sub db.keys db.configs)), db)

abbrev pub as_deleted : Subscription → Subscription
as_deleted s = record s { status = SubStatus.deleted }

unfoldable pub mark_deleted : ℕ → M (Unit {0})
mark_deleted sub = statement λ db. (ok tt, changing_sub as_deleted sub db)

unfoldable pub load_server : ℕ → M Server
load_server id =
    statement λ db. (found_or not_found (server_of (find (is_server id) db.servers)), db)

unfoldable pub soft_delete_body : (List (Key × Config) → List (Key × Config)) → ℕ → ℕ → M Deletion
unfolding lock_subscription load_keys revoke_keys mark_deleted decrement_load load_server
soft_delete_body arrange user sub = do
  s ← lock_subscription user sub
  rows ← load_keys arrange sub
  revoke_keys sub
  mark_deleted sub
  decrement_load s.server_id
  srv ← load_server s.server_id
  pure (record {
    server = srv;
    protocol = s.protocol;
    public_key = (gather (none, none) rows).0;
    client_uuid = (gather (none, none) rows).1;
    object_keys = object_keys_of rows;
  })

unfoldable pub soft_delete : (List (Key × Config) → List (Key × Config)) → ℕ → ℕ → M Deletion
unfolding transaction
soft_delete arrange user sub = transaction (soft_delete_body arrange user sub)
