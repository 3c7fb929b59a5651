-- ===== src/Vpn/Fleet/Tests.antt =====
-- Concrete runs of the VPN service, on a small set of servers.
use vpn_price_public.Base.{
  ℕ, zero, suc, ◌≡◌, ◌≢◌, refl, true, false, not, none, some, [], ◌∷◌, ◌++◌, map, ap, arith, any,
  length, select, Text, codes,
}
use vpn_price_public.Vpn.Crypto.{encrypt, decrypt}
use vpn_price_public.Vpn.Crypto.Sealed.{IsCipher, decrypt-encrypt}
use vpn_price_public.Vpn.Fleet.Fetched.{create-fetch_config}
use vpn_price_public.Vpn.Fleet.Uris.{render_reality_uri}
use vpn_price_public.Vpn.Fleet.Model.{Protocol, SubStatus, Subscription, VpnError, VpnView, ok, err}
use vpn_price_public.Vpn.Fleet.Store.{
  World, continue, guard, draw, clock, or_raise, attempted, access, commit, transaction,
}
use vpn_price_public.Vpn.Fleet.Queries.{
  get_plan, active_subs_on_server, get_server_by_id, old_key_for_sub,
}
use vpn_price_public.Vpn.Fleet.Selection.{select_server, select_reserve_server}
use vpn_price_public.Vpn.Fleet.Updates.{
  owned, is_sub, soft_delete, soft_delete_body, lock_subscription, load_keys, revoke_keys,
  mark_deleted, load_server, reassign, reassign_body, next_version, move_subscription,
  insert_migration,
}
use vpn_price_public.Vpn.Fleet.Persist.{
  decrement_load, persist, persist_body, insert_subscription, insert_config, insert_key,
  increment_load,
}
use vpn_price_public.Vpn.Fleet.Provisioner.{send, post, remove_vless_client, add_vless_client}
use vpn_price_public.Vpn.Fleet.Issue.{
  generate, generate_reality, provision, store_config, encrypted, store_qr, apply_encrypted_keys,
  encrypted_or_none, with_user_key,
}
use vpn_price_public.Vpn.Fleet.Service.{
  CreateRequest, terms, prepare, create, deprovision, purge, delete, fetch_config,
}
use vpn_price_public.Vpn.Fleet.Migrations.{
  migrate_server, migrate_all, migrate_one, move_to, deprovision_old,
}
use vpn_price_public.Vpn.Fleet.Failure.{create-err}
use vpn_price_public.Vpn.Fleet.Removal.{is_kept_sub, is_live_key, delete-ok, delete-fetch_config}
use vpn_price_public.Vpn.Fleet.Ranking.{Picks, select_server_lem}
use vpn_price_public.Vpn.Fleet.Clients.{WellFormed}
use vpn_price_public.Vpn.Fleet.Relocated.{AllRelocated}
use vpn_price_public.Vpn.Fleet.Migrated.{migrate_server-AllRelocated}
use vpn_price_public.Vpn.Fleet.Reachable.{Step, Reachable, reachable-WellFormed}
use vpn_price_public.Vpn.Fleet.Samples.{
  bytes, test_primitives, test_service, server_named, row, test_tables, world_with,
}

-- A request for a plan that is not there.
abbrev lost_plan : CreateRequest
lost_plan = record {
  user_id = 7;
  country_id = 1;
  protocol = Protocol.vless_reality;
  plan_id = some 9;
  label = none;
  routing = codes "full";
}

no_plan : create test_service lost_plan (world_with []) ≡ (err VpnError.not_found, world_with [])
unfolding create prepare continue guard terms get_plan access
no_plan = refl

create-err_example : (world_with []).db ≡ (world_with []).db
create-err_example = create-err test_service lost_plan (world_with []) no_plan

abbrev after_delete : World
after_delete = (delete test_service 7 4 (world_with [])).1

deleted : delete test_service 7 4 (world_with []) ≡ (ok tt, after_delete)
unfolding delete soft_delete soft_delete_body lock_subscription load_keys revoke_keys mark_deleted
    decrement_load load_server transaction commit access continue attempted purge deprovision
    remove_vless_client send post
deleted = refl

delete-ok_example :
    (any (owned 7 4) test_tables.subscriptions ≡ true)
    × (any (is_kept_sub 4) after_delete.db.subscriptions ≡ false)
    × (any (is_live_key after_delete.db.configs 4) after_delete.db.keys ≡ false)
    × (select (λ x. not (is_sub 4 x)) after_delete.db.subscriptions
        ≡ select (λ x. not (is_sub 4 x)) test_tables.subscriptions)
delete-ok_example = delete-ok test_service 7 4 (world_with []) deleted

delete-fetch_config_example :
    fetch_config test_service 7 4 after_delete ≢ (ok (codes "stored"), after_delete)
delete-fetch_config_example =
    delete-fetch_config test_service 7 7 4 (world_with []) after_delete deleted refl

select_server_example :
    Picks 1 Protocol.vless_reality test_tables.servers
      (select_server 1 Protocol.vless_reality (world_with [])).0
select_server_example = select_server_lem 1 Protocol.vless_reality (world_with []) refl

-- Of two servers, the one with fifty clients is taken, since its priority number is lower.
abbrev busy : World
busy = record (world_with []) {
  db = record test_tables {
    servers = row 2 false 0 ∷ record (row 1 false 50) { priority = 1 } ∷ [];
  };
}

busy_chosen : (select_server 1 Protocol.vless_reality busy).0 ≡ ok (server_named 1)
unfolding select_server access
busy_chosen = refl

chosen : (select_server 1 Protocol.vless_reality (world_with [])).0 ≡ ok (server_named 1)
unfolding select_server access
chosen = refl

test_tables-WellFormed : WellFormed test_tables
test_tables-WellFormed = record {
  counted = (refl, (refl, tt));
  distinct = λ id. ground arith;
  below_next = (omega arith, tt);
  addresses = λ server ip. ground arith;
}

migrate_server_example :
    AllRelocated 1 test_tables.servers test_tables.subscriptions
      (migrate_server test_service 1 (codes "offline") (world_with [])).1.db.subscriptions
migrate_server_example =
    migrate_server-AllRelocated test_service 1 (codes "offline") (world_with [])
      test_tables-WellFormed

-- The subscription is deleted after a migration.
abbrev migrated : World
migrated = (migrate_server test_service 1 (codes "offline") (world_with [])).1

reachable_example : WellFormed (delete test_service 7 4 migrated).1.db
reachable_example =
    reachable-WellFormed test_service
      (Reachable.next
        (Reachable.next Reachable.start
          (Step.migrates {w = world_with []} 1 (codes "offline") refl))
        (Step.deletes 7 4 refl))
      test_tables-WellFormed

random_length : (n k : ℕ) → length (bytes n k) ≡ k
random_length n zero = refl
random_length n (suc k) = ap suc (random_length n k)

test_primitives-IsCipher : IsCipher test_primitives
test_primitives-IsCipher = record {
  unbase64_base64 = λ bs. refl;
  random_length = random_length;
  unseal_seal = λ nonce t. refl;
}

decrypt-encrypt_example :
    decrypt test_primitives (encrypt test_primitives 3 (codes "text")) ≡ some (codes "text")
decrypt-encrypt_example = decrypt-encrypt test_primitives 3 (codes "text") test_primitives-IsCipher

abbrev request : CreateRequest
request = record {
  user_id = 7;
  country_id = 1;
  protocol = Protocol.vless_reality;
  plan_id = none;
  label = none;
  routing = codes "full";
}

abbrev created_view : VpnView
created_view = record {
  subscription = record {
    id = 5;
    user_id = 7;
    plan_id = none;
    server_id = 1;
    country_id = 1;
    protocol = Protocol.vless_reality;
    status = SubStatus.active;
    label = none;
    max_devices = 1;
    expires_at = 2592010;
    created_at = 10;
  };
  config = record {
    id = 3;
    subscription_id = 5;
    protocol = Protocol.vless_reality;
    uri = 4 ∷ [];
    config_object_key = codes "cfg/" ++ (3 ∷ []);
    qr_object_key = [];
    hash = 4 ∷ [];
    version = 1;
    created_at = 10;
  };
  country = [];
  host = codes "host";
}

abbrev after_create : World
after_create = (create test_service request (world_with [])).1

made : create test_service request (world_with []) ≡ (ok created_view, after_create)
unfolding create prepare continue guard terms select_server access draw generate generate_reality
    or_raise render_reality_uri provision add_vless_client send post store_config encrypted encrypt
    store_qr clock apply_encrypted_keys encrypted_or_none with_user_key persist persist_body
    transaction commit insert_subscription insert_config insert_key increment_load
made = refl

no_faults : after_create.faults ≡ []
unfolding create prepare continue guard terms select_server access draw generate generate_reality
    or_raise render_reality_uri provision add_vless_client send post store_config encrypted encrypt
    store_qr clock apply_encrypted_keys encrypted_or_none with_user_key persist persist_body
    transaction commit insert_subscription insert_config insert_key increment_load
no_faults = refl

create-fetch_config_example :
    (text : Text) × ((fetch_config test_service 7 5 after_create).0 ≡ ok text)
    × (created_view.config.hash ≡ text)
create-fetch_config_example =
    create-fetch_config test_service request (world_with []) after_create test_primitives-IsCipher
      refl made refl refl no_faults

migrated_there :
    map
      (λ (x : Subscription). x.server_id)
      (migrate_server test_service 1 (codes "offline") (world_with [])).1.db.subscriptions
    ≡ 2 ∷ []
unfolding migrate_server active_subs_on_server get_server_by_id migrate_all migrate_one move_to
    select_reserve_server old_key_for_sub attempted continue access draw generate generate_reality
    or_raise render_reality_uri provision add_vless_client send post store_config encrypted encrypt
    store_qr clock apply_encrypted_keys encrypted_or_none with_user_key reassign reassign_body
    transaction commit revoke_keys next_version insert_config insert_key move_subscription
    increment_load decrement_load insert_migration deprovision_old deprovision remove_vless_client
migrated_there = refl
