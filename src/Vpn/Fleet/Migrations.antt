-- ===== src/Vpn/Fleet/Migrations.antt =====
-- internal/vpn/service.go, `MigrateServer`: moving the subscriptions of a server to others.
use vpn_price_public.Base.{ℕ, Option, none, some, List, [], ◌∷◌, Text, codes}
use vpn_price_public.Vpn.Fleet.Model.{Server, Generated}
use vpn_price_public.Vpn.Fleet.Store.{M, ◌>>=◌, ◌>>◌, pure, attempt, clock, draw}
use vpn_price_public.Vpn.Fleet.Queries.{
  MigrationSub, active_subs_on_server, get_server_by_id, old_key_for_sub,
}
use vpn_price_public.Vpn.Fleet.Selection.{select_reserve_server}
use vpn_price_public.Vpn.Fleet.Updates.{reassign}
use vpn_price_public.Vpn.Fleet.Persist.{CreateParams}
use vpn_price_public.Vpn.Fleet.Issue.{
  Service, generate, provision, store_config, apply_encrypted_keys,
}
use vpn_price_public.Vpn.Fleet.Service.{label_or, deprovision}

pub record MigrationResult : Type 0 where
  pub user_id : ℕ
  pub telegram_id : Option ℕ
  pub country : Text
  pub sub_id : ℕ

-- The fields that the literal leaves out are zero; `Reassign` reads none of them.
abbrev pub migrate_params : MigrationSub → Server → Generated → Text × Text → CreateParams
migrate_params m reserve g keys = record {
  user_id = m.user_id;
  server = reserve;
  country_id = 0;
  plan_id = none;
  protocol = m.protocol;
  label = none;
  max_devices = 0;
  expires_at = 0;
  uri = g.uri;
  config_object_key = keys.0;
  qr_object_key = keys.1;
  hash = g.hash;
  private_key_enc = none;
  public_key = g.public_key;
  psk_enc = none;
  client_uuid = g.client_uuid;
  assigned_ip = g.assigned_ip;
}

abbrev pub result_of : MigrationSub → MigrationResult
result_of m = record {
  user_id = m.user_id;
  telegram_id = m.telegram_id;
  country = m.country;
  sub_id = m.sub_id;
}

-- The error of `OldKeyForSub` is dropped.
abbrev pub material_or_none : Option (Option Text × Option Text) → Option Text × Option Text
material_or_none none = (none, none)
material_or_none (some m) = m

module _ (s : Service) where
  -- `deprovisionOld`: without the old server nothing is sent; errors are dropped.
  unfoldable pub deprovision_old :
      Option Server → MigrationSub → Option Text × Option Text → M (Option (Unit {0}))
  unfolding deprovision
  deprovision_old none m held = pure none
  deprovision_old (some srv) m held = attempt (deprovision s srv m.protocol held.0 held.1)

  -- One turn of the loop up to the commit, on the reserve server; it returns the old material.
  unfoldable pub move_to : ℕ → Text → MigrationSub → Server → M (Option Text × Option Text)
  unfolding old_key_for_sub generate provision store_config apply_encrypted_keys reassign
  move_to from_server reason m reserve = do
    old ← attempt (old_key_for_sub m.sub_id)
    g ← generate s reserve m.protocol (label_or m.label) (codes "full")
    provision s reserve m.protocol g
    config_id ← draw
    keys ← store_config s config_id g
    p ← apply_encrypted_keys s g (migrate_params m reserve g keys)
    now ← clock
    reassign now p config_id m.sub_id from_server reason
    pure (material_or_none old)

  unfoldable pub migrate_one : ℕ → Text → Option Server → MigrationSub → M MigrationResult
  unfolding select_reserve_server move_to deprovision_old
  migrate_one from_server reason old_server m = do
    reserve ← select_reserve_server m.country_id m.protocol from_server
    held ← move_to from_server reason m reserve
    deprovision_old old_server m held
    pure (result_of m)

  abbrev pub cons_moved : Option MigrationResult → List MigrationResult → List MigrationResult
  cons_moved none rs = rs
  cons_moved (some r) rs = r ∷ rs

  -- The loop: an error in a turn is logged, and the next subscription follows.
  unfoldable pub migrate_all :
      ℕ → Text → Option Server → List MigrationSub → M (List MigrationResult)
  unfolding migrate_one
  migrate_all from_server reason old_server [] = pure []
  migrate_all from_server reason old_server (m ∷ ms) = do
    r ← attempt (migrate_one from_server reason old_server m)
    rs ← migrate_all from_server reason old_server ms
    pure (cons_moved r rs)

  unfoldable pub migrate_server : ℕ → Text → M (List MigrationResult)
  unfolding active_subs_on_server get_server_by_id migrate_all
  migrate_server from_server reason = do
    subs ← active_subs_on_server from_server
    old_server ← attempt (get_server_by_id from_server)
    migrate_all from_server reason old_server subs
