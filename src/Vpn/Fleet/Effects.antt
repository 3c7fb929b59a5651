-- ===== src/Vpn/Fleet/Effects.antt =====
-- internal/vpn/repository.go: what the transactions do to the tables when they commit.
use vpn_price_public.Base.{ℕ, suc, ◌≡◌, refl, false, some, List, any, find, ◌==◌, Text}
use vpn_price_public.Vpn.Fleet.Model.{Server, Subscription, Config, Key, Migration, ok}
use vpn_price_public.Vpn.Fleet.Store.{Tables, World}
use vpn_price_public.Vpn.Fleet.Updates.{
  revoking, changing_sub, adding_migration, revoke_keys, max_version, next_version, moved_to,
  move_subscription, insert_migration, reassign_body, reassign, Deletion, owned, lock_subscription,
  load_keys, joined_keys, object_keys_of, as_deleted, mark_deleted, load_server, soft_delete_body,
  soft_delete,
}
use vpn_price_public.Vpn.Fleet.Persist.{
  CreateParams, adding_subscription, adding_config, adding_key, loading, new_subscription,
  insert_subscription, new_config, insert_config, new_key, is_assigned, insert_key, one_more,
  one_less, increment_load, decrement_load, persist_body, persist,
}
use vpn_price_public.Vpn.Fleet.Ends.{
  Ends, Ends-continue, Ends-pure, Ends-transaction, query-ok, write-ok, insert-ok, found_or-ok,
}

insert_subscription-ok :
    (now : ℕ) (p : CreateParams) (w : World) {row : Subscription} {v : World}
    → insert_subscription now p w ≡ (ok row, v)
    → (row ≡ new_subscription w.db.next_id now p) × (v.db ≡ adding_subscription now p w.db)
unfolding insert_subscription
insert_subscription-ok now p w e = write-ok _ _ w e

insert_config-ok :
    (id sub version now : ℕ) (p : CreateParams) (w : World) {row : Config} {v : World}
    → insert_config id sub version now p w ≡ (ok row, v)
    → (any (λ c. c.id == id) w.db.configs ≡ false)
      × (row ≡ new_config id sub version now p)
      × (v.db ≡ adding_config (new_config id sub version now p) w.db)
unfolding insert_config
insert_config-ok id sub version now p w e = insert-ok _ _ _ _ w e

insert_key-ok :
    (id : ℕ) (p : CreateParams) (w : World) {u : Unit {0}} {v : World}
    → insert_key id p w ≡ (ok u, v)
    → (is_assigned p.server.id p.assigned_ip w.db.keys ≡ false)
      × (v.db ≡ adding_key (new_key id p) w.db)
unfolding insert_key
insert_key-ok id p w e = let (free, _, h) = insert-ok _ _ _ _ w e in (free, h)

increment_load-ok :
    (server : ℕ) (w : World) {u : Unit {0}} {v : World}
    → increment_load server w ≡ (ok u, v)
    → v.db ≡ loading one_more server w.db
unfolding increment_load
increment_load-ok server w e = (write-ok _ _ w e).1

decrement_load-ok :
    (server : ℕ) (w : World) {u : Unit {0}} {v : World}
    → decrement_load server w ≡ (ok u, v)
    → v.db ≡ loading one_less server w.db
unfolding decrement_load
decrement_load-ok server w e = (write-ok _ _ w e).1

revoke_keys-ok :
    (sub : ℕ) (w : World) {u : Unit {0}} {v : World}
    → revoke_keys sub w ≡ (ok u, v)
    → v.db ≡ revoking sub w.db
unfolding revoke_keys
revoke_keys-ok sub w e = (write-ok _ _ w e).1

next_version-ok :
    (sub : ℕ) (w : World) {n : ℕ} {v : World}
    → next_version sub w ≡ (ok n, v)
    → (n ≡ suc (max_version sub w.db.configs)) × (v.db ≡ w.db)
unfolding next_version
next_version-ok sub w e = write-ok _ _ w e

move_subscription-ok :
    (sub server : ℕ) (w : World) {u : Unit {0}} {v : World}
    → move_subscription sub server w ≡ (ok u, v)
    → v.db ≡ changing_sub (moved_to server) sub w.db
unfolding move_subscription
move_subscription-ok sub server w e = (write-ok _ _ w e).1

insert_migration-ok :
    (sub user from_server to_server : ℕ) (reason : Text) (w : World) {u : Unit {0}} {v : World}
    → insert_migration sub user from_server to_server reason w ≡ (ok u, v)
    → (row : Migration) × (v.db ≡ adding_migration row w.db)
unfolding insert_migration
insert_migration-ok sub user from_server to_server reason w e = (_, (write-ok _ _ w e).1)

-- The tables after `Persist`.
abbrev pub persisted : ℕ → CreateParams → ℕ → Tables → Tables
persisted now p config_id db = loading one_more p.server.id (
    adding_key (new_key config_id p)
      (adding_config (new_config config_id db.next_id 1 now p) (adding_subscription now p db)))

lock_subscription-ok :
    (user sub : ℕ) (w : World) {s : Subscription} {v : World}
    → lock_subscription user sub w ≡ (ok s, v)
    → (find (owned user sub) w.db.subscriptions ≡ some s) × (v.db ≡ w.db)
unfolding lock_subscription
lock_subscription-ok user sub w e =
    let (found, same) = query-ok _ w e in (found_or-ok _ _ found, same)

load_keys-ok :
    (arrange : List (Key × Config) → List (Key × Config)) (sub : ℕ) (w : World)
    {rows : List (Key × Config)} {v : World}
    → load_keys arrange sub w ≡ (ok rows, v)
    → (rows ≡ arrange (joined_keys sub w.db.keys w.db.configs)) × (v.db ≡ w.db)
unfolding load_keys
load_keys-ok arrange sub w e = write-ok _ _ w e

mark_deleted-ok :
    (sub : ℕ) (w : World) {u : Unit {0}} {v : World}
    → mark_deleted sub w ≡ (ok u, v)
    → v.db ≡ changing_sub as_deleted sub w.db
unfolding mark_deleted
mark_deleted-ok sub w e = (write-ok _ _ w e).1

load_server-ok :
    (id : ℕ) (w : World) {srv : Server} {v : World} → load_server id w ≡ (ok srv, v) → v.db ≡ w.db
unfolding load_server
load_server-ok id w e = (query-ok _ w e).1

-- What a `Persist` has done that succeeds.
abbrev pub Persists : ℕ → CreateParams → ℕ → Tables → Subscription × Config → Tables → Type 0
Persists now p config_id db row db' =
    (row ≡ (new_subscription db.next_id now p, new_config config_id db.next_id 1 now p))
    × (db' ≡ persisted now p config_id db)
    × (any (λ c. c.id == config_id) db.configs ≡ false)
    × (is_assigned p.server.id p.assigned_ip db.keys ≡ false)

pub persist-Ends :
    (now : ℕ) (p : CreateParams) (config_id : ℕ) (w : World)
    → Ends (λ row v. Persists now p config_id w.db row v.db) (persist now p config_id w)
unfolding persist persist_body
persist-Ends now p config_id w =
    Ends-transaction (Persists now p config_id w.db) (persist_body now p config_id) w (
      Ends-continue _ _ _ λ sub w1 did1.
        let (is_new, db1) = insert_subscription-ok now p _ did1 in
        Ends-continue _ _ _ λ cfg w2 did2.
          let (fresh, is_row, db2) = insert_config-ok config_id _ 1 now p w1 did2 in
          Ends-continue _ _ _ λ u w3 did3.
            let (free, db3) = insert_key-ok _ p w2 did3 in
            Ends-continue _ _ _ λ u' w4 did4.
              let db4 = increment_load-ok p.server.id w3 did4 in
              Ends-pure _ _ _
                (rw (is_row, is_new) refl, rw (db4, db3, db2, is_row, db1, is_new) refl, cc, cc))

-- The tables after `SoftDelete`.
abbrev pub removed : ℕ → ℕ → Tables → Tables
removed sub server db = loading one_less server (changing_sub as_deleted sub (revoking sub db))

abbrev pub Deletes :
    (List (Key × Config) → List (Key × Config)) → ℕ → ℕ → Tables → Deletion → Tables → Type 0
Deletes arrange user sub db del db' =
    (s : Subscription) × (find (owned user sub) db.subscriptions ≡ some s)
    × (db' ≡ removed sub s.server_id db)
    × (del.protocol ≡ s.protocol)
    × (del.object_keys ≡ object_keys_of (arrange (joined_keys sub db.keys db.configs)))

pub soft_delete-Ends :
    (arrange : List (Key × Config) → List (Key × Config)) (user sub : ℕ) (w : World)
    → Ends (λ del v. Deletes arrange user sub w.db del v.db) (soft_delete arrange user sub w)
unfolding soft_delete soft_delete_body
soft_delete-Ends arrange user sub w =
    Ends-transaction (Deletes arrange user sub w.db) (soft_delete_body arrange user sub) w (
      Ends-continue _ _ _ λ s w1 did1.
        let (found, db1) = lock_subscription-ok user sub _ did1 in
        Ends-continue _ _ _ λ rows w2 did2.
          let (loaded, db2) = load_keys-ok arrange sub w1 did2 in
          Ends-continue _ _ _ λ u w3 did3.
            let db3 = revoke_keys-ok sub w2 did3 in
            Ends-continue _ _ _ λ u' w4 did4.
              let db4 = mark_deleted-ok sub w3 did4 in
              Ends-continue _ _ _ λ u'' w5 did5.
                let db5 = decrement_load-ok s.server_id w4 did5 in
                Ends-continue _ _ _ λ srv w6 did6.
                  let db6 = load_server-ok s.server_id w5 did6 in
                  Ends-pure _ _ _
                    (s, found, rw (db6, db5, db4, db3, db2, db1) refl, refl, rw (loaded, db1) refl))

-- The tables after `Reassign`.
abbrev pub reassigned : ℕ → CreateParams → ℕ → ℕ → ℕ → Migration → Tables → Tables
reassigned now p config_id sub old_server row db = adding_migration row (
    loading one_less old_server (
      loading one_more p.server.id (
        changing_sub (moved_to p.server.id) sub (
          adding_key (new_key config_id p) (
            adding_config (new_config config_id sub (suc (max_version sub db.configs)) now p)
              (revoking sub db))))))

abbrev pub Reassigns : ℕ → CreateParams → ℕ → ℕ → ℕ → Tables → Tables → Type 0
Reassigns now p config_id sub old_server db db' =
    (row : Migration) × (db' ≡ reassigned now p config_id sub old_server row db)
    × (any (λ c. c.id == config_id) db.configs ≡ false)
    × (is_assigned p.server.id p.assigned_ip (revoking sub db).keys ≡ false)

pub reassign-Ends :
    (now : ℕ) (p : CreateParams) (config_id sub old_server : ℕ) (reason : Text) (w : World)
    → Ends
        (λ u v. Reassigns now p config_id sub old_server w.db v.db)
        (reassign now p config_id sub old_server reason w)
unfolding reassign reassign_body
reassign-Ends now p config_id sub old_server reason w =
    Ends-transaction (λ u. Reassigns now p config_id sub old_server w.db)
      (reassign_body now p config_id sub old_server reason) w
      (Ends-continue _ _ _ λ u w1 did1.
        let db1 = revoke_keys-ok sub _ did1 in
        Ends-continue _ _ _ λ version w2 did2.
          let (next, db2) = next_version-ok sub w1 did2 in
          Ends-continue _ _ _ λ cfg w3 did3.
            let (fresh, is_row, db3) = insert_config-ok config_id sub version now p w2 did3 in
            Ends-continue _ _ _ λ u w4 did4.
              let (free, db4) = insert_key-ok config_id p w3 did4 in
              Ends-continue _ _ _ λ u w5 did5.
                let db5 = move_subscription-ok sub p.server.id w4 did5 in
                Ends-continue _ _ _ λ u w6 did6.
                  let db6 = increment_load-ok p.server.id w5 did6 in
                  Ends-continue _ _ _ λ u w7 did7.
                    let db7 = decrement_load-ok old_server w6 did7 in
                    record {
                      ends = λ did8.
                          let (row, db8) = insert_migration-ok _ _ _ _ _ w7 did8 in
                          (row, rw (db8, db7, db6, db5, db4, db3, next, db2, db1) refl, cc, cc);
                    })
