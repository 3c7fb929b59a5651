-- ===== src/Vpn/Fleet/Migrated.antt =====
-- internal/vpn/service.go, `MigrateServer`: the loop over the subscriptions of the server.
use mathlib.Core.List.{Memᴰ}
use vpn_price_public.Base.{
  ℕ, ◌≤◌, ◌≡◌, refl, sym, ◌∙◌, subst, inl, inr, true, ◌&&◌, Option, none, some, List, [], ◌∷◌,
  arith, ◌==◌, All, All-append, count_by, count_by-append, if◌then◌else◌, Bool-cases, Text,
}
use vpn_price_public.Vpn.Fleet.Model.{Subscription, Server, UserRow, CountryRow, ok}
use vpn_price_public.Vpn.Fleet.Store.{Tables, World}
use vpn_price_public.Vpn.Fleet.Queries.{
  MigrationSub, migration_sub, joined_subs, user_in, country_in, active_subs_on_server,
  get_server_by_id,
}
use vpn_price_public.Vpn.Fleet.Selection.{is_active}
use vpn_price_public.Vpn.Fleet.Updates.{is_sub}
use vpn_price_public.Vpn.Fleet.Issue.{Service}
use vpn_price_public.Vpn.Fleet.Migrations.{migrate_all, migrate_server}
use vpn_price_public.Vpn.Fleet.Same.{Same, Same-here, Same-query, Same-attempted}
use vpn_price_public.Vpn.Fleet.Ends.{write-ok}
use vpn_price_public.Vpn.Fleet.Clients.{WellFormed}
use vpn_price_public.Vpn.Fleet.Leads.{Leads, Leads-Same, Leads-kept, Leads-then, Leads-attempted}
use vpn_price_public.Vpn.Fleet.Relocated.{AllRelocated, relocated_refl, Listed}
use vpn_price_public.Vpn.Fleet.Invariant.{Turn}
use vpn_price_public.Vpn.Fleet.Turns.{Loop, is_for, migrate_one-Turn, Turn-Loop, Turn-AllListed}

migrate_all-Loop :
    (s : Service) (from_server : ℕ) (reason : Text) (old : Option Server) (db0 : Tables)
    (ms : List MigrationSub) (w : World)
    → Loop from_server db0 w.db
    → All (Listed from_server w.db.subscriptions) ms
    → ((id : ℕ) → count_by (is_for id) ms ≤ 1)
    → Leads (Loop from_server db0) (migrate_all s from_server reason old ms w)
unfolding migrate_all
migrate_all-Loop s from_server reason old db0 [] w loop listed once =
    Leads-kept _ w _ (Same-here w _) loop
migrate_all-Loop s from_server reason old db0 (m ∷ ms) w loop (h, hs) once =
    Leads-then (Turn from_server m w.db) (Loop from_server db0) _ _
      (Leads-attempted _ _ (migrate_one-Turn s from_server reason old m w))
      (λ v turn. Turn-Loop from_server m db0 w.db v.db loop h turn)
      (λ r v turn.
        Leads-then (Loop from_server db0) (Loop from_server db0) _ _
          (migrate_all-Loop s from_server reason old db0 ms v
            (Turn-Loop from_server m db0 w.db v.db loop h turn)
            (Turn-AllListed from_server m w.db v.db ms turn (ground (arith, once m.sub_id)) hs)
            (λ id. ground (arith, once id)))
          (λ v1 done. done) (λ rs v1 done. Leads-kept _ v1 _ (Same-here v1 _) done))

row-Listed :
    (from_server : ℕ) (all : List Subscription) (s : Subscription) (u : Option UserRow)
    (c : Option CountryRow)
    → Memᴰ s all
    → (s.server_id == from_server && is_active s.status) ≡ true
    → All (Listed from_server all) (migration_sub s u c)
row-Listed from_server all s (some u) (some c) m h =
    ((s, m, refl, ground arith, ground arith, refl, refl), tt)
row-Listed from_server all s (some u) none m h = tt
row-Listed from_server all s none c m h = tt

-- The listing names subscriptions that are active on the server, each once.
joined-Listed :
    (from_server : ℕ) (db : Tables) (all rows : List Subscription)
    → ((s : Subscription) → Memᴰ s rows → Memᴰ s all)
    → All (Listed from_server all) (joined_subs from_server db rows)
joined-Listed from_server db all [] sub = tt
joined-Listed from_server db all (s ∷ rows) sub =
    let rest = joined-Listed from_server db all rows (λ t m. sub t (Memᴰ.tail m)) in
    elim (Bool-cases (s.server_id == from_server && is_active s.status)) [
      | inl taken ↦ rw taken (
          All-append (Listed from_server all) _ _
            (row-Listed from_server all s (user_in db.users s.user_id)
              (country_in db.countries s.country_id) (sub s (Memᴰ.head refl)) taken)
            rest)
      | inr left ↦ rw left rest
    ]

row-once :
    (id : ℕ) (s : Subscription) (u : Option UserRow) (c : Option CountryRow)
    → count_by (is_for id) (migration_sub s u c) ≤ (if is_sub id s then 1 else 0)
row-once id s (some u) (some c) = ground arith
row-once id s (some u) none = ground arith
row-once id s none c = ground arith

joined-once :
    (from_server id : ℕ) (db : Tables) (rows : List Subscription)
    → count_by (is_for id) (joined_subs from_server db rows) ≤ count_by (is_sub id) rows
joined-once from_server id db [] = omega arith
joined-once from_server id db (s ∷ rows) =
    let rest = joined-once from_server id db rows in
    let u : Option UserRow = user_in db.users s.user_id in
    let c : Option CountryRow = country_in db.countries s.country_id in
    let this = row-once id s u c in
    let both =
      count_by-append (is_for id) (migration_sub s u c) (joined_subs from_server db rows) in
    elim (Bool-cases (s.server_id == from_server && is_active s.status)) [
      | inl taken ↦ rw taken (omega arith)
      | inr left ↦ rw left (omega arith)
    ]

active_subs-Same : (from_server : ℕ) (w : World) → Same w (active_subs_on_server from_server w)
unfolding active_subs_on_server
active_subs-Same from_server w = Same-query _ w

active_subs-ok :
    (from_server : ℕ) (w : World) {ms : List MigrationSub} {v : World}
    → active_subs_on_server from_server w ≡ (ok ms, v)
    → ms ≡ joined_subs from_server w.db w.db.subscriptions
unfolding active_subs_on_server
active_subs-ok from_server w e = (write-ok _ _ w e).0

get_server-Same : (id : ℕ) (w : World) → Same w (get_server_by_id id w)
unfolding get_server_by_id
get_server-Same id w = Same-query _ w

pub migrate_server-Loop :
    (s : Service) (from_server : ℕ) (reason : Text) (w : World)
    → WellFormed w.db
    → Leads (Loop from_server w.db) (migrate_server s from_server reason w)
unfolding migrate_server
migrate_server-Loop s from_server reason w wf =
    let start : Loop from_server w.db w.db = record {
      well_formed = wf;
      relocated = relocated_refl from_server w.db.servers w.db.subscriptions;
      offered = λ x m. (x, m, refl);
    } in
    Leads-Same (Loop from_server w.db) w _ _ (active_subs-Same from_server w) start λ ms w1 did e1.
      let listing = active_subs-ok from_server w did in
      Leads-Same (Loop from_server w.db) w1 _ _
        (Same-attempted w1 _ (get_server-Same from_server w1))
        (subst (Loop from_server w.db) (sym e1) start)
        λ old w2 _ e2.
          let same : w2.db ≡ w.db = e2 ∙ e1 in
          let all_listed =
            joined-Listed from_server w.db w.db.subscriptions w.db.subscriptions (λ t m. m) in
          migrate_all-Loop s from_server reason old w.db ms w2
            (subst (Loop from_server w.db) (sym same) start) (rw (same, listing) all_listed)
            (λ id.
              let few = joined-once from_server id w.db w.db.subscriptions in
              let one = wf.distinct id in rw listing (omega arith))

-- From well-formed tables, and whatever fails on the way, each subscription is after MigrateServer
-- as it was before, or it was active on the server that is left and is now active on another one:
-- an active server of its country, set up for its protocol; nothing else of it has changed.
pub migrate_server-AllRelocated :
    (s : Service) (from_server : ℕ) (reason : Text) (w : World)
    → WellFormed w.db
    → AllRelocated from_server w.db.servers w.db.subscriptions
        (migrate_server s from_server reason w).1.db.subscriptions
migrate_server-AllRelocated s from_server reason w wf =
    (migrate_server-Loop s from_server reason w wf).leads.relocated
