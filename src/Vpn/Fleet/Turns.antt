-- ===== src/Vpn/Fleet/Turns.antt =====
-- internal/vpn/service.go, `MigrateServer`: what one turn of the loop does to the tables.
use mathlib.Core.List.{Memᴰ}
use mathlib.Core.List.Memᴰ
use vpn_price_public.Base.{
  ℕ, ◌≤◌, ◌≡◌, refl, sym, ◌∙◌, ap, subst, inl, inr, Bool, true, false, Option, none, some, List, [],
  ◌∷◌, arith, ◌==◌, any, All, count_by, update_where, if◌then◌else◌, Text,
}
use vpn_price_public.Vpn.Fleet.Model.{Subscription, SubStatus, ServerRow, Server}
use vpn_price_public.Vpn.Fleet.Store.{Tables, World}
use vpn_price_public.Vpn.Fleet.Queries.{MigrationSub}
use vpn_price_public.Vpn.Fleet.Selection.{
  is_active, is_kept, reserve_first, serves_instead, select_reserve_server,
}
use vpn_price_public.Vpn.Fleet.Updates.{is_sub, moved_to}
use vpn_price_public.Vpn.Fleet.Persist.{is_server, one_more, one_less}
use vpn_price_public.Vpn.Fleet.Issue.{Service}
use vpn_price_public.Vpn.Fleet.Migrations.{deprovision_old, move_to, migrate_one}
use vpn_price_public.Vpn.Fleet.Same.{Same, Same-continue, Same-here, Same-query, Same-attempted}
use vpn_price_public.Vpn.Fleet.Choice.{IsFirst, select_reserve_server-ok}
use vpn_price_public.Vpn.Fleet.Removal.{deprovision-Same}
use vpn_price_public.Vpn.Fleet.Load.{reassigned-WellFormed}
use vpn_price_public.Vpn.Fleet.Clients.{at_server, WellFormed}
use vpn_price_public.Vpn.Fleet.Leads.{Leads, Leads-Same, Leads-kept, Leads-then}
use vpn_price_public.Vpn.Fleet.Relocated.{AllRelocated, relocated_trans, Listed, moved-AllRelocated}
use vpn_price_public.Vpn.Fleet.Invariant.{Turn, move_to-Turn}

deprovision_old-Same :
    (s : Service) (old : Option Server) (m : MigrationSub) (held : Option Text × Option Text)
    (w : World)
    → Same w (deprovision_old s old m held w)
unfolding deprovision_old
deprovision_old-Same s none m held w = Same-here w _
deprovision_old-Same s (some srv) m held w =
    Same-attempted w _ (deprovision-Same s srv m.protocol held.0 held.1 w)

select_reserve-Same :
    (m : MigrationSub) (from_server : ℕ) (w : World)
    → Same w (select_reserve_server m.country_id m.protocol from_server w)
unfolding select_reserve_server
select_reserve-Same m from_server w = Same-query _ w

pub migrate_one-Turn :
    (s : Service) (from_server : ℕ) (reason : Text) (old : Option Server) (m : MigrationSub)
    (w : World)
    → Leads (Turn from_server m w.db) (migrate_one s from_server reason old m w)
unfolding migrate_one
migrate_one-Turn s from_server reason old m w =
    let Q : Tables → Type 0 = Turn from_server m w.db in
    Leads-Same Q w _ _ (select_reserve-Same m from_server w) (inl refl) λ reserve w1 did e1.
      let (x, is_row, first) = select_reserve_server-ok m.country_id m.protocol from_server w did in
      Leads-then Q Q _ _
        (subst (λ db. Leads (Turn from_server m db) (move_to s from_server reason m reserve w1)) e1
          (subst
            (λ (srv : Server).
              Leads (Turn from_server m w1.db) (move_to s from_server reason m srv w1))
            is_row
            (move_to-Turn s from_server reason m x w1 (
              subst
                (λ (db : Tables).
                  IsFirst reserve_first (serves_instead m.country_id m.protocol from_server)
                    db.servers x)
                (sym e1) first))))
        (λ v h. h)
        (λ held v h.
          Leads-kept Q v _
            (Same-continue v _ _ (deprovision_old-Same s old m held v) λ u v1. Same-here v1 _) h)

-- What the loop has come to, from the tables that it started with.
pub record Loop (from_server : ℕ) (db0 db : Tables) : Type 0 where
  pub well_formed : WellFormed db
  pub relocated : AllRelocated from_server db0.servers db0.subscriptions db.subscriptions
  pub offered :
      (x : ServerRow)
      → Memᴰ x db.servers
      → (y : ServerRow) × Memᴰ y db0.servers × (y.server ≡ x.server)

active-kept : (status : SubStatus) → is_active status ≡ true → is_kept status ≡ true
active-kept SubStatus.active h = refl
active-kept SubStatus.paused h = ground arith
active-kept SubStatus.blocked h = ground arith
active-kept SubStatus.expired h = ground arith
active-kept SubStatus.migrated h = ground arith
active-kept SubStatus.deleted h = ground arith

Listed-at_server :
    (from_server : ℕ) (m : MigrationSub) (rows : List Subscription) {s : Subscription}
    → Memᴰ s rows
    → s.id ≡ m.sub_id
    → s.server_id ≡ from_server
    → is_active s.status ≡ true
    → any (at_server m.sub_id from_server) rows ≡ true
Listed-at_server from_server m [] {s} there e on was = elim there [ ]
Listed-at_server from_server m (r ∷ rows) {s} (Memᴰ.head same) e on was =
    subst (λ (t : Subscription). any (at_server m.sub_id from_server) (t ∷ rows) ≡ true) same
      (ground (arith, active-kept s.status was))
Listed-at_server from_server m (r ∷ rows) {s} (Memᴰ.tail later) e on was =
    ground (arith, Listed-at_server from_server m rows later e on was)

changed-server :
    (f : ServerRow → ServerRow) (r : ServerRow)
    → ((x : ServerRow) → (f x).server ≡ x.server)
    → (b : Bool) → (if b then f r else r).server ≡ r.server
changed-server f r same true = same r
changed-server f r same false = refl

-- The servers after a change of a counter.
offered-loading :
    (f : ServerRow → ServerRow) (server : ℕ) (rows : List ServerRow)
    → ((r : ServerRow) → (f r).server ≡ r.server)
    → (x : ServerRow) → Memᴰ x (update_where (is_server server) f rows)
    → (y : ServerRow) × Memᴰ y rows × (y.server ≡ x.server)
offered-loading f server [] same x m = elim m [ ]
offered-loading f server (r ∷ rows) same x m = elim (Memᴰ.cases_cons m) [
  | inl here ↦ (
    r,
    Memᴰ.head refl,
    sym (ap (λ t. t.server) here ∙ changed-server f r same (is_server server r)),
  )
  | inr later ↦
      let (y, there, same_server) = offered-loading f server rows same x later in
      (y, Memᴰ.tail there, same_server)
]

pub Turn-Loop :
    (from_server : ℕ) (m : MigrationSub) (db0 db db' : Tables)
    → Loop from_server db0 db
    → Listed from_server db.subscriptions m
    → Turn from_server m db db'
    → Loop from_server db0 db'
Turn-Loop from_server m db0 db db' loop listed (inl stayed) =
    subst (Loop from_server db0) (sym stayed) loop
Turn-Loop from_server m db0 db db' loop (s, there, e, on, was, country, protocol)
      (inr (now, p, id, x, (row, left, fresh, free), is_row, (member, may, first))) =
    let (y, known, same) = loop.offered x member in
    let at = Listed-at_server from_server m db.subscriptions there e on was in
    subst (Loop from_server db0) (sym left) (record {
      well_formed =
          reassigned-WellFormed now p id m.sub_id from_server row db loop.well_formed at free;
      relocated =
          relocated_trans from_server db0.servers db0.subscriptions db.subscriptions _
            loop.relocated
            (subst
              (λ (n : ℕ).
                AllRelocated from_server db0.servers db.subscriptions
                  (update_where (is_sub m.sub_id) (moved_to n) db.subscriptions))
              (ap (λ t. t.id) (same ∙ is_row))
              (moved-AllRelocated from_server m.sub_id y db0.servers db.subscriptions there e known
                (rw (country, protocol, same) may) was on (loop.well_formed.distinct m.sub_id)));
      offered = λ z m1.
          let (a, m2, e1) = offered-loading one_less from_server _ (λ r. refl) z m1 in
          let (b, m3, e2) = offered-loading one_more p.server.id db.servers (λ r. refl) a m2 in
          let (c, m4, e3) = loop.offered b m3 in (c, m4, e3 ∙ e2 ∙ e1);
    })

kept-row :
    (f : Subscription → Subscription) (r : Subscription) (b : Bool)
    → b ≡ false
    → r ≡ (if b then f r else r)
kept-row f r true h = ground arith
kept-row f r false h = refl

Mem-update :
    (f : Subscription → Subscription) (sub : ℕ) (rows : List Subscription) {s : Subscription}
    → Memᴰ s rows
    → is_sub sub s ≡ false
    → Memᴰ s (update_where (is_sub sub) f rows)
Mem-update f sub [] {s} m other = elim m [ ]
Mem-update f sub (r ∷ rows) {s} (Memᴰ.head same) other =
    Memᴰ.head (same ∙ kept-row f r (is_sub sub r) (sym (ap (is_sub sub) same) ∙ other))
Mem-update f sub (r ∷ rows) {s} (Memᴰ.tail later) other =
    Memᴰ.tail (Mem-update f sub rows later other)

-- A turn leaves the other subscriptions listed.
Turn-Listed :
    (from_server : ℕ) (m m' : MigrationSub) (db db' : Tables)
    → Turn from_server m db db'
    → (m'.sub_id == m.sub_id) ≡ false
    → Listed from_server db.subscriptions m'
    → Listed from_server db'.subscriptions m'
Turn-Listed from_server m m' db db' (inl stayed) other listed =
    subst (λ (x : Tables). Listed from_server x.subscriptions m') (sym stayed) listed
Turn-Listed from_server m m' db db' (inr (now, p, id, x, (row, left, fresh, free), _, _)) other
      (s, there, e, on, was, country, protocol) =
    subst (λ (x : Tables). Listed from_server x.subscriptions m') (sym left)
      (
        s,
        Mem-update (moved_to p.server.id) m.sub_id db.subscriptions there (rw e other),
        e,
        on,
        was,
        country,
        protocol,
      )

abbrev pub is_for : ℕ → MigrationSub → Bool
is_for sub m = m.sub_id == sub

pub Turn-AllListed :
    (from_server : ℕ) (m : MigrationSub) (db db' : Tables) (ms : List MigrationSub)
    → Turn from_server m db db'
    → count_by (is_for m.sub_id) ms ≤ 0
    → All (Listed from_server db.subscriptions) ms
    → All (Listed from_server db'.subscriptions) ms
Turn-AllListed from_server m db db' [] turn none_else h = tt
Turn-AllListed from_server m db db' (m' ∷ ms) turn none_else (h, hs) = (
  Turn-Listed from_server m m' db db' turn (ground arith) h,
  Turn-AllListed from_server m db db' ms turn (ground arith) hs,
)
