-- ===== src/Vpn/Fleet/Reachable.antt =====
-- internal/vpn/service.go: the states that its operations lead to, in any order and with any failures.
use vpn_price_public.Base.{ℕ, ◌≡◌, sym, subst, Text}
use vpn_price_public.Vpn.Fleet.Store.{World}
use vpn_price_public.Vpn.Fleet.Issue.{Service}
use vpn_price_public.Vpn.Fleet.Service.{CreateRequest, create, delete}
use vpn_price_public.Vpn.Fleet.Migrations.{migrate_server}
use vpn_price_public.Vpn.Fleet.Clients.{WellFormed}
use vpn_price_public.Vpn.Fleet.Invariant.{create-WellFormed, delete-WellFormed}
use vpn_price_public.Vpn.Fleet.Migrated.{migrate_server-Loop}

-- One operation, whether it succeeds or not; or what leaves the tables, such as the passing of time
-- or the next accesses' failing.
pub data Step (s : Service) : World → World → Type 0 where
  creates : {w v : World} (r : CreateRequest) → v ≡ (create s r w).1 → Step s w v
  deletes : {w v : World} (user sub : ℕ) → v ≡ (delete s user sub w).1 → Step s w v
  migrates :
      {w v : World} (from_server : ℕ) (reason : Text)
      → v ≡ (migrate_server s from_server reason w).1
      → Step s w v
  elsewhere : {w v : World} → v.db ≡ w.db → Step s w v

pub data Reachable (s : Service) (w : World) : World → Type 0 where
  start : Reachable s w w
  next : {v u : World} → Reachable s w v → Step s v u → Reachable s w u

Step-WellFormed : (s : Service) {w v : World} → Step s w v → WellFormed w.db → WellFormed v.db
Step-WellFormed s {w} {v} (Step.creates r e) wf =
    subst (λ (x : World). WellFormed x.db) (sym e) (create-WellFormed s r w wf).leads
Step-WellFormed s {w} {v} (Step.deletes user sub e) wf =
    subst (λ (x : World). WellFormed x.db) (sym e) (delete-WellFormed s user sub w wf).leads
Step-WellFormed s {w} {v} (Step.migrates from_server reason e) wf =
    subst (λ (x : World). WellFormed x.db) (sym e)
      (migrate_server-Loop s from_server reason w wf).leads.well_formed
Step-WellFormed s {w} {v} (Step.elsewhere e) wf = subst WellFormed (sym e) wf

-- However creations, deletions and migrations follow each other and whatever fails in them, well-
-- formed tables stay so: each server's client_count is the number of subscriptions on it that are
-- not deleted, no two active keys of a server have the same address, and identifiers of
-- subscriptions are distinct and smaller than the next one.
pub reachable-WellFormed :
    (s : Service) {w v : World} → Reachable s w v → WellFormed w.db → WellFormed v.db
reachable-WellFormed s Reachable.start wf = wf
reachable-WellFormed s (Reachable.next before step) wf =
    Step-WellFormed s step (reachable-WellFormed s before wf)
