-- ===== src/Vpn/Fleet/Invariant.antt =====
-- internal/vpn/service.go: creating, deleting and migrating keep the tables well-formed.
use vpn_price_public.Base.{
  ℕ, ◌≡◌, refl, sym, ◌∙◌, subst, ◌⊎◌, inl, inr, true, Option, none, some, List, [], ◌∷◌, arith, any,
  find, Text,
}
use vpn_price_public.Vpn.Fleet.Model.{Generated, ServerRow, Subscription}
use vpn_price_public.Vpn.Fleet.Store.{Tables, World}
use vpn_price_public.Vpn.Fleet.Queries.{MigrationSub, old_key_for_sub}
use vpn_price_public.Vpn.Fleet.Selection.{reserve_first, serves_instead}
use vpn_price_public.Vpn.Fleet.Updates.{
  soft_delete, soft_delete_body, reassign, reassign_body, owned,
}
use vpn_price_public.Vpn.Fleet.Persist.{CreateParams, persist, persist_body}
use vpn_price_public.Vpn.Fleet.Issue.{Service, apply_encrypted_keys, with_user_key}
use vpn_price_public.Vpn.Fleet.Service.{CreateRequest, create, delete}
use vpn_price_public.Vpn.Fleet.Migrations.{migrate_params, move_to}
use vpn_price_public.Vpn.Fleet.Failure.{
  transaction-Undone, generate-Same, provision-Same, store_config-Same, apply_encrypted_keys-Same,
  prepare-Same,
}
use vpn_price_public.Vpn.Fleet.Same.{Same-here, Same-query, Same-draw, Same-clock, Same-attempted}
use vpn_price_public.Vpn.Fleet.Ends.{Ends, Ends-continue, Ends-pure}
use vpn_price_public.Vpn.Fleet.Effects.{Reassigns, persist-Ends, soft_delete-Ends, reassign-Ends}
use vpn_price_public.Vpn.Fleet.Removal.{cleanup-Same}
use vpn_price_public.Vpn.Fleet.Load.{persisted-WellFormed, removed-WellFormed}
use vpn_price_public.Vpn.Fleet.Clients.{at_server, WellFormed}
use vpn_price_public.Vpn.Fleet.Choice.{IsFirst}
use vpn_price_public.Vpn.Fleet.Leads.{Leads, Leads-Same, Leads-transaction}

pub create-WellFormed :
    (s : Service) (r : CreateRequest) (w : World)
    → WellFormed w.db
    → Leads WellFormed (create s r w)
unfolding create persist
create-WellFormed s r w wf = Leads-Same WellFormed w _ _ (prepare-Same s r w) wf λ made w1 _ same1.
    Leads-Same WellFormed w1 _ _ (Same-clock w1) (subst WellFormed (sym same1) wf) λ now w2 _ same2.
      let wf2 : WellFormed w2.db = subst WellFormed (sym (same2 ∙ same1)) wf in
      Leads-transaction WellFormed w2 _ _ (transaction-Undone (persist_body now made.0 made.1.0) w2)
        wf2
        (λ row v e.
          let (_, left, _, free) = (persist-Ends now made.0 made.1.0 w2).ends e in
          subst WellFormed (sym left) (persisted-WellFormed now made.0 made.1.0 w2.db wf2 free))
        (λ row v. Same-here v _)

find-owned :
    (user sub : ℕ) (rows : List Subscription) {s : Subscription}
    → find (owned user sub) rows ≡ some s
    → any (at_server sub s.server_id) rows ≡ true
find-owned user sub [] {s} h = ground arith
find-owned user sub (r ∷ rows) {s} h = ground (arith, find-owned user sub rows {s = s})

pub delete-WellFormed :
    (s : Service) (user sub : ℕ) (w : World)
    → WellFormed w.db
    → Leads WellFormed (delete s user sub w)
unfolding delete soft_delete
delete-WellFormed s user sub w wf =
    Leads-transaction WellFormed w _ _ (transaction-Undone (soft_delete_body s.arrange user sub) w)
      wf
      (λ del v e.
        let (x, found, left, _, _) = (soft_delete-Ends s.arrange user sub w).ends e in
        subst WellFormed (sym left)
          (removed-WellFormed sub x.server_id w.db wf (find-owned user sub _ found)))
      (λ del v. cleanup-Same s del v)

-- What one turn of the migration does to the tables: nothing, or a `Reassign` to a server that may
-- take the subscription.
abbrev pub Turn : ℕ → MigrationSub → Tables → Tables → Type 0
Turn from_server m db db' =
    (db' ≡ db)
    ⊎ ((now : ℕ) × (p : CreateParams) × (config_id : ℕ) × (x : ServerRow) × Reassigns now p
          config_id m.sub_id from_server db db'
        × (x.server ≡ p.server)
        × IsFirst reserve_first (serves_instead m.country_id m.protocol from_server) db.servers x)

with_user_key-Ends :
    (s : Service) (t : Option Text) (p q : CreateParams) (w : World)
    → q.server ≡ p.server
    → Ends (λ q' v. q'.server ≡ p.server) (with_user_key s t q w)
unfolding with_user_key
with_user_key-Ends s none p q w h = Ends-pure _ _ _ h
with_user_key-Ends s (some t) p q w h = Ends-continue _ _ _ λ v w1 _. Ends-pure _ _ _ h

pub apply_encrypted_keys-Ends :
    (s : Service) (g : Generated) (p : CreateParams) (w : World)
    → Ends (λ q v. q.server ≡ p.server) (apply_encrypted_keys s g p w)
unfolding apply_encrypted_keys
apply_encrypted_keys-Ends s g p w =
    Ends-continue _ _ _
      λ priv w1 _. Ends-continue _ _ _ λ psk w2 _. with_user_key-Ends s g.ss_user_key p _ w2 refl

pub move_to-Turn :
    (s : Service) (from_server : ℕ) (reason : Text) (m : MigrationSub) (x : ServerRow) (w : World)
    → IsFirst reserve_first (serves_instead m.country_id m.protocol from_server) w.db.servers x
    → Leads (Turn from_server m w.db) (move_to s from_server reason m x.server w)
unfolding move_to old_key_for_sub reassign
move_to-Turn s from_server reason m x w first =
    let Q : Tables → Type 0 = Turn from_server m w.db in
    Leads-Same Q w _ _ (Same-attempted w _ (Same-query _ w)) (inl refl) λ old w1 _ e1.
      Leads-Same Q w1 _ _ (generate-Same s x.server m.protocol _ _ w1) (inl e1) λ g w2 _ e2.
        Leads-Same Q w2 _ _ (provision-Same s x.server m.protocol g w2) (inl (e2 ∙ e1)) λ u w3 _ e3.
          Leads-Same Q w3 _ _ (Same-draw w3) (inl (e3 ∙ e2 ∙ e1)) λ id w4 _ e4.
            Leads-Same Q w4 _ _ (store_config-Same s id g w4) (inl (e4 ∙ e3 ∙ e2 ∙ e1))
              λ keys w5 _ e5.
                Leads-Same Q w5 _ _
                  (apply_encrypted_keys-Same s g (migrate_params m x.server g keys) w5)
                  (inl (e5 ∙ e4 ∙ e3 ∙ e2 ∙ e1))
                  λ p w6 did e6.
                    let server =
                      (apply_encrypted_keys-Ends s g (migrate_params m x.server g keys) w5).ends
                        did in
                    Leads-Same Q w6 _ _ (Same-clock w6) (inl (e6 ∙ e5 ∙ e4 ∙ e3 ∙ e2 ∙ e1))
                      λ now w7 _ e7.
                        let same : w7.db ≡ w.db = e7 ∙ e6 ∙ e5 ∙ e4 ∙ e3 ∙ e2 ∙ e1 in
                        Leads-transaction Q w7 _ _
                          (transaction-Undone (reassign_body now p id m.sub_id from_server reason)
                            w7)
                          (inl same)
                          (λ u v e.
                            let done =
                              (reassign-Ends now p id m.sub_id from_server reason w7).ends e in
                            inr (
                              now,
                              p,
                              id,
                              x,
                              subst (λ db. Reassigns now p id m.sub_id from_server db v.db) same
                                  done,
                              sym server,
                              first,
                            ))
                          (λ u v. Same-here v _)
