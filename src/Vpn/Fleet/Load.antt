-- ===== src/Vpn/Fleet/Load.antt =====
-- internal/vpn/repository.go: the updates keep the tables well-formed.
use vpn_price_public.Base.{
  ℕ, suc, ◌+◌, ◌-◌, ◌≤◌, ◌<◌, ◌≡◌, refl, sym, subst, inl, inr, Bool, true, false, Option, none,
  some, List, [], ◌∷◌, arith, ◌==◌, ==_iff, any, All, count_by, count_by-update_where, update_where,
  if◌then◌else◌, Bool-cases, Text, text_eq, text_eq-eq,
}
use vpn_price_public.Vpn.Fleet.Model.{Subscription, Key, Migration}
use vpn_price_public.Vpn.Fleet.Store.{Tables}
use vpn_price_public.Vpn.Fleet.Queries.{belongs_to, used_ip, cons_some, used_ips}
use vpn_price_public.Vpn.Fleet.Updates.{is_sub, as_deleted, moved_to, revoked}
use vpn_price_public.Vpn.Fleet.Persist.{CreateParams, new_key, is_assigned}
use vpn_price_public.Vpn.Fleet.Effects.{persisted, removed, reassigned}
use vpn_price_public.Vpn.Fleet.Clients.{
  hosted, clients, WellFormed, at_server, counted-one_more, counted-one_less, at_server-hosted,
  clients-change,
}

fresh-count :
    (n : ℕ) (rows : List Subscription) → All (λ s. s.id < n) rows → count_by (is_sub n) rows ≡ 0
fresh-count n [] h = refl
fresh-count n (r ∷ rows) (h, hs) = ground (arith, fresh-count n rows hs)

below_suc :
    (n : ℕ) (rows : List Subscription) → All (λ s. s.id < n) rows → All (λ s. s.id < suc n) rows
below_suc n [] h = tt
below_suc n (r ∷ rows) (h, hs) = (omega arith, below_suc n rows hs)

below-update :
    (f : Subscription → Subscription) (sub n : ℕ) (rows : List Subscription)
    → ((s : Subscription) → (f s).id ≡ s.id)
    → All (λ s. s.id < n) rows
    → All (λ s. s.id < n) (update_where (is_sub sub) f rows)
below-update f sub n [] same h = tt
below-update f sub n (r ∷ rows) same (h, hs) =
    (ground (arith, same r), below-update f sub n rows same hs)

none-count :
    (ip : Text) (ips : List Text) → any (text_eq ip) ips ≡ false → count_by (text_eq ip) ips ≡ 0
none-count ip [] h = refl
none-count ip (x ∷ ips) h = ground (arith, none-count ip ips)

-- An address that is not in use may be added.
address-added :
    (ip a : Text) (ips : List Text)
    → any (text_eq a) ips ≡ false
    → count_by (text_eq ip) ips ≤ 1
    → count_by (text_eq ip) (a ∷ ips) ≤ 1
address-added ip a ips h c = elim (Bool-cases (text_eq ip a)) [
  | inl same ↦
      let none_there =
        none-count ip ips
          (subst (λ x. any (text_eq x) ips ≡ false) (sym (text_eq-eq ip a same)) h) in
      rw same (omega arith)
  | inr other ↦ rw other (omega arith)
]

cons_some-added :
    (ip : Text) (o : Option Text) (on server : ℕ) (keys : List Key)
    → is_assigned on o keys ≡ false
    → on ≡ server
    → count_by (text_eq ip) (used_ips server keys) ≤ 1
    → count_by (text_eq ip) (cons_some o (used_ips server keys)) ≤ 1
cons_some-added ip none on server keys h e c = c
cons_some-added ip (some a) on server keys h e c =
    address-added ip a (used_ips server keys)
      (subst (λ (n : ℕ). any (text_eq a) (used_ips n keys) ≡ false) e h) c

cons_some-le :
    (ip : Text) (o : Option Text) (ips more : List Text)
    → count_by (text_eq ip) ips ≤ count_by (text_eq ip) more
    → (count_by (text_eq ip) ips ≤ count_by (text_eq ip) (cons_some o more))
      × (count_by (text_eq ip) (cons_some o ips) ≤ count_by (text_eq ip) (cons_some o more))
cons_some-le ip none ips more h = (h, h)
cons_some-le ip (some a) ips more h = (omega arith, omega arith)

addresses-adding :
    (config : ℕ) (p : CreateParams) (keys : List Key) (server : ℕ) (ip : Text)
    → is_assigned p.server.id p.assigned_ip keys ≡ false
    → count_by (text_eq ip) (used_ips server keys) ≤ 1
    → count_by (text_eq ip) (used_ips server (new_key config p ∷ keys)) ≤ 1
addresses-adding config p keys server ip h c = elim (Bool-cases (p.server.id == server)) [
  | inl here ↦ rw here (
      cons_some-added ip p.assigned_ip p.server.id server keys h
        ((==_iff p.server.id server).0 here) c)
  | inr elsewhere ↦ rw elsewhere c
]

addresses-revoking :
    (its : Key → Bool) (server : ℕ) (ip : Text) (keys : List Key)
    → count_by (text_eq ip) (used_ips server (update_where its revoked keys))
      ≤ count_by (text_eq ip) (used_ips server keys)
addresses-revoking its server ip [] = omega arith
addresses-revoking its server ip (k ∷ keys) = elim (Bool-cases (its k)) [
  | inl revoke ↦
      rw revoke (cons_some-le ip (used_ip server k) _ _ (addresses-revoking its server ip keys)).0
  | inr leave ↦
      rw leave (cons_some-le ip (used_ip server k) _ _ (addresses-revoking its server ip keys)).1
]

-- `Persist` keeps the tables well-formed.
pub persisted-WellFormed :
    (now : ℕ) (p : CreateParams) (config_id : ℕ) (db : Tables)
    → WellFormed db
    → is_assigned p.server.id p.assigned_ip db.keys ≡ false
    → WellFormed (persisted now p config_id db)
persisted-WellFormed now p config_id db wf free =
    let none_yet = fresh-count db.next_id db.subscriptions wf.below_next in
    record {
      counted =
          counted-one_more (clients db) _ p.server.id db.servers (λ id. ground arith) wf.counted;
      distinct = λ id. ground (arith, wf.distinct id);
      below_next = (omega arith, below_suc db.next_id db.subscriptions wf.below_next);
      addresses =
          λ server ip. addresses-adding config_id p db.keys server ip free (wf.addresses server ip);
    }

-- `SoftDelete` of a subscription on a server keeps them so.
pub removed-WellFormed :
    (sub server : ℕ) (db : Tables)
    → WellFormed db
    → any (at_server sub server) db.subscriptions ≡ true
    → WellFormed (removed sub server db)
removed-WellFormed sub server db wf there = record {
  counted =
      counted-one_less (clients db) _ server db.servers
        (λ id. ground (
          arith,
          clients-change as_deleted sub server id 0 db.subscriptions (λ s. ground arith)
              (wf.distinct sub) there,
        ))
        wf.counted;
  distinct = λ id.
      rw (count_by-update_where (is_sub id) (is_sub sub) as_deleted db.subscriptions (λ x. refl))
        (wf.distinct id);
  below_next = below-update as_deleted sub db.next_id db.subscriptions (λ s. refl) wf.below_next;
  addresses = λ other ip.
      let fewer = addresses-revoking (belongs_to db.configs sub) other ip db.keys in
      let before = wf.addresses other ip in omega arith;
}

-- `Reassign` of a subscription on the old server keeps them so.
pub reassigned-WellFormed :
    (now : ℕ) (p : CreateParams) (config_id sub old : ℕ) (row : Migration) (db : Tables)
    → WellFormed db
    → any (at_server sub old) db.subscriptions ≡ true
    → is_assigned p.server.id p.assigned_ip
        (update_where (belongs_to db.configs sub) revoked db.keys)
      ≡ false
    → WellFormed (reassigned now p config_id sub old row db)
reassigned-WellFormed now p config_id sub old row db wf there free =
    let moved : (id : ℕ)
        → count_by (hosted id) (update_where (is_sub sub) (moved_to p.server.id) db.subscriptions)
          ≡ (if old == id then clients db id - 1 else clients db id)
            + (if p.server.id == id then 1 else 0) =
      λ id.
        clients-change (moved_to p.server.id) sub old id _ db.subscriptions (λ s. ground arith)
          (wf.distinct sub) there in
    let some_left = at_server-hosted sub old db.subscriptions there in
    record {
      counted =
          counted-one_less (λ id. if p.server.id == id then suc (clients db id) else clients db id)
            _ old _ (λ id. ground (arith, moved id))
            (counted-one_more (clients db) _ p.server.id db.servers (λ id. refl) wf.counted);
      distinct = λ id.
          rw
            (count_by-update_where (is_sub id) (is_sub sub) (moved_to p.server.id) db.subscriptions
              (λ x. refl))
            (wf.distinct id);
      below_next =
          below-update (moved_to p.server.id) sub db.next_id db.subscriptions (λ s. refl)
            wf.below_next;
      addresses = λ server ip.
          let fewer = addresses-revoking (belongs_to db.configs sub) server ip db.keys in
          let before = wf.addresses server ip in
          addresses-adding config_id p _ server ip free (omega arith);
    }
