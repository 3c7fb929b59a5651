-- ===== src/Vpn/Fleet/Clients.antt =====
-- internal/vpn/repository.go: how the updates change the number of clients of a server.
use vpn_price_public.Base.{
  ℕ, suc, ◌+◌, ◌-◌, ◌≤◌, ◌<◌, ◌≡◌, refl, inl, inr, Bool, true, false, ◌&&◌, List, [], ◌∷◌, arith,
  ◌==◌, any, All, count_by, update_where, update_where-none, if◌then◌else◌, Bool-cases, Text,
  text_eq,
}
use vpn_price_public.Vpn.Fleet.Model.{Subscription, ServerRow}
use vpn_price_public.Vpn.Fleet.Store.{Tables}
use vpn_price_public.Vpn.Fleet.Queries.{used_ips}
use vpn_price_public.Vpn.Fleet.Selection.{is_kept}
use vpn_price_public.Vpn.Fleet.Updates.{is_sub}
use vpn_price_public.Vpn.Fleet.Persist.{is_server, one_more, one_less}

-- The subscriptions that count as clients of a server.
abbrev pub hosted : ℕ → Subscription → Bool
hosted server s = s.server_id == server && is_kept s.status

abbrev pub clients : Tables → ℕ → ℕ
clients db server = count_by (hosted server) db.subscriptions

abbrev pub CountsClients : (ℕ → ℕ) → List ServerRow → Type 0
CountsClients h rows = All (λ r. r.client_count ≡ h r.server.id) rows

-- The counters of all servers are right, the identifiers of subscriptions are distinct and smaller
-- than the next one, and no two active keys of a server have the same address.
pub record WellFormed (db : Tables) : Type 0 where
  pub counted : CountsClients (clients db) db.servers
  pub distinct : (id : ℕ) → count_by (is_sub id) db.subscriptions ≤ 1
  pub below_next : All (λ s. s.id < db.next_id) db.subscriptions
  pub addresses : (server : ℕ) (ip : Text) → count_by (text_eq ip) (used_ips server db.keys) ≤ 1

pub counted-one_more :
    (h h' : ℕ → ℕ) (server : ℕ) (rows : List ServerRow)
    → ((id : ℕ) → h' id ≡ (if server == id then suc (h id) else h id))
    → CountsClients h rows
    → CountsClients h' (update_where (is_server server) one_more rows)
counted-one_more h h' server [] step c = tt
counted-one_more h h' server (r ∷ rows) step (c, cs) =
    (ground (arith, step r.server.id), counted-one_more h h' server rows step cs)

pub counted-one_less :
    (h h' : ℕ → ℕ) (server : ℕ) (rows : List ServerRow)
    → ((id : ℕ) → h' id ≡ (if server == id then h id - 1 else h id))
    → CountsClients h rows
    → CountsClients h' (update_where (is_server server) one_less rows)
counted-one_less h h' server [] step c = tt
counted-one_less h h' server (r ∷ rows) step (c, cs) =
    (ground (arith, step r.server.id), counted-one_less h h' server rows step cs)

pub none-counted :
    (sub : ℕ) (rows : List Subscription)
    → count_by (is_sub sub) rows ≤ 0
    → any (is_sub sub) rows ≡ false
none-counted sub [] h = refl
none-counted sub (r ∷ rows) h = ground (arith, none-counted sub rows)

-- A subscription with an identifier leaves one server's clients and joins another's.
abbrev pub at_server : ℕ → ℕ → Subscription → Bool
at_server sub server s = s.id == sub && hosted server s

none-at_server :
    (sub old : ℕ) (rows : List Subscription)
    → any (is_sub sub) rows ≡ false
    → any (at_server sub old) rows ≡ false
none-at_server sub old [] h = refl
none-at_server sub old (r ∷ rows) h = ground (arith, none-at_server sub old rows)

pub at_server-hosted :
    (sub old : ℕ) (rows : List Subscription)
    → any (at_server sub old) rows ≡ true
    → 1 ≤ count_by (hosted old) rows
at_server-hosted sub old [] h = ground arith
at_server-hosted sub old (r ∷ rows) h = ground (arith, at_server-hosted sub old rows)

pub clients-change :
    (f : Subscription → Subscription) (sub old id : ℕ) (gain : ℕ) (rows : List Subscription)
    → ((s : Subscription) → (if hosted id (f s) then 1 else 0) ≡ gain)
    → count_by (is_sub sub) rows ≤ 1
    → any (at_server sub old) rows ≡ true
    → count_by (hosted id) (update_where (is_sub sub) f rows)
      ≡ (if old == id then count_by (hosted id) rows - 1 else count_by (hosted id) rows) + gain
clients-change f sub old id gain [] step one h = ground arith
clients-change f sub old id gain (r ∷ rows) step one h = elim (Bool-cases (is_sub sub r)) [
  | inl this ↦
      let rest = none-counted sub rows (ground arith) in
      let gone = update_where-none (is_sub sub) f rows rest in
      let here : hosted old r ≡ true = ground (arith, none-at_server sub old rows rest) in
      rw (this, gone) (ground (arith, step r))
  | inr other ↦
      let later : any (at_server sub old) rows ≡ true = ground arith in
      let some_left = at_server-hosted sub old rows later in
      rw other (ground (arith, clients-change f sub old id gain rows step (ground arith) later))
]
