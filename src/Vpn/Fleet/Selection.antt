-- ===== src/Vpn/Fleet/Selection.antt =====
-- internal/vpn/repository.go: the choice of a server.
use vpn_price_public.Base.{
  ℕ, Bool, true, false, not, ◌&&◌, ◌||◌, Option, none, some, List, [], ◌∷◌, ◌==◌, ltb,
  if◌then◌else◌, select,
}
use vpn_price_public.Vpn.Fleet.Model.{
  Protocol, Server, ServerStatus, ServerRow, SubStatus, VpnError, no_server_available, Result, ok,
  err,
}
use vpn_price_public.Vpn.Fleet.Store.{M, statement}

abbrev pub is_some : {A : Type 0} → Option A → Bool
is_some none = false
is_some (some a) = true

abbrev pub is_active_server : ServerStatus → Bool
is_active_server ServerStatus.active = true
is_active_server _ = false

abbrev pub is_active : SubStatus → Bool
is_active SubStatus.active = true
is_active _ = false

-- `status <> 'deleted'`
abbrev pub is_kept : SubStatus → Bool
is_kept SubStatus.deleted = false
is_kept _ = true

abbrev pub found_or : {A : Type 0} → VpnError → Option A → Result A
found_or e none = err e
found_or e (some a) = ok a

-- `protocolAvailabilityClause`
abbrev pub is_available : Protocol → Server → Bool
is_available Protocol.vless_reality s = is_some s.reality_port && is_some s.reality_public_key
is_available Protocol.shadowsocks s = is_some s.ss_port && is_some s.ss_server_key
is_available Protocol.trojan s = is_some s.trojan_port && is_some s.reality_public_key
is_available _ s = is_some s.wg_port && (is_some s.wg_public_key && is_some s.wg_subnet)

-- `ORDER BY … LIMIT 1`: of rows that sort alike, the first in the table.
abbrev pub least_from {ℓ} : {A : Type ℓ} → (A → A → Bool) → A → List A → A
least_from before x [] = x
least_from before x (y ∷ ys) = least_from before (if before y x then y else x) ys

abbrev pub least {ℓ} : {A : Type ℓ} → (A → A → Bool) → List A → Option A
least before [] = none
least before (x ∷ xs) = some (least_from before x xs)

-- `ORDER BY`, as an insertion sort.
abbrev pub put_sorted {ℓ} : {A : Type ℓ} → (A → A → Bool) → A → List A → List A
put_sorted before x [] = x ∷ []
put_sorted before x (y ∷ ys) =
    let rest = put_sorted before x ys in if before y x then y ∷ rest else x ∷ y ∷ ys

abbrev pub sorted {ℓ} : {A : Type ℓ} → (A → A → Bool) → List A → List A
sorted before [] = []
sorted before (x ∷ xs) = put_sorted before x (sorted before xs)

-- `priority ASC, client_count ASC`
abbrev pub less_loaded : ServerRow → ServerRow → Bool
less_loaded a b =
    ltb a.priority b.priority || (a.priority == b.priority && ltb a.client_count b.client_count)

-- `reserve ASC, …`
abbrev pub preferred : ServerRow → ServerRow → Bool
preferred a b =
    if a.reserve
    then b.reserve && less_loaded a b
    else (if b.reserve then true else less_loaded a b)

-- `reserve DESC, …`
abbrev pub reserve_first : ServerRow → ServerRow → Bool
reserve_first a b =
    if a.reserve
    then (if b.reserve then less_loaded a b else true)
    else (if b.reserve then false else less_loaded a b)

abbrev pub serves : ℕ → Protocol → ServerRow → Bool
serves country protocol r =
    r.server.country_id == country
    && (is_active_server r.server.status && is_available protocol r.server)

abbrev pub server_of : Option ServerRow → Option Server
server_of none = none
server_of (some r) = some r.server

unfoldable pub select_server : ℕ → Protocol → M Server
select_server country protocol = statement λ db. (
  found_or no_server_available
      (server_of (least preferred (select (serves country protocol) db.servers))),
  db,
)

abbrev pub serves_instead : ℕ → Protocol → ℕ → ServerRow → Bool
serves_instead country protocol exclude r =
    serves country protocol r && not (r.server.id == exclude)

unfoldable pub select_reserve_server : ℕ → Protocol → ℕ → M Server
select_reserve_server country protocol exclude = statement λ db. (
  found_or no_server_available (
      server_of
        (least reserve_first (select (serves_instead country protocol exclude) db.servers))),
  db,
)
