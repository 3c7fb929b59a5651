-- ===== src/Vpn/Fleet/Queries.antt =====
-- internal/vpn/repository.go: the queries.
use vpn_price_public.Base.{
  ℕ, Bool, ◌&&◌, ◌||◌, Option, none, some, List, [], ◌∷◌, ◌++◌, map, ◌==◌, ltb, if◌then◌else◌, any,
  length, find, select, Text,
}
use vpn_price_public.Vpn.Fleet.Model.{
  Protocol, Server, ServerRow, PlanRow, CountryRow, Subscription, Config, Key, UserRow, VpnView,
  not_found, null_column, Result, ok, err,
}
use vpn_price_public.Vpn.Fleet.Store.{Tables, M, statement}
use vpn_price_public.Vpn.Fleet.Selection.{
  is_active_server, is_active, is_kept, found_or, least, sorted, server_of,
}

unfoldable pub get_server_by_id : ℕ → M Server
get_server_by_id id =
    statement λ db. (found_or not_found (server_of (find (λ r. r.server.id == id) db.servers)), db)

unfoldable pub get_plan : ℕ → M PlanRow
get_plan id = statement λ db. (found_or not_found (find (λ p. p.id == id && p.active) db.plans), db)

unfoldable pub list_plans : M (List PlanRow)
list_plans = statement λ db. (
  ok (sorted (λ (a b : PlanRow). ltb a.days b.days) (select (λ (p : PlanRow). p.active) db.plans)),
  db,
)

pub record CountryRef : Type 0 where
  pub country : CountryRow
  pub servers : ℕ

abbrev pub country_ref : List ServerRow → CountryRow → CountryRef
country_ref servers c = record {
  country = c;
  servers = length (
      select (λ (r : ServerRow). r.server.country_id == c.id && is_active_server r.server.status)
        servers);
}

-- `ORDER BY c.priority ASC, c.name ASC`; the collation of names is the database's.
abbrev pub shown_before : (Text → Text → Bool) → CountryRow → CountryRow → Bool
shown_before collates a b =
    ltb a.priority b.priority || (a.priority == b.priority && collates a.name b.name)

unfoldable pub list_countries : (Text → Text → Bool) → M (List CountryRef)
list_countries collates = statement λ db. (
  ok (
      map (country_ref db.servers)
        (sorted (shown_before collates) (select (λ (c : CountryRow). c.enabled) db.countries))),
  db,
)

pub record MigrationSub : Type 0 where
  pub sub_id : ℕ
  pub user_id : ℕ
  pub country_id : ℕ
  pub protocol : Protocol
  pub label : Option Text
  pub telegram_id : Option ℕ
  pub country : Text

abbrev pub migration_sub : Subscription → Option UserRow → Option CountryRow → List MigrationSub
migration_sub s (some u) (some c) =
    record {
      sub_id = s.id;
      user_id = s.user_id;
      country_id = s.country_id;
      protocol = s.protocol;
      label = s.label;
      telegram_id = u.telegram_id;
      country = c.name;
    }
    ∷ []
migration_sub s _ _ = []

abbrev pub user_in : List UserRow → ℕ → Option UserRow
user_in users id = find (λ (u : UserRow). u.id == id) users

abbrev pub country_in : List CountryRow → ℕ → Option CountryRow
country_in countries id = find (λ (c : CountryRow). c.id == id) countries

-- The subscriptions on the server, joined with their user and their country.
abbrev pub joined_subs : ℕ → Tables → List Subscription → List MigrationSub
joined_subs server db [] = []
joined_subs server db (s ∷ rest) =
    if s.server_id == server && is_active s.status
    then migration_sub s (user_in db.users s.user_id) (country_in db.countries s.country_id)
      ++ joined_subs server db rest
    else joined_subs server db rest

unfoldable pub active_subs_on_server : ℕ → M (List MigrationSub)
active_subs_on_server server = statement λ db. (ok (joined_subs server db db.subscriptions), db)

-- `vpn_config_id IN (SELECT id FROM vpn_configs WHERE subscription_id = …)`
abbrev pub belongs_to : List Config → ℕ → Key → Bool
belongs_to configs sub k =
    any (λ (c : Config). c.id == k.vpn_config_id && c.subscription_id == sub) configs

abbrev pub material : Option Key → Option Text × Option Text
material none = (none, none)
material (some k) = (k.public_key, k.client_uuid)

unfoldable pub old_key_for_sub : ℕ → M (Option Text × Option Text)
old_key_for_sub sub =
    statement λ db. (ok (material (find (λ k. k.live && belongs_to db.configs sub k) db.keys)), db)

-- The address of a key that is active on a server.
abbrev pub used_ip : ℕ → Key → Option Text
used_ip server k = if k.live && k.server_id == server then k.assigned_ip else none

abbrev pub cons_some : Option Text → List Text → List Text
cons_some none ips = ips
cons_some (some ip) ips = ip ∷ ips

abbrev pub used_ips : ℕ → List Key → List Text
used_ips server [] = []
used_ips server (k ∷ ks) = cons_some (used_ip server k) (used_ips server ks)

unfoldable pub list_used_ips : ℕ → M (List Text)
list_used_ips server = statement λ db. (ok (used_ips server db.keys), db)

-- `ORDER BY version DESC LIMIT 1`
abbrev pub latest_config : ℕ → List Config → Option Config
latest_config sub configs =
    least (λ (a b : Config). ltb b.version a.version)
      (select (λ (c : Config). c.subscription_id == sub) configs)

unfoldable pub get_artifact_for_user : ℕ → ℕ → M Config
get_artifact_for_user user sub = statement λ db. (
  found_or not_found (
      if any (λ s. s.id == sub && (s.user_id == user && is_kept s.status)) db.subscriptions
      then latest_config sub db.configs
      else none),
  db,
)

-- One row of the list of a user's VPNs: the server and the country are joined, the configuration
-- is joined if there is one, and scanning a row without one fails.
abbrev pub vpn_view :
    Subscription
    → Option Server
    → Option CountryRow
    → Option Config
    → Result (List VpnView)
    → Result (List VpnView)
vpn_view s (some srv) (some co) (some c) (ok rest) =
    ok (record { subscription = s; config = c; country = co.name; host = srv.public_host } ∷ rest)
vpn_view s (some srv) (some co) (some c) (err e) = err e
vpn_view s (some srv) (some co) none rest = err null_column
vpn_view s _ _ _ rest = rest

abbrev pub vpn_views : Tables → List Subscription → Result (List VpnView)
vpn_views db [] = ok []
vpn_views db (s ∷ rest) =
    vpn_view s (server_of (find (λ (r : ServerRow). r.server.id == s.server_id) db.servers))
      (country_in db.countries s.country_id) (latest_config s.id db.configs) (vpn_views db rest)

unfoldable pub list_user_vpns : ℕ → M (List VpnView)
list_user_vpns user = statement λ db. (
  vpn_views db (
      sorted (λ (a b : Subscription). ltb b.created_at a.created_at)
        (select (λ (s : Subscription). s.user_id == user && is_kept s.status) db.subscriptions)),
  db,
)
