-- ===== src/Vpn/Fleet/Store.antt =====
-- The state that internal/vpn works on: the database, the object store and what the nodes were
-- sent; and actions on it that may fail at every access.
use vpn_price_public.Base.{
  ℕ, suc, Bool, false, Option, none, some, List, [], ◌∷◌, if◌then◌else◌, Text,
}
use vpn_price_public.Vpn.Routing.AllowedIps.{SplitCache}
use vpn_price_public.Vpn.Fleet.Model.{
  ServerRow, PlanRow, CountryRow, Subscription, Config, Key, Migration, UserRow, VpnError, refused,
  Result, ok, err,
}

-- The newest rows stand first.
pub record Tables : Type 0 where
  pub servers : List ServerRow
  pub plans : List PlanRow
  pub countries : List CountryRow
  pub users : List UserRow
  pub subscriptions : List Subscription
  pub configs : List Config
  pub keys : List Key
  pub migrations : List Migration
  pub next_id : ℕ

-- A request that a node's agent has accepted.
pub record Request : Type 0 where
  pub server : ℕ
  pub path : Text
  pub payload : List (Text × Text)

-- `faults` says of the accesses to come which fail; those past its end succeed. `drawn` counts the
-- draws of random values, `objects` and `requests` have the latest first, and `cache` is the cached
-- text of the split networks.
pub record World : Type 0 where
  pub db : Tables
  pub objects : List (Text × Text)
  pub requests : List Request
  pub faults : List Bool
  pub now : ℕ
  pub drawn : ℕ
  pub cache : SplitCache

abbrev pub M : Type 0 → Type 0
M A = World → Result A × World

unfoldable pub continue : {A B : Type 0} → Result A × World → (A → M B) → Result B × World
continue (ok a, w) f = f a w
continue (err e, w) f = (err e, w)

infixl 5 ◌>>=◌ ◌>>◌
abbrev pub ◌>>=◌ : {A B : Type 0} → M A → (A → M B) → M B
◌>>=◌ m f w = continue (m w) f

abbrev pub ◌>>◌ : {A B : Type 0} → M A → M B → M B
m >> k = m >>= λ _. k

abbrev pub pure : {A : Type 0} → A → M A
pure a w = (ok a, w)

abbrev pub raise : {A : Type 0} → VpnError → M A
raise e w = (err e, w)

unfoldable pub guard : Bool → VpnError → M (Unit {0})
guard b e w = (if b then ok tt else err e, w)

unfoldable pub lift : {A : Type 0} → Result A → M A
lift r w = (r, w)

unfoldable pub or_raise : {A : Type 0} → Option A → VpnError → M A
or_raise none e w = (err e, w)
or_raise (some a) e w = (ok a, w)

-- What an action returned, its error as `none`.
unfoldable pub attempted : {A : Type 0} → Result A × World → Result (Option A) × World
attempted (ok a, w) = (ok (some a), w)
attempted (err e, w) = (ok none, w)

abbrev pub attempt : {A : Type 0} → M A → M (Option A)
attempt m w = attempted (m w)

unfoldable pub clock : M ℕ
clock w = (ok w.now, w)

-- A fresh random value, by its number.
unfoldable pub draw : M ℕ
draw w = (ok w.drawn, record w { drawn = suc w.drawn })

abbrev pub fault_of : List Bool → Bool
fault_of [] = false
fault_of (b ∷ bs) = b

abbrev pub rest_of : List Bool → List Bool
rest_of [] = []
rest_of (b ∷ bs) = bs

abbrev pub tick : World → World
tick w = record w { faults = rest_of w.faults }

-- One access: it fails, or is done whole.
unfoldable pub access : {A : Type 0} → (World → Result A × World) → M A
access run w = let done = run (tick w) in if fault_of w.faults then (err refused, tick w) else done

abbrev pub with_db : World → Tables → World
with_db w db = record w { db = db }

abbrev pub in_db : {A : Type 0} → World → Result A × Tables → Result A × World
in_db w (r, db) = (r, with_db w db)

-- One statement of SQL.
abbrev pub statement : {A : Type 0} → (Tables → Result A × Tables) → M A
statement run = access λ w. in_db w (run w.db)

-- `Commit`, or the deferred `Rollback` to the database `saved`.
unfoldable pub commit : {A : Type 0} → Tables → Result A × World → Result A × World
commit saved (err e, w) = (err e, with_db w saved)
commit saved (ok a, w) =
    if fault_of w.faults then (err refused, with_db (tick w) saved) else (ok a, tick w)

-- `Begin`, the statements, and `Commit`; an error on the way rolls the database back.
unfoldable pub transaction : {A : Type 0} → M A → M A
unfolding commit
transaction body w =
    if fault_of w.faults then (err refused, tick w) else commit w.db (body (tick w))
