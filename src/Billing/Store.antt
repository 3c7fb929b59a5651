-- ===== src/Billing/Store.antt =====
-- The database of billing, and actions on it that may fail at every statement.
use vpn_price_public.Base.{ℕ, Bool, false, Option, none, some, List, [], ◌∷◌, if◌then◌else◌}
use vpn_price_public.Billing.Model.{
  Order, Payment, Plan, Promo, Redemption, LedgerEntry, WebhookEvent, Subscription, BillingError,
  database, Result, ok, err,
}

-- The ledger's newest entry stands first.
pub record Db : Type 0 where
  pub orders : List Order
  pub payments : List Payment
  pub plans : List Plan
  pub promos : List Promo
  pub redemptions : List Redemption
  pub ledger : List LedgerEntry
  pub webhooks : List WebhookEvent
  pub subscriptions : List Subscription
  pub next_id : ℕ

-- `faults` says of the statements to come which the driver refuses; those past its end succeed.
-- `issued` lists the orders for which the VPN issuer was called, the latest first.
pub record World : Type 0 where
  pub db : Db
  pub faults : List Bool
  pub now : ℕ
  pub issued : List ℕ

abbrev pub M : Type 0 → Type 0
M A = World → Result A × World

abbrev pub continue : {A B : Type 0} → Result A × World → (A → M B) → Result B × World
continue (ok a, w) f = f a w
continue (err e, w) f = (err e, w)

infixl 5 ◌>>=◌ ◌>>◌
abbrev pub ◌>>=◌ : {A B : Type 0} → M A → (A → M B) → M B
◌>>=◌ m f w = continue (m w) f

abbrev pub ◌>>◌ : {A B : Type 0} → M A → M B → M B
m >> k = m >>= λ _. k

abbrev pub pure : {A : Type 0} → A → M A
pure a w = (ok a, w)

abbrev pub raise : {A : Type 0} → BillingError → M A
raise e w = (err e, w)

abbrev pub guard : Bool → BillingError → M (Unit {0})
guard b e w = (if b then ok tt else err e, w)

abbrev pub lift : {A : Type 0} → Result A → M A
lift r w = (r, w)

abbrev pub or_raise : {A : Type 0} → Option A → BillingError → M A
or_raise none e w = (err e, w)
or_raise (some a) e w = (ok a, w)

-- `_ = m`: the error is dropped.
abbrev pub ignore : {A : Type 0} → M A → M (Unit {0})
ignore m w = (ok tt, (m w).1)

abbrev pub fault_of : List Bool → Bool
fault_of [] = false
fault_of (b ∷ bs) = b

abbrev pub rest_of : List Bool → List Bool
rest_of [] = []
rest_of (b ∷ bs) = bs

-- A statement uses up one fault.
abbrev pub tick : World → World
tick w = record w { faults = rest_of w.faults }

-- One statement: the driver refuses it, or it is run whole.
unfoldable pub statement : {A : Type 0} → (Db → Result A × Db) → M A
statement run w =
    let (r, db') = run w.db in
    if fault_of w.faults
    then (err database, tick w)
    else (r, record w { db = db'; faults = rest_of w.faults })

-- `Commit`, or the deferred `Rollback` to the database `saved`.
unfoldable pub commit : {A : Type 0} → Db → Result A × World → Result A × World
commit saved (err e, w) = (err e, record w { db = saved })
commit saved (ok a, w) =
    if fault_of w.faults
    then (err database, record w { db = saved; faults = rest_of w.faults })
    else (ok a, tick w)

-- `Begin`, the statements, and `Commit`; an error on the way rolls the database back.
unfoldable pub transaction : {A : Type 0} → M A → M A
unfolding commit
transaction body w =
    if fault_of w.faults then (err database, tick w) else commit w.db (body (tick w))
