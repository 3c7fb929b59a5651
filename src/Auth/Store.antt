-- ===== src/Auth/Store.antt =====
-- The accounts and sessions in the database, the blacklist in Redis, and actions on them that may
-- fail at every access.
use vpn_price_public.Base.{ℕ, suc, Bool, false, List, [], ◌∷◌, if◌then◌else◌, Text}
use vpn_price_public.Auth.Model.{User, Session, AuthError, store_failed, Outcome, ok, err}

pub record AuthDb : Type 0 where
  pub users : List User
  pub sessions : List Session
  pub next_id : ℕ

-- `refused` says of the accesses to come which fail. `drawn` counts the draws of random values.
-- `blacklist` holds the keys in Redis with the time at which they go.
pub record Site : Type 0 where
  pub db : AuthDb
  pub blacklist : List (Text × ℕ)
  pub refused : List Bool
  pub now : ℕ
  pub drawn : ℕ

abbrev pub Act : Type 0 → Type 0
Act A = Site → Outcome A × Site

abbrev pub after : {A B : Type 0} → Outcome A × Site → (A → Act B) → Outcome B × Site
after (ok a, w) f = f a w
after (err e, w) f = (err e, w)

infixl 5 ◌>>=◌ ◌>>◌
abbrev pub ◌>>=◌ : {A B : Type 0} → Act A → (A → Act B) → Act B
◌>>=◌ m f w = after (m w) f

abbrev pub ◌>>◌ : {A B : Type 0} → Act A → Act B → Act B
m >> k = m >>= λ _. k

abbrev pub pure : {A : Type 0} → A → Act A
pure a w = (ok a, w)

abbrev pub raise : {A : Type 0} → AuthError → Act A
raise e w = (err e, w)

abbrev pub guard : Bool → AuthError → Act (Unit {0})
guard b e w = (if b then ok tt else err e, w)

-- `_ = m`
abbrev pub ignore : {A : Type 0} → Act A → Act (Unit {0})
ignore m w = (ok tt, (m w).1)

abbrev pub clock : Act ℕ
clock w = (ok w.now, w)

-- A fresh random value, by its number.
abbrev pub draw : Act ℕ
draw w = (ok w.drawn, record w { drawn = suc w.drawn })

abbrev pub is_refused : List Bool → Bool
is_refused [] = false
is_refused (b ∷ bs) = b

abbrev pub later : List Bool → List Bool
later [] = []
later (b ∷ bs) = bs

abbrev pub spent : Site → Site
spent w = record w { refused = later w.refused }

-- One access: it fails, or is done whole.
unfoldable pub access : {A : Type 0} → (Site → Outcome A × Site) → Act A
access run w =
    let done = run (spent w) in if is_refused w.refused then (err store_failed, spent w) else done

abbrev pub with_db : Site → AuthDb → Site
with_db w db = record w { db = db }

unfoldable pub finish : {A : Type 0} → AuthDb → Outcome A × Site → Outcome A × Site
finish saved (err e, w) = (err e, with_db w saved)
finish saved (ok a, w) =
    if is_refused w.refused then (err store_failed, with_db (spent w) saved) else (ok a, spent w)

-- `Begin`, the statements and `Commit`; an error on the way rolls the database back.
unfoldable pub transaction : {A : Type 0} → Act A → Act A
unfolding finish
transaction body w =
    if is_refused w.refused then (err store_failed, spent w) else finish w.db (body (spent w))
