-- ===== src/Auth/Repository.antt =====
-- internal/auth/repository.go, statement by statement.
use vpn_price_public.Base.{
  ℕ, suc, Bool, true, false, not, ◌&&◌, Option, none, some, [], ◌∷◌, ◌==◌, any, find, update_where,
  if◌then◌else◌, Text, text_eq, citext_eq, is_empty,
}
use vpn_price_public.Auth.Model.{
  User, Session, AuthError, invalid_credentials, session_revoked, not_found, store_failed, Outcome,
  ok, err,
}
use vpn_price_public.Auth.Store.{AuthDb, Act, access, with_db}

abbrev pub found_or : {A : Type 0} → AuthError → Option A → Outcome A
found_or e none = err e
found_or e (some a) = ok a

abbrev pub read : {A : Type 0} → (AuthDb → Outcome A) → Act A
read f = access λ w. (f w.db, w)

abbrev pub write : (AuthDb → AuthDb) → Act (Unit {0})
write f = access λ w. (ok tt, with_db w (f w.db))

abbrev pub has_email : Text → User → Bool
has_email email u = elim u.email [ none ↦ false | some e ↦ citext_eq e email ]

abbrev pub has_telegram_id : ℕ → User → Bool
has_telegram_id t u = elim u.telegram_id [ none ↦ false | some i ↦ i == t ]

unfoldable pub get_auth_by_email : Text → Act User
get_auth_by_email email = read λ db.
    found_or invalid_credentials (find (λ (u : User). has_email email u && not u.removed) db.users)

abbrev pub live_user : ℕ → User → Bool
live_user id u = u.id == id && not u.removed

unfoldable pub get_user_by_id : ℕ → Act User
get_user_by_id id = read λ db. found_or not_found (find (live_user id) db.users)

unfoldable pub get_user_by_telegram_id : ℕ → Act User
get_user_by_telegram_id t =
    read
      λ db. found_or not_found (find (λ (u : User). has_telegram_id t u && not u.removed) db.users)

abbrev pub user_id_is : ℕ → User → Bool
user_id_is id u = u.id == id

unfoldable pub set_totp_secret : ℕ → Text → Act (Unit {0})
set_totp_secret id secret = write λ db. record db {
  users =
      update_where (user_id_is id)
        (λ (u : User). record u { totp_secret = secret; totp_enabled = false }) db.users;
}

unfoldable pub enable_totp : ℕ → Act (Unit {0})
enable_totp id = write λ db. record db {
  users =
      update_where (λ (u : User). u.id == id && not (is_empty u.totp_secret))
        (λ (u : User). record u { totp_enabled = true }) db.users;
}

unfoldable pub disable_totp : ℕ → Act (Unit {0})
disable_totp id = write λ db. record db {
  users =
      update_where (user_id_is id)
        (λ (u : User). record u { totp_secret = []; totp_enabled = false }) db.users;
}

abbrev totp_of : Option User → Outcome (Text × Bool)
totp_of none = err not_found
totp_of (some u) = ok (u.totp_secret, u.totp_enabled)

unfoldable pub get_totp : ℕ → Act (Text × Bool)
get_totp id = read λ db. totp_of (find (live_user id) db.users)

abbrev pub has_hash : Text → Session → Bool
has_hash hash s = text_eq s.token_hash hash

-- `token_hash` is unique.
unfoldable pub create_session : ℕ → Text → ℕ → Act ℕ
create_session user hash expires = access λ w.
    let row : Session = record {
      id = w.db.next_id;
      user_id = user;
      token_hash = hash;
      expires_at = expires;
      revoked_at = none;
    } in
    if any (has_hash hash) w.db.sessions then (err store_failed, w) else (
      ok w.db.next_id,
      with_db w (record w.db { sessions = row ∷ w.db.sessions; next_id = suc w.db.next_id }),
    )

unfoldable pub get_session_by_hash : Text → Act Session
get_session_by_hash hash = read λ db. found_or session_revoked (find (has_hash hash) db.sessions)

abbrev pub is_live : Session → Bool
is_live s = elim s.revoked_at [ none ↦ true | some t ↦ false ]

abbrev pub revoked : ℕ → Session → Session
revoked now s = record s { revoked_at = some now }

abbrev pub live_session : ℕ → Session → Bool
live_session id s = s.id == id && is_live s

abbrev pub session_of : ℕ → Session → Bool
session_of user s = s.user_id == user && is_live s

unfoldable pub revoke_session : ℕ → Act (Unit {0})
revoke_session id = access λ w. (
  ok tt,
  with_db w
      (record w.db { sessions = update_where (live_session id) (revoked w.now) w.db.sessions }),
)

unfoldable pub revoke_all_user_sessions : ℕ → Act (Unit {0})
revoke_all_user_sessions user = access λ w. (
  ok tt,
  with_db w
      (record w.db { sessions = update_where (session_of user) (revoked w.now) w.db.sessions }),
)
