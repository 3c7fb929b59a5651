-- ===== src/Auth/Accounts.antt =====
-- internal/auth/service.go: `Login`, `Setup2FA` and `Logout`.
use vpn_price_public.Base.{
  text_eq_refl, ℕ, ◌≤◌, ◌<◌, ◌≡◌, refl, ◌∙◌, sym, ap, subst, inl, inr, Bool, true, false, not, ◌&&◌,
  some, List, [], ◌∷◌, arith, any, find, update_where, if◌then◌else◌, Bool-cases, Option-cases,
  Text, ltb, ◌==◌, is_empty,
}
use vpn_price_public.Auth.Model.{
  User, Session, TokenPair, invalid_credentials, user_blocked, Outcome, ok, err,
}
use vpn_price_public.Auth.Store.{Site, access, spent, is_refused, guard}
use vpn_price_public.Auth.Repository.{
  get_auth_by_email, has_email, get_user_by_id, set_totp_secret, get_session_by_hash,
  revoke_session,
}
use vpn_price_public.Auth.Totp.{validate_totp}
use vpn_price_public.Auth.Steps.{after-ok, access-ok, guard-true}
use vpn_price_public.Auth.Service.{
  Crypto, login, second_factor, issue_tokens, is_blocked, setup_2fa, logout, blacklist_token,
  end_session, revoke_found, is_blacklisted, holds, blacklist_key,
}

abbrev pub account : Text → User → Bool
account email u = has_email email u && not u.removed

get_auth_by_email-ok :
    (email : Text) (w : Site) {u : User} {v : Site}
    → get_auth_by_email email w ≡ (ok u, v)
    → (find (account email) w.db.users ≡ some u) × (v ≡ spent w)
unfolding get_auth_by_email
get_auth_by_email-ok email w {u} {v} e =
    let h = access-ok _ w e in
    elim (Option-cases (find (account email) w.db.users)) [
      | inl missing ↦ ground arith
      | inr (x, found) ↦ (ground arith, ground arith)
    ]

second_factor-ok :
    (c : Crypto) (u : User) (totp : Text) (w : Site) {a : Unit {0}} {v : Site}
    → second_factor c u totp w ≡ (ok a, v)
    → u.totp_enabled ≡ true
    → validate_totp c.decode_base32 c.hmac_sha1 w.now u.totp_secret totp ≡ true
unfolding second_factor
second_factor-ok c u totp w {a} {v} e on =
    elim (Bool-cases (validate_totp c.decode_base32 c.hmac_sha1 w.now u.totp_secret totp)) [
      | inl valid ↦ valid
      | inr wrong ↦ ground arith
    ]

-- If a login succeeds, whatever accesses are refused, it is into the account found by the email,
-- the password matches, the account is not blocked, and the second factor is valid at the time if
-- it is enabled.
pub login_lem :
    (c : Crypto) (email password totp : Text) (w : Site) {u : User} {pair : TokenPair} {v : Site}
    → login c email password totp w ≡ (ok (u, pair), v)
    → (find (account email) w.db.users ≡ some u)
      × (c.check_password u.password_hash password ≡ true)
      × (is_blocked u.status ≡ false)
      × (u.totp_enabled ≡ true
          → validate_totp c.decode_base32 c.hmac_sha1 w.now u.totp_secret totp ≡ true)
unfolding login
login_lem c email password totp w {u} {pair} {v} e =
    let (u0, w1, loading, e1) = after-ok (get_auth_by_email email w) _ e in
    let (found, same) = get_auth_by_email-ok email w loading in
    let (_, w2, g1, e2) =
      after-ok
        (guard (not (is_empty u0.password_hash) && c.check_password u0.password_hash password)
          invalid_credentials w1)
        _ e1 in
    let (matches, s2) =
      guard-true (not (is_empty u0.password_hash) && c.check_password u0.password_hash password)
        invalid_credentials w1 g1 in
    let (_, w3, g2, e3) = after-ok (guard (not (is_blocked u0.status)) user_blocked w2) _ e2 in
    let (free, s3) = guard-true (not (is_blocked u0.status)) user_blocked w2 g2 in
    let (_, w4, g3, e4) = after-ok (second_factor c u0 totp w3) _ e3 in
    let (pair0, w5, issuing, e5) = after-ok (issue_tokens c u0 w4) _ e4 in
    let same_user : u0 ≡ u = ground arith in
    let same_time : w3.now ≡ w.now = ap (λ (x : Site). x.now) (s3 ∙ s2 ∙ same) in
    subst
      (λ (x : User).
        (find (account email) w.db.users ≡ some x)
        × (c.check_password x.password_hash password ≡ true)
        × (is_blocked x.status ≡ false)
        × (x.totp_enabled ≡ true
            → validate_totp c.decode_base32 c.hmac_sha1 w.now x.totp_secret totp ≡ true))
      same_user
      (
        found,
        ground arith,
        ground arith,
        λ on.
            subst
              (λ (t : ℕ). validate_totp c.decode_base32 c.hmac_sha1 t u0.totp_secret totp ≡ true)
              same_time (second_factor-ok c u0 totp w3 g3 on),
      )

abbrev pub guarded : ℕ → User → Bool
guarded id u = u.id == id && u.totp_enabled

none-guarded :
    (id : ℕ) (secret : Text) (rows : List User)
    → any (guarded id) (
        update_where
          (λ (u : User). u.id == id)
          (λ (u : User). record u { totp_secret = secret; totp_enabled = false })
          rows)
      ≡ false
none-guarded id secret [] = refl
none-guarded id secret (r ∷ rows) = ground (arith, none-guarded id secret rows)

set_totp_secret-ok :
    (id : ℕ) (secret : Text) (w : Site) {a : Unit {0}} {v : Site}
    → set_totp_secret id secret w ≡ (ok a, v)
    → any (guarded id) v.db.users ≡ false
unfolding set_totp_secret
set_totp_secret-ok id secret w {a} {v} e =
    let h = access-ok _ w e in
    subst (λ (x : Site). any (guarded id) x.db.users ≡ false)
      (ap (λ (r : Outcome (Unit {0}) × Site). r.1) h) (none-guarded id secret w.db.users)

-- If Setup2FA succeeds, whatever accesses are refused, the second factor of the account is off,
-- also if it was on before.
pub setup_2fa-guarded :
    (c : Crypto) (id : ℕ) (w : Site) {secret : Text} {v : Site}
    → setup_2fa c id w ≡ (ok secret, v)
    → any (guarded id) v.db.users ≡ false
unfolding setup_2fa
setup_2fa-guarded c id w {secret} {v} e =
    let (u, w1, reading, e1) = after-ok (get_user_by_id id w) _ e in
    let (_, w2, writing, e2) = after-ok (set_totp_secret id _ _) _ e1 in
    let same : w2 ≡ v = ap (λ (r : Outcome Text × Site). r.1) e2 in
    subst (λ (x : Site). any (guarded id) x.db.users ≡ false) same
      (set_totp_secret-ok id _ _ writing)

blacklist_token-ok :
    (c : Crypto) (jti : Text) (expiry t : ℕ) (w : Site) {a : Unit {0}} {v : Site}
    → blacklist_token c jti expiry w ≡ (ok a, v)
    → w.now ≤ t
    → t < expiry
    → any (holds t (blacklist_key jti)) v.blacklist ≡ true
unfolding blacklist_token
blacklist_token-ok c jti expiry t w {a} {v} e past running = elim (Bool-cases (ltb w.now expiry)) [
  | inl valid ↦
      let set =
        subst
          (λ (b : Bool).
            (if b
              then access
                  (λ (x : Site).
                    (ok tt, record x { blacklist = (blacklist_key jti, expiry) ∷ x.blacklist }))
                  w
              else (ok tt, w))
            ≡ (ok a, v))
          valid e in
      let h = access-ok _ w set in
      subst (λ (x : Site). any (holds t (blacklist_key jti)) x.blacklist ≡ true)
        (ap (λ (r : Outcome (Unit {0}) × Site). r.1) h)
        (ground (arith, text_eq_refl (blacklist_key jti)))
  | inr over ↦ ground arith
]

access-blacklist :
    {A : Type 0} (run : Site → Outcome A × Site) (w : Site)
    → ((x : Site) → (run x).1.blacklist ≡ x.blacklist)
    → (access run w).1.blacklist ≡ w.blacklist
unfolding access
access-blacklist run w h = elim (Bool-cases (is_refused w.refused)) [
  | inl failed ↦ rw failed refl
  | inr served ↦ rw served (h (spent w))
]

get_session_by_hash-blacklist :
    (hash : Text) (w : Site) → (get_session_by_hash hash w).1.blacklist ≡ w.blacklist
unfolding get_session_by_hash
get_session_by_hash-blacklist hash w = access-blacklist _ w (λ x. refl)

revoke_session-blacklist : (id : ℕ) (w : Site) → (revoke_session id w).1.blacklist ≡ w.blacklist
unfolding revoke_session
revoke_session-blacklist id w = access-blacklist _ w (λ x. refl)

revoke_found-blacklist :
    (c : Crypto) (o : Outcome Session) (w : Site) → (revoke_found c o w).1.blacklist ≡ w.blacklist
revoke_found-blacklist c (ok s) w = revoke_session-blacklist s.id w
revoke_found-blacklist c (err e) w = refl

end_session-blacklist :
    (c : Crypto) (token : Text) (w : Site) → (end_session c token w).1.blacklist ≡ w.blacklist
unfolding end_session
end_session-blacklist c token w = elim (Bool-cases (is_empty token)) [
  | inl none_given ↦ rw none_given refl
  | inr given ↦ rw given (
      let found = get_session_by_hash (c.hash_token token) w in
      revoke_found-blacklist c found.0 found.1
      ∙ get_session_by_hash-blacklist (c.hash_token token) w)
]

-- If a logout succeeds, whatever other accesses are refused, the access token is answered as
-- blacklisted at any later time before its expiry, if Redis can be read.
pub logout-is_blacklisted :
    (c : Crypto) (jti : Text) (expiry : ℕ) (token : Text) (w : Site) (t : ℕ) {a : Unit {0}}
    {v : Site}
    → logout c jti expiry token w ≡ (ok a, v)
    → w.now ≤ t
    → t < expiry
    → (is_blacklisted c jti (record v { now = t; refused = [] })).0 ≡ ok true
unfolding logout is_blacklisted access
logout-is_blacklisted c jti expiry token w t {a} {v} e past running =
    let (_, w1, listed, ended) = after-ok (blacklist_token c jti expiry w) _ e in
    let there = blacklist_token-ok c jti expiry t w listed past running in
    let same : v.blacklist ≡ w1.blacklist =
      ap (λ (r : Outcome (Unit {0}) × Site). r.1.blacklist) (sym ended)
      ∙ end_session-blacklist c token w1 in
    ap ok
      (subst (λ (l : List (Text × ℕ)). any (holds t (blacklist_key jti)) l ≡ true) (sym same) there)
