-- ===== src/Auth/Service.antt =====
-- internal/auth/service.go: logging in, two-factor codes, rotation of refresh tokens, logging out.
use vpn_price_public.Base.{
  ℕ, ◌+◌, Bool, true, false, not, ◌&&◌, Option, ◌∷◌, ◌++◌, ltb, any, if◌then◌else◌, Text, codes,
  text_eq, is_empty,
}
use vpn_price_public.Auth.Model.{
  User, Status, Session, TokenPair, invalid_credentials, user_blocked, two_factor_required,
  invalid_totp, totp_not_setup, session_revoked, Outcome, ok, err,
}
use vpn_price_public.Auth.Store.{Site, Act, ◌>>=◌, ◌>>◌, pure, guard, ignore, clock, draw, access}
use vpn_price_public.Auth.Repository.{
  get_auth_by_email, get_user_by_id, set_totp_secret, enable_totp, disable_totp, get_totp,
  create_session, get_session_by_hash, revoke_session, revoke_all_user_sessions, is_live,
}
use vpn_price_public.Auth.Totp.{validate_totp}

-- The cryptography that the service uses, and its settings. `jti` and `token` are the random
-- identifiers and tokens by the number of their draw; `sign_access` makes the JWT of a user, a
-- role, an identifier, the time of issue and the expiry.
pub record Crypto : Type 0 where
  pub check_password : Text → Text → Bool
  pub jti : ℕ → Text
  pub token : ℕ → Text
  pub hash_token : Text → Text
  pub sign_access : ℕ → Text → Text → ℕ → ℕ → Text
  pub secret : ℕ → Text
  pub decode_base32 : Text → Option Text
  pub hmac_sha1 : Text → Text → Text
  pub access_ttl : ℕ
  pub refresh_ttl : ℕ

abbrev pub is_blocked : Status → Bool
is_blocked Status.blocked = true
is_blocked _ = false

abbrev pub blacklist_key : Text → Text
blacklist_key jti = codes "auth:bl:" ++ jti

abbrev pub holds : ℕ → Text → Text × ℕ → Bool
holds now key entry = text_eq entry.0 key && ltb now entry.1

module _ (c : Crypto) where
  unfoldable pub issue_tokens : User → Act TokenPair
  issue_tokens u = do
    now ← clock
    i ← draw
    j ← draw
    create_session u.id (c.hash_token (c.token j)) (now + c.refresh_ttl)
    pure (record {
      access_token = c.sign_access u.id u.role (c.jti i) now (now + c.access_ttl);
      refresh_token = c.token j;
      expires_at = now + c.access_ttl;
    })

  -- The second factor of `Login`.
  unfoldable pub second_factor : User → Text → Act (Unit {0})
  second_factor u totp w =
      if u.totp_enabled
      then (if is_empty totp
          then (err two_factor_required, w)
          else (if validate_totp c.decode_base32 c.hmac_sha1 w.now u.totp_secret totp
              then (ok tt, w)
              else (err invalid_totp, w)))
      else (ok tt, w)

  unfoldable pub login : Text → Text → Text → Act (User × TokenPair)
  unfolding second_factor issue_tokens
  login email password totp = do
    u ← get_auth_by_email email
    guard (not (is_empty u.password_hash) && c.check_password u.password_hash password)
        invalid_credentials
    guard (not (is_blocked u.status)) user_blocked
    second_factor u totp
    pair ← issue_tokens u
    pure (u, pair)

  -- `Setup2FA`: the new secret.
  unfoldable pub setup_2fa : ℕ → Act Text
  setup_2fa id = do
    u ← get_user_by_id id
    n ← draw
    set_totp_secret id (c.secret n)
    pure (c.secret n)

  unfoldable pub enable_2fa : ℕ → Text → Act (Unit {0})
  enable_2fa id code = do
    totp ← get_totp id
    guard (not (is_empty totp.0)) totp_not_setup
    now ← clock
    guard (validate_totp c.decode_base32 c.hmac_sha1 now totp.0 code) invalid_totp
    enable_totp id

  unfoldable pub disable_2fa : ℕ → Text → Act (Unit {0})
  disable_2fa id code = do
    totp ← get_totp id
    guard (totp.1 && not (is_empty totp.0)) totp_not_setup
    now ← clock
    guard (validate_totp c.decode_base32 c.hmac_sha1 now totp.0 code) invalid_totp
    disable_totp id

  -- The part of `Refresh` that follows the checks of the session.
  unfoldable pub rotate : Session → Act TokenPair
  unfolding issue_tokens
  rotate s = do
    revoke_session s.id
    u ← get_user_by_id s.user_id
    guard (not (is_blocked u.status)) user_blocked
    issue_tokens u

  unfoldable pub refresh_session : Session → Act TokenPair
  unfolding rotate
  refresh_session s w =
      if is_live s
      then (if ltb s.expires_at w.now then (err session_revoked, w) else rotate s w)
      else (err session_revoked, (revoke_all_user_sessions s.user_id w).1)

  unfoldable pub refresh : Text → Act TokenPair
  unfolding refresh_session
  refresh token = do s ← get_session_by_hash (c.hash_token token); refresh_session s

  abbrev pub revoke_found : Outcome Session → Act (Unit {0})
  revoke_found (ok s) = ignore (revoke_session s.id)
  revoke_found (err e) = pure tt

  unfoldable pub end_session : Text → Act (Unit {0})
  end_session token w =
      let found = get_session_by_hash (c.hash_token token) w in
      if is_empty token then (ok tt, w) else revoke_found found.0 found.1

  -- `redis.Set` of the key until the token expires
  unfoldable pub blacklist_token : Text → ℕ → Act (Unit {0})
  blacklist_token jti expiry w =
      let set =
        access
          (λ (v : Site).
            (ok tt, record v { blacklist = (blacklist_key jti, expiry) ∷ v.blacklist }))
          w in
      if ltb w.now expiry then set else (ok tt, w)

  unfoldable pub logout : Text → ℕ → Text → Act (Unit {0})
  unfolding end_session blacklist_token
  logout jti expiry token = do blacklist_token jti expiry; end_session token

  unfoldable pub is_blacklisted : Text → Act Bool
  is_blacklisted jti = access λ w. (ok (any (holds w.now (blacklist_key jti)) w.blacklist), w)
