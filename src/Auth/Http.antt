-- ===== src/Auth/Http.antt =====
-- internal/auth/middleware.go and handler.go: the middleware and the handlers behind it. The
-- decoding of JSON, of tokens and of identifiers is a parameter; headers are ASCII.
use vpn_price_public.Base.{
  ℕ, Bool, true, false, Option, none, some, List, [], ◌∷◌, ◌==◌, any, if◌then◌else◌, Text, codes,
  text_eq, is_empty, lower, trim_space,
}
use vpn_price_public.Auth.Model.{
  TokenPair, AuthError, email_taken, invalid_credentials, user_blocked, two_factor_required,
  invalid_totp, totp_not_setup, session_revoked, invalid_token, telegram_signature, not_found,
  Outcome, ok, err,
}
use vpn_price_public.Auth.Store.{Site, Act}
use vpn_price_public.Auth.Service.{
  Crypto, setup_2fa, enable_2fa, disable_2fa, refresh, logout, is_blacklisted,
}

pub record Claims : Type 0 where
  pub subject : Text
  pub jti : Text
  pub role : Text
  pub expires_at : Option ℕ

pub record Principal : Type 0 where
  pub user_id : ℕ
  pub role : Text
  pub jti : Text
  pub expires_at : ℕ

-- `principal` is what the context of the request holds.
pub record Request : Type 0 where
  pub authorization : Text
  pub body : Text
  pub principal : Option Principal

-- The bodies of answers. `domain e` is the text of an error.
pub data Content : Type 0 where
  message : Text → Content
  domain : AuthError → Content
  status : Text → Content
  secret : Text → Content
  tokens : TokenPair → Content

pub record Response : Type 0 where
  pub code : ℕ
  pub content : Content

abbrev pub Answer : Type 0
Answer = Site → Response × Site

abbrev pub Handler : Type 0
Handler = Request → Answer

-- Libraries: the check of a JWT at a time, `uuid.Parse`, and the decoding of the string field of
-- that name, strict as in `decode` or with errors left aside as in `logout`.
pub record Codec : Type 0 where
  pub parse_access : ℕ → Text → Option Claims
  pub parse_uuid : Text → Option ℕ
  pub decode : Text → Text → Option Text
  pub decode_loosely : Text → Text → Text

abbrev pub reply : ℕ → Content → Response
reply n c = record { code = n; content = c }

abbrev pub write_error : ℕ → Text → Response
write_error n text = reply n (message text)

-- The rest of a text behind a prefix, which is compared without case.
abbrev pub after_prefix : Text → Text → Option Text
after_prefix [] s = some s
after_prefix (c ∷ p) [] = none
after_prefix (c ∷ p) (d ∷ s) = if lower c == lower d then after_prefix p s else none

abbrev pub trimmed_or_empty : Option Text → Text
trimmed_or_empty none = []
trimmed_or_empty (some s) = trim_space s

unfoldable pub bearer_token : Request → Text
bearer_token r = trimmed_or_empty (after_prefix (codes "Bearer ") r.authorization)

-- The zero time is before every clock.
abbrev pub expiry_of : Option ℕ → ℕ
expiry_of none = 0
expiry_of (some t) = t

abbrev pub principal_of : Claims → ℕ → Principal
principal_of claims uid = record {
  user_id = uid;
  role = claims.role;
  jti = claims.jti;
  expires_at = expiry_of claims.expires_at;
}

abbrev pub with_principal : Request → Principal → Request
with_principal r p = record r { principal = some p }

-- The parts of `Authenticate` that follow the reading of the subject, of the blacklist and of the
-- token.
abbrev pub admit : Handler → Request → Claims → Option ℕ → Answer
admit next r claims none w = (write_error 401 (codes "invalid subject"), w)
admit next r claims (some uid) w = next (with_principal r (principal_of claims uid)) w

abbrev pub unless_revoked : Codec → Handler → Request → Claims → Outcome Bool → Answer
unless_revoked v next r claims (err e) w = (write_error 503 (codes "auth backend unavailable"), w)
unless_revoked v next r claims (ok true) w = (write_error 401 (codes "token revoked"), w)
unless_revoked v next r claims (ok false) w = admit next r claims (v.parse_uuid claims.subject) w

abbrev pub with_claims : Crypto → Codec → Handler → Request → Option Claims → Answer
with_claims c v next r none w = (write_error 401 (codes "invalid token"), w)
with_claims c v next r (some claims) w =
    let seen = is_blacklisted c claims.jti w in unless_revoked v next r claims seen.0 seen.1

unfoldable pub authenticate : Crypto → Codec → Handler → Handler
authenticate c v next r w =
    let parsed = v.parse_access w.now (bearer_token r) in
    if is_empty (bearer_token r)
    then (write_error 401 (codes "missing bearer token"), w)
    else with_claims c v next r parsed w

abbrev pub allowing : List Text → Handler → Request → Option Principal → Answer
allowing roles next r none w = (write_error 401 (codes "unauthenticated"), w)
allowing roles next r (some p) w =
    if any (text_eq p.role) roles
    then next r w
    else (write_error 403 (codes "insufficient role"), w)

unfoldable pub require_role : List Text → Handler → Handler
require_role roles next r w = allowing roles next r r.principal w

-- The status of an error; what is not listed is answered as a bad request.
unfoldable pub domain_code : AuthError → ℕ
domain_code email_taken = 409
domain_code invalid_credentials = 401
domain_code user_blocked = 403
domain_code session_revoked = 401
domain_code invalid_token = 401
domain_code telegram_signature = 401
domain_code two_factor_required = 401
domain_code invalid_totp = 401
domain_code totp_not_setup = 400
domain_code not_found = 404
domain_code _ = 400

abbrev pub respond : {A : Type 0} → (A → Response) → Outcome A × Site → Response × Site
respond f (ok a, w) = (f a, w)
respond f (err e, w) = (reply (domain_code e) (domain e), w)

abbrev pub decoded : Option Text → (Text → Answer) → Answer
decoded none f w = (write_error 400 (codes "invalid request body"), w)
decoded (some s) f w = f s w

-- `p, _ := PrincipalFromContext`: the zero value without a principal.
abbrev pub principal_or_zero : Option Principal → Principal
principal_or_zero none = record { user_id = 0; role = []; jti = []; expires_at = 0 }
principal_or_zero (some p) = p

unfoldable pub two_fa_setup : Crypto → Handler
two_fa_setup c r w =
    respond (λ (s : Text). reply 200 (secret s))
      (setup_2fa c (principal_or_zero r.principal).user_id w)

unfoldable pub two_fa_op : Codec → (ℕ → Text → Act (Unit {0})) → Text → Handler
two_fa_op v op done r = decoded (v.decode (codes "code") r.body) (λ (code : Text) (w : Site).
    respond (λ (u : Unit {0}). reply 200 (status done))
      (op (principal_or_zero r.principal).user_id code w))

unfoldable pub two_fa_enable : Crypto → Codec → Handler
unfolding two_fa_op
two_fa_enable c v = two_fa_op v (enable_2fa c) (codes "enabled")

unfoldable pub two_fa_disable : Crypto → Codec → Handler
unfolding two_fa_op
two_fa_disable c v = two_fa_op v (disable_2fa c) (codes "disabled")

unfoldable pub refresh_handler : Crypto → Codec → Handler
refresh_handler c v r =
    decoded (v.decode (codes "refresh_token") r.body) (λ (token : Text) (w : Site).
      if is_empty token
      then (write_error 400 (codes "refresh_token is required"), w)
      else respond (λ (p : TokenPair). reply 200 (tokens p)) (refresh c token w))

abbrev pub logged_out : Outcome (Unit {0}) × Site → Response × Site
logged_out (ok _, w) = (reply 200 (status (codes "logged_out")), w)
logged_out (err e, w) = (write_error 500 (codes "logout failed"), w)

abbrev pub logout_of : Crypto → Text → Option Principal → Answer
logout_of c token none w = (write_error 401 (codes "unauthenticated"), w)
logout_of c token (some p) w = logged_out (logout c p.jti p.expires_at token w)

unfoldable pub logout_handler : Crypto → Codec → Handler
logout_handler c v r w = logout_of c (v.decode_loosely (codes "refresh_token") r.body) r.principal w

-- The route of logout, as `RegisterRoutes` mounts it.
unfoldable pub logout_route : Crypto → Codec → Handler
unfolding authenticate logout_handler
logout_route c v = authenticate c v (logout_handler c v)
