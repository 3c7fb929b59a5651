-- ===== src/Auth/Model.antt =====
-- internal/auth/model.go and the rows of the tables users and user_sessions. Identifiers are
-- numbers, times are seconds.
use vpn_price_public.Base.{ℕ, Bool, Option, Text}

pub data Status : Type 0 where
  active pending blocked deleted : Status

-- `removed` says that `deleted_at` is set; `password_hash` and `totp_secret` are as COALESCE
-- returns them, empty for NULL.
pub record User : Type 0 where
  pub id : ℕ
  pub email : Option Text
  pub telegram_id : Option ℕ
  pub role : Text
  pub status : Status
  pub removed : Bool
  pub password_hash : Text
  pub totp_secret : Text
  pub totp_enabled : Bool

pub record Session : Type 0 where
  pub id : ℕ
  pub user_id : ℕ
  pub token_hash : Text
  pub expires_at : ℕ
  pub revoked_at : Option ℕ

pub record TokenPair : Type 0 where
  pub access_token : Text
  pub refresh_token : Text
  pub expires_at : ℕ

pub data AuthError : Type 0 where
  email_taken invalid_credentials user_blocked invalid_token session_revoked : AuthError
  telegram_signature not_found two_factor_required invalid_totp totp_not_setup : AuthError
  weak_password : AuthError  -- ValidatePassword
  telegram_refused : AuthError  -- login by Telegram is not configured, or the data has expired
  store_failed : AuthError  -- the database or Redis reported an error

pub data Outcome {ℓ} (A : Type ℓ) : Type ℓ where
  ok : A → Outcome A
  err : AuthError → Outcome A
