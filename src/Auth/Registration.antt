-- ===== src/Auth/Registration.antt =====
-- internal/auth: new accounts, by password and by Telegram.
use vpn_price_public.Base.{
  ℕ, suc, ◌+◌, ◌≡◌, ◌∙◌, ap, subst, Bool, true, false, not, ◌&&◌, ◌||◌, Option, none, some, [], ◌∷◌,
  ◌++◌, arith, any, if◌then◌else◌, Text, codes, text_eq, is_empty, is_digit, length, leb, map,
  decimal, lower,
}
use vpn_price_public.Auth.Model.{
  User, Status, TokenPair, AuthError, email_taken, user_blocked, telegram_signature, not_found,
  weak_password, store_failed, telegram_refused, Outcome, ok, err,
}
use vpn_price_public.Auth.Store.{
  Site, Act, ◌>>=◌, ◌>>◌, pure, guard, access, with_db, transaction, clock,
}
use vpn_price_public.Auth.Repository.{has_email, has_telegram_id, get_user_by_telegram_id}
use vpn_price_public.Auth.Steps.{after-ok, guard-true}
use vpn_price_public.Auth.Service.{Crypto, issue_tokens, is_blocked}

abbrev pub min_password_length : ℕ
min_password_length = 12

abbrev pub is_upper : ℕ → Bool
is_upper c = leb b'A' c && leb c b'Z'

abbrev pub is_lower : ℕ → Bool
is_lower c = leb b'a' c && leb c b'z'

-- unicode.IsPunct or unicode.IsSymbol of an ASCII character
abbrev pub is_special : ℕ → Bool
is_special c = leb 33 c && (leb c 126 && not (is_upper c || (is_lower c || is_digit c)))

-- `ValidatePassword`, of a password in ASCII
unfoldable pub password_valid : Text → Bool
password_valid pw =
    leb min_password_length (length pw)
    && (any is_upper pw && (any is_lower pw && (any is_digit pw && any is_special pw)))

abbrev pub new_user : ℕ → Option Text → Option ℕ → Text → User
new_user id email telegram hash = record {
  id = id;
  email = email;
  telegram_id = telegram;
  role = codes "user";
  status = Status.active;
  removed = false;
  password_hash = hash;
  totp_secret = [];
  totp_enabled = false;
}

-- `INSERT INTO users`, with the unique column tested by `clash`
unfoldable pub insert_user : (User → Bool) → AuthError → (ℕ → User) → Act User
insert_user clash e make = access λ w. if any clash w.db.users then (err e, w) else (
  ok (make w.db.next_id),
  with_db w (record w.db { users = make w.db.next_id ∷ w.db.users; next_id = suc w.db.next_id }),
)

-- The row of the profile is not modelled, only that its insert may be refused.
unfoldable pub insert_profile : Act (Unit {0})
insert_profile = access λ w. (ok tt, w)

unfoldable pub create_user_with_password : Text → Text → Act User
unfolding insert_user insert_profile transaction
create_user_with_password email hash = transaction (do
  u ← insert_user (has_email email) email_taken (λ id. new_user id (some email) none hash)
  insert_profile
  pure u)

unfoldable pub create_telegram_user : ℕ → Act User
unfolding insert_user insert_profile transaction
create_telegram_user t = transaction (do
  u ← insert_user (has_telegram_id t) store_failed (λ id. new_user id none (some t) [])
  insert_profile
  pure u)

-- `Register`; `hash_password` is bcrypt.
unfoldable pub register : Crypto → (Text → Text) → Text → Text → Act (User × TokenPair)
unfolding create_user_with_password
register c hash_password email password = do
  guard (password_valid password) weak_password
  u ← create_user_with_password email (hash_password password)
  pair ← issue_tokens c u
  pure (u, pair)

abbrev pub or_create : ℕ → Outcome User × Site → Outcome User × Site
or_create t (err not_found, w) = create_telegram_user t w
or_create t (ok u, w) = (ok u, w)
or_create t (err e, w) = (err e, w)

unfoldable pub ensure_telegram_user : ℕ → Act User
unfolding create_telegram_user
ensure_telegram_user t w = or_create t (get_user_by_telegram_id t w)

pub record TelegramAuth : Type 0 where
  pub id : ℕ
  pub first_name : Text
  pub last_name : Text
  pub username : Text
  pub photo_url : Text
  pub auth_date : ℕ
  pub hash : Text

-- A line of the check string, left out for an empty value.
abbrev pub field_line : Text → Text → Text
field_line key [] = []
field_line key (c ∷ s) = 10 ∷ (key ++ b'=' ∷ c ∷ s)

-- The pairs by their sorted keys, `auth_date` first.
unfoldable pub check_string : TelegramAuth → Text
check_string a =
    codes "auth_date="
    ++ (decimal a.auth_date
        ++ (field_line (codes "first_name") a.first_name
            ++ (10
                ∷ (codes "id="
                    ++ (decimal a.id
                        ++ (field_line (codes "last_name") a.last_name
                            ++ (field_line (codes "photo_url") a.photo_url
                                ++ field_line (codes "username") a.username)))))))

abbrev pub max_telegram_auth_age : ℕ
max_telegram_auth_age = 86400

-- `VerifyTelegramAuth`; `hmac_hex` is the hex text of the HMAC-SHA256 of a text under the SHA-256
-- sum of the bot's token.
unfoldable pub verify_telegram_auth : (Text → Text → Text) → Text → TelegramAuth → Act (Unit {0})
unfolding check_string
verify_telegram_auth hmac_hex bot_token a = do
  guard (not (is_empty bot_token)) telegram_refused
  guard (not (is_empty a.hash)) telegram_signature
  now ← clock
  guard (leb now (a.auth_date + max_telegram_auth_age)) telegram_refused
  guard (text_eq (hmac_hex bot_token (check_string a)) (map lower a.hash)) telegram_signature

unfoldable pub telegram_login :
    Crypto → (Text → Text → Text) → Text → TelegramAuth → Act (User × TokenPair)
unfolding verify_telegram_auth ensure_telegram_user
telegram_login c hmac_hex bot_token a = do
  verify_telegram_auth hmac_hex bot_token a
  u ← ensure_telegram_user a.id
  guard (not (is_blocked u.status)) user_blocked
  pair ← issue_tokens c u
  pure (u, pair)

verify_telegram_auth-ok :
    (hmac_hex : Text → Text → Text) (bot_token : Text) (a : TelegramAuth) (w : Site) {u : Unit {0}}
    {v : Site}
    → verify_telegram_auth hmac_hex bot_token a w ≡ (ok u, v)
    → (is_empty bot_token ≡ false)
      × (is_empty a.hash ≡ false)
      × (leb w.now (a.auth_date + max_telegram_auth_age) ≡ true)
      × (text_eq (hmac_hex bot_token (check_string a)) (map lower a.hash) ≡ true)
unfolding verify_telegram_auth
verify_telegram_auth-ok hmac_hex bot_token a w {u} {v} e =
    let (_, w1, g1, e1) = after-ok (guard (not (is_empty bot_token)) telegram_refused w) _ e in
    let (set, s1) = guard-true (not (is_empty bot_token)) telegram_refused w g1 in
    let (_, w2, g2, e2) = after-ok (guard (not (is_empty a.hash)) telegram_signature w1) _ e1 in
    let (signed, s2) = guard-true (not (is_empty a.hash)) telegram_signature w1 g2 in
    let (_, w3, g3, e3) =
      after-ok (guard (leb w2.now (a.auth_date + max_telegram_auth_age)) telegram_refused w2) _
        e2 in
    let (recent, s3) =
      guard-true (leb w2.now (a.auth_date + max_telegram_auth_age)) telegram_refused w2 g3 in
    let (matches, s4) =
      guard-true (text_eq (hmac_hex bot_token (check_string a)) (map lower a.hash))
        telegram_signature w3 e3 in
    let same : w2.now ≡ w.now = ap (λ (x : Site). x.now) (s2 ∙ s1) in
    (
      ground arith,
      ground arith,
      subst (λ (t : ℕ). leb t (a.auth_date + max_telegram_auth_age) ≡ true) same recent,
      matches,
    )

-- If a login by Telegram succeeds, whatever accesses are refused, a bot is configured, the data is
-- a day old at most and bears the signature of its check string, and the account is not blocked.
pub telegram_login_lem :
    (c : Crypto) (hmac_hex : Text → Text → Text) (bot_token : Text) (a : TelegramAuth) (w : Site)
    {u : User} {pair : TokenPair} {v : Site}
    → telegram_login c hmac_hex bot_token a w ≡ (ok (u, pair), v)
    → (is_empty bot_token ≡ false)
      × (leb w.now (a.auth_date + max_telegram_auth_age) ≡ true)
      × (text_eq (hmac_hex bot_token (check_string a)) (map lower a.hash) ≡ true)
      × (is_blocked u.status ≡ false)
unfolding telegram_login
telegram_login_lem c hmac_hex bot_token a w {u} {pair} {v} e =
    let (_, w1, checking, e1) = after-ok (verify_telegram_auth hmac_hex bot_token a w) _ e in
    let (set, signed, recent, matches) = verify_telegram_auth-ok hmac_hex bot_token a w checking in
    let (u0, w2, ensuring, e2) = after-ok (ensure_telegram_user a.id w1) _ e1 in
    let (_, w3, g, e3) = after-ok (guard (not (is_blocked u0.status)) user_blocked w2) _ e2 in
    let (free, still) = guard-true (not (is_blocked u0.status)) user_blocked w2 g in
    let (pair0, w4, issuing, e4) = after-ok (issue_tokens c u0 w3) _ e3 in
    let same_user : u0 ≡ u = ground arith in
    (
      set,
      recent,
      matches,
      subst (λ (x : User). is_blocked x.status ≡ false) same_user (ground arith),
    )
