-- ===== src/Auth/Tests.antt =====
-- Concrete runs of authentication: one account with a second factor and one session.
use vpn_price_public.Base.{
  ◌+◌, ◌-◌, ◌≡◌, refl, arith, true, false, ◌||◌, none, some, [], ◌∷◌, ◌++◌, any, find, Text, codes,
  text_eq, trim_space, is_empty, leb, map, lower, decimal,
}
use vpn_price_public.Auth.Model.{User, Status, Session, TokenPair, session_revoked, ok, err}
use vpn_price_public.Auth.Store.{Site, access, transaction}
use vpn_price_public.Auth.Repository.{
  has_hash, is_live, session_of, get_session_by_hash, revoke_session, get_user_by_id,
  create_session, get_auth_by_email, get_user_by_telegram_id, set_totp_secret,
}
use vpn_price_public.Auth.Totp.{validate_totp, validate_totp_lem, is_code, totp_at, totp_period}
use vpn_price_public.Auth.Service.{
  refresh_session, Crypto, refresh, login, setup_2fa, logout, is_blacklisted, is_blocked,
  issue_tokens,
}
use vpn_price_public.Auth.Sessions.{IsRotated, refresh-rotates, refresh-refresh}
use vpn_price_public.Auth.Registration.{
  TelegramAuth, telegram_login, telegram_login_lem, create_telegram_user, check_string,
}
use vpn_price_public.Auth.Race.{refresh_session-refresh_session}
use vpn_price_public.Auth.Accounts.{
  account, guarded, login_lem, setup_2fa-guarded, logout-is_blacklisted,
}

-- A toy of the cryptography: passwords are their hashes, tokens are their numbers.
abbrev pub toy : Crypto
toy = record {
  check_password = text_eq;
  jti = λ n. n ∷ [];
  token = λ n. n ∷ [];
  hash_token = λ t. b'h' ∷ t;
  sign_access = λ user role jti now expiry. jti;
  secret = λ n. codes "ABC";
  decode_base32 = λ t. some t;
  hmac_sha1 = λ key message. message ++ (message ++ (0 ∷ 0 ∷ 0 ∷ 0 ∷ []));
  access_ttl = 900;
  refresh_ttl = 2592000;
}

abbrev user : User
user = record {
  id = 1;
  email = some (codes "a@b");
  telegram_id = none;
  role = codes "user";
  status = Status.active;
  removed = false;
  password_hash = codes "pw";
  totp_secret = codes "ABC";
  totp_enabled = true;
}

abbrev session : Session
session = record {
  id = 2;
  user_id = 1;
  token_hash = b'h' ∷ 9 ∷ [];
  expires_at = 5000;
  revoked_at = none;
}

abbrev pub site : Site
site = record {
  db = record { users = user ∷ []; sessions = session ∷ []; next_id = 3 };
  blacklist = [];
  refused = [];
  now = 1000;
  drawn = 20;
}

abbrev new_pair : TokenPair
new_pair = record { access_token = 20 ∷ []; refresh_token = 21 ∷ []; expires_at = 1900 }

abbrev refreshed : Site
refreshed = (refresh toy (9 ∷ []) site).1

first_refresh : refresh toy (9 ∷ []) site ≡ (ok new_pair, refreshed)
unfolding refresh get_session_by_hash revoke_session get_user_by_id create_session access
first_refresh = refl

refresh-rotates_example :
    IsRotated toy site refreshed (9 ∷ []) new_pair
    × ((s : Session) × (find (has_hash (b'h' ∷ 9 ∷ [])) refreshed.db.sessions ≡ some s)
        × (is_live s ≡ false))
refresh-rotates_example =
    refresh-rotates toy site (9 ∷ []) {pair = new_pair} {v = refreshed} first_refresh

refresh-refresh_example :
    let r = refresh toy (9 ∷ []) (record refreshed { refused = [] }) in
    (r.0 ≡ err session_revoked)
    × ((s : Session) × (find (has_hash (b'h' ∷ 9 ∷ [])) refreshed.db.sessions ≡ some s)
        × (any (session_of s.user_id) r.1.db.sessions ≡ false))
refresh-refresh_example =
    refresh-refresh toy site (9 ∷ []) {pair = new_pair} {v = refreshed} first_refresh

-- The code of the toy at the time of the site.
abbrev code : Text
code = codes "000000"

abbrev logged_in : Site
logged_in = (login toy (codes "A@b") (codes "pw") code site).1

first_login : login toy (codes "A@b") (codes "pw") code site ≡ (ok (user, new_pair), logged_in)
unfolding login get_auth_by_email create_session access validate_totp trim_space
first_login = refl

login_lem_example :
    (find (account (codes "A@b")) site.db.users ≡ some user)
    × (text_eq (codes "pw") (codes "pw") ≡ true)
    × (is_blocked Status.active ≡ false)
    × (true ≡ true → validate_totp toy.decode_base32 toy.hmac_sha1 1000 (codes "ABC") code ≡ true)
login_lem_example =
    login_lem toy (codes "A@b") (codes "pw") code site {u = user} {pair = new_pair} {v = logged_in}
      first_login

abbrev set_up : Site
set_up = (setup_2fa toy 1 site).1

first_setup : setup_2fa toy 1 site ≡ (ok (codes "ABC"), set_up)
unfolding setup_2fa get_user_by_id set_totp_secret access
first_setup = refl

setup_2fa-guarded_example : any (guarded 1) set_up.db.users ≡ false
setup_2fa-guarded_example =
    setup_2fa-guarded toy 1 site {secret = codes "ABC"} {v = set_up} first_setup

abbrev logged_out : Site
logged_out = (logout toy (codes "j") 1900 [] site).1

first_logout : logout toy (codes "j") 1900 [] site ≡ (ok tt, logged_out)
unfolding logout access
first_logout = refl

logout-is_blacklisted_example :
    (is_blacklisted toy (codes "j") (record logged_out { now = 1500; refused = [] })).0 ≡ ok true
logout-is_blacklisted_example =
    logout-is_blacklisted toy (codes "j") 1900 [] site 1500 {a = tt} {v = logged_out} first_logout
      (omega arith) (omega arith)

validate_totp_lem_example :
    validate_totp toy.decode_base32 toy.hmac_sha1 1000 (codes "ABC") code ≡ (
      is_code
        (trim_space code)
        (totp_at toy.decode_base32 toy.hmac_sha1 (codes "ABC") (1000 - totp_period))
      || (is_code (trim_space code) (totp_at toy.decode_base32 toy.hmac_sha1 (codes "ABC") 1000)
          || is_code
              (trim_space code)
              (totp_at toy.decode_base32 toy.hmac_sha1 (codes "ABC") (1000 + totp_period))))
validate_totp_lem_example =
    validate_totp_lem toy.decode_base32 toy.hmac_sha1 1000 (codes "ABC") code

abbrev bot_data : TelegramAuth
bot_data = record {
  id = 77;
  first_name = codes "Ann";
  last_name = [];
  username = [];
  photo_url = [];
  auth_date = 900;
  hash = codes "AB";
}

abbrev bot_login : Site
bot_login = (telegram_login toy (λ key text. codes "ab") (codes "bot") bot_data site).1

abbrev bot_user : User
bot_user = record {
  id = 3;
  email = none;
  telegram_id = some 77;
  role = codes "user";
  status = Status.active;
  removed = false;
  password_hash = [];
  totp_secret = [];
  totp_enabled = false;
}

first_bot_login :
    telegram_login toy (λ key text. codes "ab") (codes "bot") bot_data site
    ≡ (ok (bot_user, new_pair), bot_login)
unfolding telegram_login get_user_by_telegram_id create_telegram_user create_session access
    transaction issue_tokens
first_bot_login = refl

telegram_login_lem_example :
    (is_empty (codes "bot") ≡ false)
    × (leb 1000 (900 + 86400) ≡ true)
    × (text_eq (codes "ab") (map lower (codes "AB")) ≡ true)
    × (is_blocked Status.active ≡ false)
telegram_login_lem_example =
    telegram_login_lem toy (λ key text. codes "ab") (codes "bot") bot_data site {u = bot_user}
      {pair = new_pair} {v = bot_login} first_bot_login

check_string_of_bot_data :
    check_string bot_data
    ≡ codes "auth_date=900" ++ 10 ∷ (codes "first_name=Ann" ++ 10 ∷ codes "id=77")
unfolding check_string decimal
check_string_of_bot_data = refl

refresh_session-refresh_session_example :
    let r1 = refresh_session toy session (record site { refused = [] }) in
    let r2 = refresh_session toy session r1.1 in
    (first second : TokenPair) × (r1.0 ≡ ok first)
    × (r2.0 ≡ ok second)
    × (first.refresh_token ≡ 21 ∷ [])
    × (second.refresh_token ≡ 23 ∷ [])
refresh_session-refresh_session_example =
    refresh_session-refresh_session toy session site {u = user} refl refl refl refl refl refl refl
