-- ===== src/Platform/Security.antt =====
-- internal/platform/httpx/security.go: the address of a client, and its window of requests.
use vpn_price_public.Base.{
  ℕ, suc, ◌+◌, ◌-◌, Bool, true, false, not, ◌&&◌, ◌||◌, Option, none, some, [], ◌∷◌, ◌==◌, leb, ltb,
  if◌then◌else◌, Text, is_empty,
}
use mathlib.Core.List.{reverse}

abbrev pub is_blank : ℕ → Bool
is_blank c = c == b' ' || c == 9

unfoldable pub drop_blanks : Text → Text
drop_blanks [] = []
drop_blanks (c ∷ s) = if is_blank c then drop_blanks s else c ∷ s

-- `trimSpace`
unfoldable pub trim_blanks : Text → Text
unfolding drop_blanks
trim_blanks s = reverse (drop_blanks (reverse (drop_blanks s)))

-- What stands before the first comma.
unfoldable pub before_comma : Text → Text
before_comma [] = []
before_comma (c ∷ s) = if c == b',' then [] else c ∷ before_comma s

-- `ClientIP`; `host` is what net.SplitHostPort returns of the remote address.
unfoldable pub client_ip : Text → Text → Option Text → Text
unfolding trim_blanks before_comma
client_ip forwarded remote host =
    if is_empty forwarded
    then elim host [ none ↦ remote | some h ↦ h ]
    else trim_blanks (before_comma forwarded)

-- A key in Redis: its count, and when it expires if it does.
pub record Counter : Type 0 where
  pub count : ℕ
  pub expires : Option ℕ

abbrev pub has_expired : ℕ → Counter → Bool
has_expired now c = elim c.expires [ none ↦ false | some t ↦ leb t now ]

-- INCR of a key that may be missing or expired
unfoldable pub incr : ℕ → Option Counter → Counter
incr now none = record { count = 1; expires = none }
incr now (some c) =
    if has_expired now c
    then record { count = 1; expires = none }
    else record c { count = suc c.count }

-- What the middleware answers: the request passes, or is refused for so many seconds.
pub data Verdict : Type 0 where
  pass : Verdict
  too_many : ℕ → Verdict

abbrev pub passes : Verdict → Bool
passes pass = true
passes (too_many t) = false

-- TTL of the key, or the window if Redis knows none.
abbrev pub retry_after : ℕ → ℕ → Counter → ℕ
retry_after window now c = elim c.expires [
  | none ↦ window
  | some t ↦ (if ltb now t then t - now else window)
]

-- The `Expire` of a counter that is at 1, unless Redis refuses it.
abbrev pub with_expiry : ℕ → ℕ → Bool → Counter → Counter
with_expiry window now fails c =
    if c.count == 1 && not fails then record c { expires = some (now + window) } else c

-- `Middleware` on one key: whether INCR and EXPIRE fail, the time, the counter.
unfoldable pub limit_request : ℕ → ℕ → Bool → Bool → ℕ → Option Counter → Verdict × Option Counter
unfolding incr
limit_request limit window incr_fails expire_fails now stored =
    let c = with_expiry window now expire_fails (incr now stored) in
    if incr_fails
    then (pass, stored)
    else (if ltb limit c.count
        then (too_many (retry_after window now c), some c)
        else (pass, some c))
