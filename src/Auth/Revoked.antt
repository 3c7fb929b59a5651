-- ===== src/Auth/Revoked.antt =====
-- internal/auth/middleware.go and handler.go: logging out over HTTP.
use vpn_price_public.Base.{
  ℕ, ◌≡◌, refl, sym, subst, ◌⊎◌, inl, inr, ◌≤◌, ◌<◌, Bool, true, false, none, some, Option, List,
  [], any, arith, Bool-cases, Option-cases, Text, codes, is_empty,
}
use vpn_price_public.Auth.Model.{Outcome, ok, err}
use vpn_price_public.Auth.Store.{Site, spent, access, is_refused}
use vpn_price_public.Auth.Service.{Crypto, logout, is_blacklisted, holds, blacklist_key}
use vpn_price_public.Auth.Accounts.{logout-is_blacklisted}
use vpn_price_public.Auth.Admission.{is_blacklisted-site}
use vpn_price_public.Auth.Http.{
  Claims, Request, Response, Handler, Codec, bearer_token, expiry_of, authenticate, with_claims,
  unless_revoked, admit, logout_route, logout_handler, logged_out,
}

logged_out-ok :
    (x : Outcome (Unit {0}) × Site) → (logged_out x).0.code ≡ 200 → x ≡ (ok tt, (logged_out x).1)
logged_out-ok (ok tt, w) h = refl
logged_out-ok (err e, w) h = ground arith

module _ (c : Crypto) (v : Codec) (r : Request) where
  abbrev token : Text
  token = v.decode_loosely (codes "refresh_token") r.body

  -- The answer is that of a logout of the bearer of these claims that has succeeded.
  abbrev IsDone : Claims → Site → Response × Site → Type 0
  IsDone claims w a =
      logout c claims.jti (expiry_of claims.expires_at) token (spent w) ≡ (ok tt, a.1)

  admit-ok :
      (claims : Claims) (x : Option ℕ) (w : Site)
      → let a = admit (logout_handler c v) r claims x (spent w) in
        a.0.code ≡ 200 → IsDone claims w a
  unfolding logout_handler
  admit-ok claims none w h = ground arith
  admit-ok claims (some uid) w h = logged_out-ok _ h

  unless_revoked-ok :
      (claims : Claims) (seen : Outcome Bool) (w : Site)
      → let a = unless_revoked v (logout_handler c v) r claims seen (spent w) in
        a.0.code ≡ 200 → IsDone claims w a
  unless_revoked-ok claims (err e) w h = ground arith
  unless_revoked-ok claims (ok true) w h = ground arith
  unless_revoked-ok claims (ok false) w h = admit-ok claims (v.parse_uuid claims.subject) w h

  with_claims-ok :
      (claims : Claims) (w : Site)
      → let a = with_claims c v (logout_handler c v) r (some claims) w in
        a.0.code ≡ 200 → IsDone claims w a
  with_claims-ok claims w =
      let seen = (is_blacklisted c claims.jti w).0 in
      subst
        (λ (s : Site).
          let a = unless_revoked v (logout_handler c v) r claims seen s in
          a.0.code ≡ 200 → IsDone claims w a)
        (sym (is_blacklisted-site c claims.jti w)) (unless_revoked-ok claims seen w)

  logout_route-ok :
      (w : Site) {claims : Claims}
      → v.parse_access w.now (bearer_token r) ≡ some claims
      → (logout_route c v r w).0.code ≡ 200
      → IsDone claims w (logout_route c v r w)
  unfolding logout_route authenticate
  logout_route-ok w {claims} parsed h = elim (Bool-cases (is_empty (bearer_token r))) [
    | inl missing ↦ ground arith
    | inr there ↦
        let same : logout_route c v r w ≡ with_claims c v (logout_handler c v) r (some claims) w =
          rw (there, parsed) refl in
        subst (IsDone claims w) (sym same)
          (with_claims-ok claims w (subst (λ (a : Response × Site). a.0.code ≡ 200) same h))
  ]

-- After a logout that is answered with 200, the blacklist holds the identifier up to the expiry.
logout_route-listed :
    (c : Crypto) (v : Codec) (r : Request) (w : Site) (t : ℕ) {claims : Claims}
    → v.parse_access w.now (bearer_token r) ≡ some claims
    → (logout_route c v r w).0.code ≡ 200
    → w.now ≤ t
    → t < expiry_of claims.expires_at
    → any (holds t (blacklist_key claims.jti)) (logout_route c v r w).1.blacklist ≡ true
unfolding is_blacklisted access
logout_route-listed c v r w t {claims} parsed done past before =
    let logged = logout_route-ok c v r w parsed done in
    let answered : (is_blacklisted c claims.jti
          (record (logout_route c v r w).1 { now = t; refused = [] })).0
        ≡ ok true =
      logout-is_blacklisted c claims.jti (expiry_of claims.expires_at) (token c v r) (spent w) t
        {a = tt} {v = (logout_route c v r w).1} logged past before in
    ground arith

-- If the logout route answers a request with 200, then at any later time, whatever accesses fail
-- from then on, Authenticate answers a request with the same bearer token with 401 or 503, whatever
-- handler is behind it; provided the claims depend on the token alone, have an expiry, and are
-- refused from then on.
pub logout_route-authenticate :
    (c : Crypto) (v : Codec) (r q : Request) (w : Site) (t : ℕ) (faults : List Bool)
    (next : Handler) {claims : Claims} {expiry : ℕ}
    → ((token : Text) (early late : ℕ) (a b : Claims)
        → v.parse_access early token ≡ some a
        → v.parse_access late token ≡ some b
        → a ≡ b)
    → ((token : Text) (now end : ℕ) (a : Claims)
        → v.parse_access now token ≡ some a
        → a.expires_at ≡ some end
        → now < end)
    → v.parse_access w.now (bearer_token r) ≡ some claims
    → claims.expires_at ≡ some expiry
    → (logout_route c v r w).0.code ≡ 200
    → bearer_token q ≡ bearer_token r
    → w.now ≤ t
    → let u = record (logout_route c v r w).1 { now = t; refused = faults } in
      let a = authenticate c v next q u in (a.0.code ≡ 401) ⊎ (a.0.code ≡ 503)
unfolding authenticate is_blacklisted access
logout_route-authenticate c v r q w t faults next {claims} {expiry} steady timely parsed ends done
      same past =
    elim (Bool-cases (is_empty (bearer_token q))) [
      | inl missing ↦ rw missing (inl refl)
      | inr there ↦ elim (Option-cases (v.parse_access t (bearer_token q))) [
        | inl invalid ↦ rw (there, invalid) (inl refl)
        | inr (other, valid) ↦ elim (Bool-cases (is_refused faults)) [
          | inl failed ↦ rw (there, valid, failed) (inr refl)
          | inr served ↦
              let one : other ≡ claims = sym (
                steady (bearer_token r) w.now t claims other parsed
                  (subst (λ (x : Text). v.parse_access t x ≡ some other) same valid)) in
              let still : v.parse_access t (bearer_token q) ≡ some claims =
                subst (λ (x : Claims). v.parse_access t (bearer_token q) ≡ some x) one valid in
              let listed = logout_route-listed c v r w t parsed done past (
                subst (λ (x : Option ℕ). t < expiry_of x) (sym ends)
                  (timely (bearer_token q) t expiry claims still ends)) in
              rw (there, still, served, listed) (inl refl)
        ]
      ]
    ]
