-- ===== src/Auth/Sessions.antt =====
-- internal/auth/service.go, `Refresh`: the rotation of refresh tokens.
use vpn_price_public.Base.{
  text_eq-eq, ℕ, ◌≡◌, refl, ◌∙◌, sym, ap, subst, inl, inr, true, false, not, some, List, [], ◌∷◌,
  arith, any, find, update_where, Bool-cases, Text, ltb,
}
use vpn_price_public.Auth.Model.{Session, TokenPair, session_revoked, user_blocked, ok, err}
use vpn_price_public.Auth.Store.{Site, access, spent, guard}
use vpn_price_public.Auth.Repository.{
  has_hash, is_live, revoked, live_session, session_of, get_session_by_hash, revoke_session,
  revoke_all_user_sessions, get_user_by_id,
}
use vpn_price_public.Auth.Service.{Crypto, refresh, refresh_session, rotate, is_blocked}
use vpn_price_public.Auth.Steps.{
  after-ok, guard-true, find-any, find-revoke, none-left, IsIssued, issue_tokens-ok,
  get_session_by_hash-ok, revoke_session-ok, get_user_by_id-ok, find-live_user,
}

-- A revoked token that is presented again is refused, and with no access refused no session of its
-- user is left live.
pub refresh-reuse :
    (c : Crypto) (w : Site) (token : Text) {s : Session}
    → find (has_hash (c.hash_token token)) w.db.sessions ≡ some s
    → is_live s ≡ false
    → let r = refresh c token (record w { refused = [] }) in
      (r.0 ≡ err session_revoked) × (any (session_of s.user_id) r.1.db.sessions ≡ false)
unfolding refresh refresh_session get_session_by_hash revoke_all_user_sessions access
refresh-reuse c w token {s} found dead =
    rw (found, dead) (refl, none-left s.user_id w.now w.db.sessions)

-- What a successful refresh with a token has done to the sessions.
abbrev pub IsRotated : Crypto → Site → Site → Text → TokenPair → Type 0
IsRotated c w v token pair =
    (s : Session) × (find (has_hash (c.hash_token token)) w.db.sessions ≡ some s)
    × (is_live s ≡ true)
    × (ltb s.expires_at w.now ≡ false)
    × IsIssued s.user_id (update_where (live_session s.id) (revoked w.now) w.db.sessions)
        v.db.sessions (c.hash_token pair.refresh_token)

rotate-ok :
    (c : Crypto) (s : Session) (w : Site) {pair : TokenPair} {v : Site}
    → rotate c s w ≡ (ok pair, v)
    → IsIssued s.user_id
        (update_where (live_session s.id) (revoked w.now) w.db.sessions)
        v.db.sessions
        (c.hash_token pair.refresh_token)
unfolding rotate
rotate-ok c s w {pair} {v} e =
    let (_, w1, revoking, e1) = after-ok (revoke_session s.id w) _ e in
    let rows = revoke_session-ok s.id w revoking in
    let (u, w2, reading, e2) = after-ok (get_user_by_id s.user_id w1) _ e1 in
    let (same, user) = get_user_by_id-ok s.user_id w1 reading in
    let (_, w3, passing, e3) = after-ok (guard (not (is_blocked u.status)) user_blocked w2) _ e2 in
    let (admitted, still) = guard-true (not (is_blocked u.status)) user_blocked w2 passing in
    let before : w3.db.sessions ≡ update_where (live_session s.id) (revoked w.now) w.db.sessions =
      ap (λ (x : Site). x.db.sessions) (still ∙ same) ∙ rows in
    subst
      (λ (i : ℕ).
        IsIssued i (update_where (live_session s.id) (revoked w.now) w.db.sessions) v.db.sessions
          (c.hash_token pair.refresh_token))
      (find-live_user s.user_id w1.db.users user)
      (subst (λ (b : List Session). IsIssued u.id b v.db.sessions (c.hash_token pair.refresh_token))
        before (issue_tokens-ok c u w3 e3))

refresh_session-ok :
    (c : Crypto) (s : Session) (w : Site) {pair : TokenPair} {v : Site}
    → refresh_session c s w ≡ (ok pair, v)
    → (is_live s ≡ true) × (ltb s.expires_at w.now ≡ false) × (rotate c s w ≡ (ok pair, v))
unfolding refresh_session
refresh_session-ok c s w {pair} {v} e = elim (Bool-cases (is_live s)) [
  | inl alive ↦ elim (Bool-cases (ltb s.expires_at w.now)) [
    | inl over ↦ ground arith
    | inr valid ↦ (alive, valid, ground arith)
  ]
  | inr dead ↦ ground arith
]

refresh-ok :
    (c : Crypto) (w : Site) (token : Text) {pair : TokenPair} {v : Site}
    → refresh c token w ≡ (ok pair, v)
    → IsRotated c w v token pair
unfolding refresh
refresh-ok c w token {pair} {v} e =
    let (s, w1, loaded, e1) = after-ok (get_session_by_hash (c.hash_token token) w) _ e in
    let (found, same) = get_session_by_hash-ok (c.hash_token token) w loaded in
    let (alive, valid, rotated) =
      refresh_session-ok c s (spent w)
        (subst (λ (x : Site). refresh_session c s x ≡ (ok pair, v)) same e1) in
    (s, found, alive, valid, rotate-ok c s (spent w) rotated)

find-behind :
    (hash new : Text) (row : Session) (rows : List Session) {s : Session}
    → row.token_hash ≡ new
    → any (has_hash new) rows ≡ false
    → find (has_hash hash) rows ≡ some s
    → find (has_hash hash) (row ∷ rows) ≡ some s
find-behind hash new row rows {s} e fresh found = elim (Bool-cases (has_hash hash row)) [
  | inl clash ↦
      let same : new ≡ hash = sym e ∙ text_eq-eq row.token_hash hash clash in
      let there : any (has_hash new) rows ≡ true =
        subst (λ (h : Text). any (has_hash h) rows ≡ true) (sym same)
          (find-any (has_hash hash) rows found) in
      ground arith
  | inr other ↦ rw other found
]

-- If a refresh succeeds, whatever accesses are refused, its token has a live session that has not
-- expired; afterwards the token's hash finds that session revoked, and the first session is a live
-- one of the same user under the hash of the new token, which no session had before.
pub refresh-rotates :
    (c : Crypto) (w : Site) (token : Text) {pair : TokenPair} {v : Site}
    → refresh c token w ≡ (ok pair, v)
    → IsRotated c w v token pair
      × ((s : Session) × (find (has_hash (c.hash_token token)) v.db.sessions ≡ some s)
          × (is_live s ≡ false))
refresh-rotates c w token {pair} {v} e =
    let (s, found, alive, valid, issued) = refresh-ok c w token e in
    let (row, rows, hash, user, live, new) = issued in
    let behind =
      find-behind (c.hash_token token) (c.hash_token pair.refresh_token) row _ hash new
        (find-revoke (c.hash_token token) w.now w.db.sessions found alive) in
    (
      (s, found, alive, valid, issued),
      (
        revoked w.now s,
        subst
            (λ (l : List Session). find (has_hash (c.hash_token token)) l ≡ some (revoked w.now s))
            (sym rows) behind,
        refl,
      ),
    )

-- If a refresh has succeeded, a refresh with the same token and no access refused fails as revoked,
-- and leaves no live session of the user of the token's session.
pub refresh-refresh :
    (c : Crypto) (w : Site) (token : Text) {pair : TokenPair} {v : Site}
    → refresh c token w ≡ (ok pair, v)
    → let r = refresh c token (record v { refused = [] }) in
      (r.0 ≡ err session_revoked)
      × ((s : Session) × (find (has_hash (c.hash_token token)) v.db.sessions ≡ some s)
          × (any (session_of s.user_id) r.1.db.sessions ≡ false))
refresh-refresh c w token {pair} {v} e =
    let (s, found, dead) = (refresh-rotates c w token e).1 in
    let (refusal, gone) = refresh-reuse c v token found dead in (refusal, (s, found, gone))
