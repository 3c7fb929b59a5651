-- ===== src/Auth/Steps.antt =====
-- internal/auth: the steps of the service when they succeed.
use vpn_price_public.Base.{
  ℕ, suc, ◌≡◌, refl, subst, inl, inr, Bool, true, false, none, some, List, [], ◌∷◌, arith, any,
  find, update_where, if◌then◌else◌, Bool-cases, Option-cases, Text,
}
use vpn_price_public.Auth.Model.{
  User, Session, TokenPair, AuthError, store_failed, Outcome, ok, err,
}
use vpn_price_public.Auth.Store.{Site, Act, after, access, spent, is_refused, guard}
use vpn_price_public.Auth.Repository.{
  has_hash, is_live, revoked, live_session, session_of, get_session_by_hash, revoke_session,
  create_session, get_user_by_id, live_user,
}
use vpn_price_public.Auth.Service.{Crypto, issue_tokens}

-- A chain that succeeds has succeeded in its first step and in what follows it.
pub after-ok :
    {A B : Type 0} (r : Outcome A × Site) (f : A → Act B) {b : B} {w : Site}
    → after r f ≡ (ok b, w)
    → (a : A) × (v : Site) × (r ≡ (ok a, v)) × (f a v ≡ (ok b, w))
after-ok (ok a, v) f e = (a, v, refl, e)
after-ok (err x, v) f e = ground arith

pub access-ok :
    {A : Type 0} (run : Site → Outcome A × Site) (w : Site) {a : A} {v : Site}
    → access run w ≡ (ok a, v)
    → run (spent w) ≡ (ok a, v)
unfolding access
access-ok run w {a} {v} e = elim (Bool-cases (is_refused w.refused)) [
  | inl failed ↦ ground arith
  | inr served ↦
      subst (λ (b : Bool). (if b then (err store_failed, spent w) else run (spent w)) ≡ (ok a, v))
        served e
]

pub guard-true :
    (b : Bool) (e : AuthError) (w : Site) {u : Unit {0}} {v : Site}
    → guard b e w ≡ (ok u, v)
    → (b ≡ true) × (v ≡ w)
guard-true true e w h = (refl, ground arith)
guard-true false e w h = ground arith

pub find-any :
    (p : Session → Bool) (rows : List Session) {x : Session}
    → find p rows ≡ some x
    → any p rows ≡ true
find-any p [] {x} h = ground arith
find-any p (r ∷ rows) {x} h = ground (arith, find-any p rows {x = x})

-- Revoking the session that a hash finds.
pub find-revoke :
    (hash : Text) (now : ℕ) (rows : List Session) {s : Session}
    → find (has_hash hash) rows ≡ some s
    → is_live s ≡ true
    → find (has_hash hash) (update_where (live_session s.id) (revoked now) rows)
      ≡ some (revoked now s)
find-revoke hash now [] {s} h l = ground arith
find-revoke hash now (r ∷ rows) {s} h l = ground (arith, find-revoke hash now rows {s = s})

pub none-left :
    (user now : ℕ) (rows : List Session)
    → any (session_of user) (update_where (session_of user) (revoked now) rows) ≡ false
none-left user now [] = refl
none-left user now (r ∷ rows) = ground (arith, none-left user now rows)

-- The first session is a live one of the user with the hash, which no other session has.
abbrev pub IsIssued : ℕ → List Session → List Session → Text → Type 0
IsIssued user before rows hash =
    (row : Session) × (rows ≡ row ∷ before)
    × (row.token_hash ≡ hash)
    × (row.user_id ≡ user)
    × (row.revoked_at ≡ none)
    × (any (has_hash hash) before ≡ false)

pub create_session-ok :
    (user : ℕ) (hash : Text) (expires : ℕ) (w : Site) {id : ℕ} {v : Site}
    → create_session user hash expires w ≡ (ok id, v)
    → IsIssued user w.db.sessions v.db.sessions hash
unfolding create_session
create_session-ok user hash expires w {id} {v} e =
    let h = access-ok _ w e in
    elim (Bool-cases (any (has_hash hash) w.db.sessions)) [
      | inl taken ↦ ground arith
      | inr new ↦
          let row : Session = record {
            id = w.db.next_id;
            user_id = user;
            token_hash = hash;
            expires_at = expires;
            revoked_at = none;
          } in
          (row, ground arith, refl, refl, refl, new)
    ]

pub issue_tokens-ok :
    (c : Crypto) (u : User) (w : Site) {pair : TokenPair} {v : Site}
    → issue_tokens c u w ≡ (ok pair, v)
    → IsIssued u.id w.db.sessions v.db.sessions (c.hash_token pair.refresh_token)
unfolding issue_tokens
issue_tokens-ok c u w {pair} {v} e =
    let (id, v1, made, done) = after-ok (create_session u.id _ _ _) _ e in
    let same_site : v1 ≡ v = ground arith in
    let same_token : c.token (suc w.drawn) ≡ pair.refresh_token = ground arith in
    subst
      (λ (x : Site). IsIssued u.id w.db.sessions x.db.sessions (c.hash_token pair.refresh_token))
      same_site
      (subst (λ (t : Text). IsIssued u.id w.db.sessions v1.db.sessions (c.hash_token t)) same_token
        (create_session-ok u.id _ _ _ made))

pub get_session_by_hash-ok :
    (hash : Text) (w : Site) {s : Session} {v : Site}
    → get_session_by_hash hash w ≡ (ok s, v)
    → (find (has_hash hash) w.db.sessions ≡ some s) × (v ≡ spent w)
unfolding get_session_by_hash
get_session_by_hash-ok hash w {s} {v} e =
    let h = access-ok _ w e in
    elim (Option-cases (find (has_hash hash) w.db.sessions)) [
      | inl missing ↦ ground arith
      | inr (x, found) ↦ (ground arith, ground arith)
    ]

pub revoke_session-ok :
    (id : ℕ) (w : Site) {u : Unit {0}} {v : Site}
    → revoke_session id w ≡ (ok u, v)
    → (v.db.sessions ≡ update_where (live_session id) (revoked w.now) w.db.sessions)
unfolding revoke_session
revoke_session-ok id w {u} {v} e = let h = access-ok _ w e in ground arith

pub get_user_by_id-ok :
    (id : ℕ) (w : Site) {u : User} {v : Site}
    → get_user_by_id id w ≡ (ok u, v)
    → (v ≡ spent w) × (find (live_user id) w.db.users ≡ some u)
unfolding get_user_by_id
get_user_by_id-ok id w {u} {v} e =
    let h = access-ok _ w e in
    elim (Option-cases (find (live_user id) w.db.users)) [
      | inl missing ↦ ground arith
      | inr (x, found) ↦ (ground arith, ground arith)
    ]

pub find-live_user :
    (id : ℕ) (rows : List User) {u : User} → find (live_user id) rows ≡ some u → u.id ≡ id
find-live_user id [] {u} h = ground arith
find-live_user id (r ∷ rows) {u} h = ground (arith, find-live_user id rows {u = u})
