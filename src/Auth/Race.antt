-- ===== src/Auth/Race.antt =====
-- internal/auth/service.go, `Refresh`: two requests with one token at the same time.
use vpn_price_public.Base.{
  ℕ, suc, ◌≡◌, refl, ◌∙◌, sym, ap, subst, Bool, true, false, ◌||◌, some, List, [], ◌∷◌, arith, any,
  find, update_where, Text, text_eq, ltb,
}
use vpn_price_public.Auth.Model.{User, Session, TokenPair, Outcome, ok}
use vpn_price_public.Auth.Store.{Site, access}
use vpn_price_public.Auth.Repository.{
  has_hash, is_live, live_session, live_user, revoked, revoke_session, get_user_by_id,
  create_session,
}
use vpn_price_public.Auth.Service.{Crypto, refresh_session, rotate, is_blocked}

any-revoke :
    (hash : Text) (id now : ℕ) (rows : List Session)
    → any (has_hash hash) (update_where (live_session id) (revoked now) rows)
      ≡ any (has_hash hash) rows
any-revoke hash id now [] = refl
any-revoke hash id now (r ∷ rows) = ground (arith, any-revoke hash id now rows)

both-false : {a b : Bool} → a ≡ false → b ≡ false → (a || b) ≡ false
both-false {a} {b} h h' = rw (h, h') refl

module _ (c : Crypto) (s : Session) where
  -- The rotation of a session by a user who may have a new one.
  rotate-passes :
      (w : Site) {u : User}
      → find (live_user s.user_id) w.db.users ≡ some u
      → is_blocked u.status ≡ false
      → any (has_hash (c.hash_token (c.token (suc w.drawn)))) w.db.sessions ≡ false
      → let r = rotate c s (record w { refused = [] }) in
        (pair : TokenPair) × (r.0 ≡ ok pair)
        × (pair.refresh_token ≡ c.token (suc w.drawn))
        × (r.1.db.users ≡ w.db.users)
        × (r.1.refused ≡ [])
        × (r.1.now ≡ w.now)
        × (r.1.drawn ≡ suc (suc w.drawn))
        × ((hash : Text)
            → any (has_hash hash) r.1.db.sessions ≡ (
                text_eq (c.hash_token (c.token (suc w.drawn))) hash
                || any (has_hash hash) w.db.sessions))
  unfolding rotate revoke_session get_user_by_id create_session access
  rotate-passes w {u} found free fresh =
      rw
        (
          found,
          free,
          any-revoke (c.hash_token (c.token (suc w.drawn))) s.id w.now w.db.sessions,
          fresh,
        )
        (
          _,
          refl,
          refl,
          refl,
          refl,
          refl,
          refl,
          λ hash. ground (arith, any-revoke hash s.id w.now w.db.sessions),
        )

  checks-passed :
      (w : Site)
      → is_live s ≡ true
      → ltb s.expires_at w.now ≡ false
      → refresh_session c s w ≡ rotate c s w
  unfolding refresh_session
  checks-passed w alive valid = rw (alive, valid) refl

  -- If two requests have read the same live session of a user who is not blocked, before it
  -- expires, and no access is refused, then both get a new token pair, one after the other,
  -- provided the hashes of the two new tokens differ from each other and from all stored ones: the
  -- update of the session does not tell the second that it came late.
  pub refresh_session-refresh_session :
      (w : Site) {u : User}
      → is_live s ≡ true
      → ltb s.expires_at w.now ≡ false
      → find (live_user s.user_id) w.db.users ≡ some u
      → is_blocked u.status ≡ false
      → any (has_hash (c.hash_token (c.token (suc w.drawn)))) w.db.sessions ≡ false
      → any (has_hash (c.hash_token (c.token (suc (suc (suc w.drawn)))))) w.db.sessions ≡ false
      → text_eq
          (c.hash_token (c.token (suc w.drawn)))
          (c.hash_token (c.token (suc (suc (suc w.drawn)))))
        ≡ false
      → let r1 = refresh_session c s (record w { refused = [] }) in
        let r2 = refresh_session c s r1.1 in
        (first second : TokenPair) × (r1.0 ≡ ok first)
        × (r2.0 ≡ ok second)
        × (first.refresh_token ≡ c.token (suc w.drawn))
        × (second.refresh_token ≡ c.token (suc (suc (suc w.drawn))))
  refresh_session-refresh_session w {u} alive valid found free fresh1 fresh2 apart =
      let w0 : Site = record w { refused = [] } in
      let (first, e1, token1, users, calm, time, draws, hashes) =
        rotate-passes w found free fresh1 in
      let w1 = (rotate c s w0).1 in
      let (second, e2, token2, _, _, _, _, _) =
        rotate-passes w1 {u = u}
          (subst (λ (us : List User). find (live_user s.user_id) us ≡ some u) (sym users) found)
          free
          (subst (λ (n : ℕ). any (has_hash (c.hash_token (c.token (suc n)))) w1.db.sessions ≡ false)
            (sym draws)
            (hashes (c.hash_token (c.token (suc (suc (suc w.drawn)))))
              ∙ both-false apart fresh2)) in
      let same : record w1 { refused = [] } ≡ w1 =
        ap (λ (l : List Bool). record w1 { refused = l }) (sym calm) in
      let late =
        checks-passed w1 alive (subst (λ (n : ℕ). ltb s.expires_at n ≡ false) (sym time) valid) in
      (
        first,
        second,
        ap (λ (r : Outcome TokenPair × Site). r.0) (checks-passed w0 alive valid) ∙ e1,
        ap (λ (x : Site). (refresh_session c s x).0)
              (ap (λ (r : Outcome TokenPair × Site). r.1) (checks-passed w0 alive valid))
            ∙ (ap (λ (r : Outcome TokenPair × Site). r.0) late
                ∙ (ap (λ (x : Site). (rotate c s x).0) (sym same) ∙ e2)),
        token1,
        token2 ∙ ap (λ (n : ℕ). c.token (suc n)) draws,
      )
