-- ===== src/Auth/Admission.antt =====
-- internal/auth/middleware.go: which requests reach a handler.
use vpn_price_public.Base.{
  ℕ, ◌≡◌, refl, sym, subst, ◌⊎◌, inl, inr, Bool, true, false, none, some, Option, List, arith, any,
  Bool-cases, Text, text_eq, is_empty,
}
use vpn_price_public.Auth.Model.{Outcome, ok, err}
use vpn_price_public.Auth.Store.{Site, spent, access, is_refused}
use vpn_price_public.Auth.Service.{Crypto, is_blacklisted}
use vpn_price_public.Auth.Http.{
  Claims, Principal, Request, Response, Handler, Codec, bearer_token, principal_of, with_principal,
  authenticate, with_claims, unless_revoked, admit, require_role,
}

-- An answer that refuses a request, and leaves the accounts, sessions and blacklist as they were.
abbrev pub IsRefusal : Site → Response × Site → Type 0
IsRefusal w a =
    (a.1.db ≡ w.db)
    × (a.1.blacklist ≡ w.blacklist)
    × ((a.0.code ≡ 401) ⊎ ((a.0.code ≡ 403) ⊎ (a.0.code ≡ 503)))

-- Either no principal is fit, and the answer is a refusal, or one is, and it is the handler's.
abbrev pub Verdict : (Principal → Type 0) → Handler → Request → Site → Response × Site → Type 0
Verdict Fit next r w a =
    (IsRefusal w a × (¬ ((p : Principal) × Fit p)))
    ⊎ ((p : Principal) × Fit p × (a ≡ next (with_principal r p) (spent w)))

pub is_blacklisted-site :
    (c : Crypto) (jti : Text) (w : Site) → (is_blacklisted c jti w).1 ≡ spent w
unfolding is_blacklisted access
is_blacklisted-site c jti w = elim (Bool-cases (is_refused w.refused)) [
  | inl failed ↦ rw failed refl
  | inr served ↦ rw served refl
]

module _ (c : Crypto) (v : Codec) (roles : List Text) (next : Handler) (r : Request)
    (w : Site) where
  abbrev FitRole : Claims → ℕ → Principal → Type 0
  FitRole claims uid p = (p ≡ principal_of claims uid) × (any (text_eq p.role) roles ≡ true)

  abbrev FitSubject : Claims → Option ℕ → Principal → Type 0
  FitSubject claims x p = (uid : ℕ) × (x ≡ some uid) × FitRole claims uid p

  abbrev FitSeen : Claims → Outcome Bool → Principal → Type 0
  FitSeen claims seen p = (seen ≡ ok false) × FitSubject claims (v.parse_uuid claims.subject) p

  abbrev FitClaims : Option Claims → Principal → Type 0
  FitClaims x p =
      (claims : Claims) × (x ≡ some claims) × FitSeen claims (is_blacklisted c claims.jti w).0 p

  -- Who the bearer of the request is: its token is valid now and not blacklisted, names the
  -- principal, and gives it one of the roles.
  abbrev pub IsAdmitted : Principal → Type 0
  IsAdmitted p =
      (is_empty (bearer_token r) ≡ false) × FitClaims (v.parse_access w.now (bearer_token r)) p

  weigh :
      {Fit Good : Principal → Type 0} {a : Response × Site}
      → ((p : Principal) → Fit p → Good p)
      → ((p : Principal) → Good p → Fit p)
      → Verdict Fit next r w a
      → Verdict Good next r w a
  weigh to from (inl (refused, unfit)) = inl (refused, λ x. unfit (x.0, from x.0 x.1))
  weigh to from (inr (p, fit, done)) = inr (p, to p fit, done)

  by_role :
      (claims : Claims) (uid : ℕ)
      → Verdict
          (FitRole claims uid)
          next
          r
          w
          (require_role roles next (with_principal r (principal_of claims uid)) (spent w))
  unfolding require_role
  by_role claims uid = elim (Bool-cases (any (text_eq claims.role) roles)) [
    | inl member ↦ inr (principal_of claims uid, (refl, member), rw member refl)
    | inr other ↦ inl (
      rw other (refl, refl, inr (inl refl)),
      λ x.
          let role : any (text_eq claims.role) roles ≡ true =
            subst (λ (p : Principal). any (text_eq p.role) roles ≡ true) x.1.0 x.1.1 in
          ground arith,
    )
  ]

  by_subject :
      (claims : Claims) (x : Option ℕ)
      → Verdict
          (FitSubject claims x)
          next
          r
          w
          (admit (require_role roles next) r claims x (spent w))
  by_subject claims none =
      inl ((refl, refl, inl refl), λ x. let (uid, e, fit) = x.1 in ground arith)
  by_subject claims (some uid) =
      weigh (λ p fit. (uid, refl, fit))
        (λ p fit.
          let (i, e, rest) = fit in subst (λ (i : ℕ). FitRole claims i p) (ground arith) rest)
        (by_role claims uid)

  by_seen :
      (claims : Claims) (seen : Outcome Bool)
      → Verdict
          (FitSeen claims seen)
          next
          r
          w
          (unless_revoked v (require_role roles next) r claims seen (spent w))
  by_seen claims (err e) =
      inl ((refl, refl, inr (inr refl)), λ x. let (impossible, fit) = x.1 in ground arith)
  by_seen claims (ok true) =
      inl ((refl, refl, inl refl), λ x. let (impossible, fit) = x.1 in ground arith)
  by_seen claims (ok false) =
      weigh (λ p fit. (refl, fit)) (λ p fit. fit.1)
        (by_subject claims (v.parse_uuid claims.subject))

  by_claims :
      (x : Option Claims)
      → Verdict (FitClaims x) next r w (with_claims c v (require_role roles next) r x w)
  by_claims none =
      inl ((refl, refl, inl refl), λ x. let (claims, impossible, fit) = x.1 in ground arith)
  by_claims (some claims) =
      weigh (λ p fit. (claims, refl, fit))
        (λ p fit.
          let (other, e, rest) = fit in
          let same : other ≡ claims = ground arith in
          subst (λ (x : Claims). FitSeen x (is_blacklisted c x.jti w).0 p) same rest)
        (subst
          (λ (s : Site). Verdict (FitSeen claims (is_blacklisted c claims.jti w).0) next r w (
            unless_revoked v (require_role roles next) r claims (is_blacklisted c claims.jti w).0
              s))
          (sym (is_blacklisted-site c claims.jti w))
          (by_seen claims (is_blacklisted c claims.jti w).0))

  -- For any handler behind Authenticate and RequireRole: either the request has a bearer token that
  -- is valid now, whose identifier is answered as not blacklisted, whose subject is an identifier
  -- and whose role is allowed, and the answer is that of the handler with the principal of the
  -- token; or no principal is so, and the answer has the status 401, 403 or 503 and leaves the
  -- database and the blacklist as they were.
  pub authenticate-require_role :
      Verdict IsAdmitted next r w (authenticate c v (require_role roles next) r w)
  unfolding authenticate
  authenticate-require_role = elim (Bool-cases (is_empty (bearer_token r))) [
    | inl missing ↦
        inl (rw missing (refl, refl, inl refl), λ x. let (there, fit) = x.1 in ground arith)
    | inr there ↦ subst (Verdict IsAdmitted next r w) (sym (rw there refl)) (
        weigh (λ p fit. (there, fit)) (λ p fit. fit.1)
          (by_claims (v.parse_access w.now (bearer_token r))))
  ]
