-- ===== src/Auth/HttpTests.antt =====
-- Concrete requests to the handlers of authentication.
use vpn_price_public.Base.{
  ℕ, ◌≡◌, refl, ◌⊎◌, inl, inr, ◌<◌, Bool-cases, none, some, Option, [], ◌∷◌, arith, Text, codes,
  ltb, if◌then◌else◌, trim_space, sym, subst, ◌∙◌,
}
use vpn_price_public.Auth.Store.{access}
use vpn_price_public.Auth.Repository.{get_session_by_hash}
use vpn_price_public.Auth.Service.{logout, is_blacklisted}
use vpn_price_public.Auth.Http.{
  Claims, Request, Handler, Codec, bearer_token, authenticate, require_role, logout_route, reply,
  status,
}
use vpn_price_public.Auth.Admission.{Verdict, IsAdmitted, authenticate-require_role}
use vpn_price_public.Auth.Revoked.{logout_route-authenticate}
use vpn_price_public.Auth.Tests.{toy, site}

-- Tokens that are their own identifiers, and end at 2000.
abbrev claims_of : Text → Claims
claims_of token = record {
  subject = codes "1";
  jti = token;
  role = codes "user";
  expires_at = some 2000;
}

abbrev parse_toy : ℕ → Text → Option Claims
parse_toy now token = if ltb now 2000 then some (claims_of token) else none

abbrev toy_codec : Codec
toy_codec = record {
  parse_access = parse_toy;
  parse_uuid = λ s. some 1;
  decode = λ name body. some body;
  decode_loosely = λ name body. body;
}

parse_toy-some :
    (now : ℕ) (token : Text) {a : Claims}
    → parse_toy now token ≡ some a
    → (a ≡ claims_of token) × (now < 2000)
parse_toy-some now token {a} h = elim (Bool-cases (ltb now 2000)) [
  | inl early ↦ (ground arith, ground arith)
  | inr late ↦ ground arith
]

abbrev request : Request
request = record { authorization = codes "bearer tok "; body = codes "old"; principal = none }

bearer_token_test : bearer_token request ≡ codes "tok"
unfolding bearer_token trim_space
bearer_token_test = refl

abbrev greeting : Handler
greeting r w = (reply 200 (status (codes "hello")), w)

admitted_test :
    (authenticate toy toy_codec (require_role (codes "user" ∷ []) greeting) request site).0.code
    ≡ 200
unfolding authenticate require_role bearer_token trim_space is_blacklisted access
admitted_test = refl

forbidden_test :
    (authenticate toy toy_codec (require_role (codes "admin" ∷ []) greeting) request site).0.code
    ≡ 403
unfolding authenticate require_role bearer_token trim_space is_blacklisted access
forbidden_test = refl

authenticate-require_role_example :
    Verdict
      (IsAdmitted toy toy_codec (codes "user" ∷ []) greeting request site)
      greeting
      request
      site
      (authenticate toy toy_codec (require_role (codes "user" ∷ []) greeting) request site)
authenticate-require_role_example =
    authenticate-require_role toy toy_codec (codes "user" ∷ []) greeting request site

parsed_request : parse_toy 1000 (bearer_token request) ≡ some (claims_of (codes "tok"))
unfolding bearer_token trim_space
parsed_request = refl

logout_test : (logout_route toy toy_codec request site).0.code ≡ 200
unfolding logout_route bearer_token trim_space logout get_session_by_hash is_blacklisted access
logout_test = refl

logout_route-authenticate_example :
    let u = record (logout_route toy toy_codec request site).1 { now = 1500; refused = [] } in
    let a = authenticate toy toy_codec greeting request u in (a.0.code ≡ 401) ⊎ (a.0.code ≡ 503)
logout_route-authenticate_example =
    logout_route-authenticate toy toy_codec request request site 1500 [] greeting
      {claims = claims_of (codes "tok")} {expiry = 2000}
      (λ token early late a b x y.
        (parse_toy-some early token x).0 ∙ sym (parse_toy-some late token y).0)
      (λ token now end a x ends.
        let (same, early) = parse_toy-some now token x in
        let still : some 2000 ≡ some end =
          subst (λ (y : Claims). y.expires_at ≡ some end) same ends in
        ground arith)
      parsed_request refl logout_test refl (omega arith)
