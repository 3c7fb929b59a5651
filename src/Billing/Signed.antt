-- ===== src/Billing/Signed.antt =====
-- internal/billing/provider_cryptomus.go: the signatures of webhooks.
use vpn_price_public.Base.{
  ◌≡◌, refl, ◌∙◌, ap, ◌⊎◌, inl, inr, false, Bool-cases, Option-cases, some, List, ◌++◌, arith, Text,
  codes, text_eq, text_eq-eq, is_empty,
}
use vpn_price_public.Base.Json.{Json, Members, get}
use vpn_price_public.Billing.Model.{WebhookResult, invalid_signature, bad_payload, ok, err}
use vpn_price_public.Billing.Store.{World}
use vpn_price_public.Billing.Service.{Service, handle_webhook}
use vpn_price_public.Billing.Providers.{
  Wire, without, string_or_empty, status_or_pending, sign, verified, verified_object,
  cryptomus_provider,
}

string_or_empty-string :
    (j : Json) → is_empty (string_or_empty j) ≡ false → j ≡ Json.string (string_or_empty j)
string_or_empty-string Json.null h = ground arith
string_or_empty-string (Json.boolean b) h = ground arith
string_or_empty-string (Json.number n) h = ground arith
string_or_empty-string (Json.string s) h = refl
string_or_empty-string (Json.array xs) h = ground arith
string_or_empty-string (Json.object m) h = ground arith

-- An object whose member "sign" is the MD5 sum of the base64 text of the rest and the key.
abbrev pub IsSigned : Wire → Text → Members → Type 0
IsSigned wire key raw =
    let rest = wire.marshal (without (codes "sign") raw) in
    get (codes "sign") raw ≡ Json.string (wire.md5_hex (wire.base64 rest ++ key))

abbrev pub reading : Members → WebhookResult
reading raw = record {
  external_id = string_or_empty (get (codes "uuid") raw);
  order_id = 0;
  status = status_or_pending (get (codes "status") raw);
}

verified-cases :
    (wire : Wire) (key : Text) (raw : Members)
    → (verified wire key raw ≡ err invalid_signature)
      ⊎ (IsSigned wire key raw × (verified wire key raw ≡ ok (reading raw)))
unfolding sign
verified-cases wire key raw =
    let claimed = string_or_empty (get (codes "sign") raw) in
    let right = wire.md5_hex (wire.base64 (wire.marshal (without (codes "sign") raw)) ++ key) in
    elim (Bool-cases (is_empty claimed)) [
      | inl missing ↦ inl (rw missing refl)
      | inr there ↦ elim (Bool-cases (text_eq claimed right)) [
        | inl same ↦ inr (
          string_or_empty-string (get (codes "sign") raw) there
              ∙ ap Json.string (text_eq-eq claimed right same),
          rw (there, same) refl,
        )
        | inr other ↦ inl (rw (there, other) refl)
      ]
    ]

parsed-cases :
    (wire : Wire) (key body : Text)
    → let parsed = verified_object wire key (wire.unmarshal body) in
      ((parsed ≡ err bad_payload) ⊎ (parsed ≡ err invalid_signature))
      ⊎ ((raw : Members) × (wire.unmarshal body ≡ some raw)
          × IsSigned wire key raw
          × (parsed ≡ ok (reading raw)))
parsed-cases wire key body = elim (Option-cases (wire.unmarshal body)) [
  | inl garbled ↦ inl (inl (rw garbled refl))
  | inr (raw, read) ↦ elim (verified-cases wire key raw) [
    | inl refused ↦ inl (inr (rw read refused))
    | inr (signed, done) ↦ inr (raw, read, signed, rw read done)
  ]
]

-- A webhook of a gateway that is Cryptomus either fails as a bad payload or as wrongly signed, with
-- the world as it was; or its body is an object whose member "sign" is the MD5 sum of the base64
-- text of the rest, printed again, followed by the API key, and is read as the identifier and the
-- status in it.
pub handle_webhook-IsSigned :
    (s : Service) (wire : Wire) (merchant key gateway : Text) (headers : List (Text × Text))
    (body : Text) (w : World)
    → s.providers gateway ≡ some (cryptomus_provider wire merchant key)
    → let r = handle_webhook s gateway headers body w in
      (((r.0 ≡ err bad_payload) ⊎ (r.0 ≡ err invalid_signature)) × (r.1 ≡ w))
      ⊎ ((raw : Members) × (wire.unmarshal body ≡ some raw)
          × IsSigned wire key raw
          × ((cryptomus_provider wire merchant key).parse_webhook headers body ≡ ok (reading raw)))
unfolding handle_webhook cryptomus_provider
handle_webhook-IsSigned s wire merchant key gateway headers body w known =
    elim (parsed-cases wire key body) [
      | inl (inl garbled) ↦ inl (rw (known, garbled) (inl refl, refl))
      | inl (inr refused) ↦ inl (rw (known, refused) (inr refl, refl))
      | inr accepted ↦ inr accepted
    ]
