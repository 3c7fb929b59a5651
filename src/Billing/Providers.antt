-- ===== src/Billing/Providers.antt =====
-- internal/billing/provider_mock.go, provider_stars.go and provider_cryptomus.go: the gateways.
use vpn_price_public.Base.{
  ℕ, Bool, ◌||◌, not, Option, none, some, List, [], ◌∷◌, ◌++◌, any, if◌then◌else◌, Text, codes,
  text_eq, is_empty,
}
use vpn_price_public.Base.Json.{Json, Members, get}
use vpn_price_public.Billing.Model.{
  PaymentStatus, CreatePaymentInput, CreatePaymentResult, WebhookResult, unknown_gateway,
  invalid_signature, bad_payload, gateway_failed, Result, ok, err, Provider,
}
use vpn_price_public.Billing.Settlement.{amount_text}

-- Libraries: identifiers as text, encoding/json on `map[string]any` and on the three fields of the
-- mock's body, base64, the hex text of an MD5 sum, and the exchange with the gateway's server, which
-- answers the identifier and the URL of the payment, if it does.
pub record Wire : Type 0 where
  pub uuid_text : ℕ → Text
  pub parse_uuid : Text → Option ℕ
  pub unmarshal : Text → Option Members
  pub marshal : Members → Text
  pub unmarshal_mock : Text → Option (Text × Text × Text)
  pub base64 : Text → Text
  pub md5_hex : Text → Text
  pub exchange : List (Text × Text) → Text → Option (Text × Text)

abbrev pub among : Text → List Text → Bool
among s ts = any (text_eq s) ts

unfoldable pub map_mock_status : Text → PaymentStatus
map_mock_status s =
    if among s (codes "success" ∷ codes "paid" ∷ [])
    then PaymentStatus.success
    else (if among s (codes "failed" ∷ codes "fail" ∷ codes "cancel" ∷ [])
        then PaymentStatus.failed
        else PaymentStatus.pending)

unfoldable pub map_cryptomus_status : Text → PaymentStatus
map_cryptomus_status s =
    if among s (codes "paid" ∷ codes "paid_over" ∷ [])
    then PaymentStatus.success
    else (if among s
          (codes "fail" ∷ codes "cancel" ∷ codes "system_fail" ∷ codes "wrong_amount" ∷ [])
        then PaymentStatus.failed
        else PaymentStatus.pending)

-- `delete(m, key)`
abbrev pub without : Text → Members → Members
without key Members.empty = Members.empty
without key (Members.member k v m) =
    let rest = without key m in if text_eq k key then rest else Members.member k v rest

-- `s, _ := v.(string)`
abbrev pub string_or_empty : Json → Text
string_or_empty (Json.string s) = s
string_or_empty _ = []

abbrev pub status_or_pending : Json → PaymentStatus
status_or_pending (Json.string s) = map_cryptomus_status s
status_or_pending _ = PaymentStatus.pending

module _ (wire : Wire) where
  -- The identifier that the mock's body echoes; 0 if there is none that can be read.
  abbrev pub echoed : Option ℕ → ℕ
  echoed none = 0
  echoed (some id) = id

  abbrev pub mock_result : Option (Text × Text × Text) → Result WebhookResult
  mock_result none = err bad_payload
  mock_result (some p) = ok (record {
    external_id = p.0;
    order_id = if is_empty p.1 then 0 else echoed (wire.parse_uuid p.1);
    status = map_mock_status p.2;
  })

  unfoldable pub mock_provider : Text → Provider
  mock_provider base_url = record {
    create_payment = λ input. ok (record {
      external_id = codes "mock-" ++ wire.uuid_text input.order_id;
      payment_url = base_url ++ (codes "/billing/dev/pay/" ++ wire.uuid_text input.order_id);
      status = PaymentStatus.created;
    });
    parse_webhook = λ headers body. mock_result (wire.unmarshal_mock body);
  }

  unfoldable pub stars_provider : Provider
  stars_provider = record {
    create_payment = λ input. ok (record {
      external_id = codes "stars-" ++ wire.uuid_text input.order_id;
      payment_url = [];
      status = PaymentStatus.pending;
    });
    parse_webhook = λ headers body. err unknown_gateway;
  }

  unfoldable pub sign : Text → Text → Text
  sign api_key body = wire.md5_hex (wire.base64 body ++ api_key)

  abbrev pub invoice : CreatePaymentInput → Members
  invoice input = Members.member (codes "amount") (Json.string (amount_text input.amount)) (
      Members.member (codes "currency") (Json.string input.currency) (
        Members.member (codes "order_id") (Json.string (wire.uuid_text input.order_id)) (
          Members.member (codes "url_callback") (Json.string input.callback_url)
            (Members.member (codes "url_return") (Json.string input.return_url) Members.empty))))

  abbrev pub registered : Option (Text × Text) → Result CreatePaymentResult
  registered none = err gateway_failed
  registered (some answer) =
      if is_empty answer.0
      then err gateway_failed
      else ok (record {
        external_id = answer.0;
        payment_url = answer.1;
        status = PaymentStatus.pending;
      })

  abbrev pub headers_of : Text → Text → Text → List (Text × Text)
  headers_of merchant api_key body =
      (codes "Content-Type", codes "application/json")
      ∷ (codes "merchant", merchant)
      ∷ (codes "sign", sign api_key body)
      ∷ []

  -- The rest of `ParseWebhook` for a body that is an object.
  abbrev pub verified : Text → Members → Result WebhookResult
  verified api_key raw =
      let claimed = string_or_empty (get (codes "sign") raw) in
      if is_empty claimed
        || not (text_eq claimed (sign api_key (wire.marshal (without (codes "sign") raw))))
      then err invalid_signature
      else ok (record {
        external_id = string_or_empty (get (codes "uuid") raw);
        order_id = 0;
        status = status_or_pending (get (codes "status") raw);
      })

  abbrev pub verified_object : Text → Option Members → Result WebhookResult
  verified_object api_key none = err bad_payload
  verified_object api_key (some raw) = verified api_key raw

  unfoldable pub cryptomus_provider : Text → Text → Provider
  unfolding sign
  cryptomus_provider merchant api_key = record {
    create_payment = λ input.
        let body = wire.marshal (invoice input) in
        registered (wire.exchange (headers_of merchant api_key body) body);
    parse_webhook = λ headers body. verified_object api_key (wire.unmarshal body);
  }
