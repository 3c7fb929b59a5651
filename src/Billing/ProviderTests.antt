-- ===== src/Billing/ProviderTests.antt =====
-- Concrete calls of the gateways.
use vpn_price_public.Base.{◌≡◌, refl, ◌⊎◌, some, [], ◌∷◌, codes}
use vpn_price_public.Base.Json.{Json, Members}
use vpn_price_public.Billing.Model.{PaymentStatus, bad_payload, invalid_signature, err, ok}
use vpn_price_public.Billing.Service.{Service, handle_webhook}
use vpn_price_public.Billing.Providers.{
  Wire, mock_provider, cryptomus_provider, map_mock_status, map_cryptomus_status,
}
use vpn_price_public.Billing.Signed.{IsSigned, reading, handle_webhook-IsSigned}
use vpn_price_public.Billing.Tests.{shop, start}

-- A body is its own signature, and the object that is signed is "m".
abbrev toy_wire : Wire
toy_wire = record {
  uuid_text = λ n. n ∷ [];
  parse_uuid = λ s. some 7;
  unmarshal = λ body. some (
      Members.member (codes "sign") (Json.string body)
        (Members.member (codes "status") (Json.string (codes "paid")) Members.empty));
  marshal = λ m. codes "m";
  unmarshal_mock = λ body. some (body, codes "7", codes "paid");
  base64 = λ t. t;
  md5_hex = λ t. t;
  exchange = λ headers body. some (codes "pay-1", codes "https://pay");
}

abbrev crypto_shop : Service
crypto_shop = record shop {
  providers = λ name. some (cryptomus_provider toy_wire (codes "shop") (codes "key"));
}

handle_webhook-IsSigned_example :
    let r = handle_webhook crypto_shop (codes "cryptomus") [] (codes "mkey") start in
    (((r.0 ≡ err bad_payload) ⊎ (r.0 ≡ err invalid_signature)) × (r.1 ≡ start))
    ⊎ ((raw : Members) × (toy_wire.unmarshal (codes "mkey") ≡ some raw)
        × IsSigned toy_wire (codes "key") raw
        × ((cryptomus_provider toy_wire (codes "shop") (codes "key")).parse_webhook []
              (codes "mkey")
            ≡ ok (reading raw)))
handle_webhook-IsSigned_example =
    handle_webhook-IsSigned crypto_shop toy_wire (codes "shop") (codes "key") (codes "cryptomus") []
      (codes "mkey") start refl

forged_test :
    (handle_webhook crypto_shop (codes "cryptomus") [] (codes "forged") start).0
    ≡ err invalid_signature
unfolding handle_webhook cryptomus_provider
forged_test = refl

signed_test :
    (cryptomus_provider toy_wire (codes "shop") (codes "key")).parse_webhook [] (codes "mkey")
    ≡ ok (record { external_id = []; order_id = 0; status = PaymentStatus.success })
unfolding cryptomus_provider map_cryptomus_status
signed_test = refl

mock_test :
    (mock_provider toy_wire []).parse_webhook [] (codes "a")
    ≡ ok (record { external_id = codes "a"; order_id = 7; status = PaymentStatus.success })
unfolding mock_provider map_mock_status
mock_test = refl
