-- ===== src/Billing/Service.antt =====
-- internal/billing/service.go: purchases, promo codes, webhooks and the delivery of paid orders.
use vpn_price_public.Base.{
  ℕ, ◌+◌, ◌-◌, ◌*◌, ◌/◌, Bool, false, not, ◌&&◌, Option, none, some, List, [], ◌∷◌, ◌++◌, ◌==◌, ltb,
  if◌then◌else◌, Text, codes, is_empty, trim_space,
}
use vpn_price_public.Billing.Model.{
  Order, Payment, PaymentStatus, Plan, Promo, PromoType, percent, fixed, Subscription, Provider,
  CreateInput, CreatePaymentInput, CreatePaymentResult, WebhookResult, bad_protocol,
  unknown_gateway, promo_invalid, too_many_pending, gateway_failed, provision_failed, Result, ok,
  err, protocol_valid,
}
use vpn_price_public.Billing.Store.{
  World, M, ◌>>=◌, ◌>>◌, pure, raise, guard, lift, or_raise, ignore,
}
use vpn_price_public.Billing.Repository.{
  NewOrder, OrderForProvision, get_plan_pricing, get_promo_by_code, count_recent_pending_orders,
  create_order, create_payment, get_order_for_provision, get_order_by_external_payment,
}
use vpn_price_public.Billing.Settlement.{
  extend_subscription, claim_for_provisioning, finalize_paid, mark_failed, record_webhook,
  mark_webhook_processed, order_subscription_id,
}

abbrev pub pending_window : ℕ
pending_window = 600

abbrev pub max_pending_order : ℕ
max_pending_order = 5

pub record BuyInput : Type 0 where
  pub user_id : ℕ
  pub plan_id : ℕ
  pub country_id : ℕ
  pub protocol : Text
  pub gateway : Text
  pub promo_code : Text
  pub label : Option Text
  pub renew_subscription_id : Option ℕ
  pub routing : Text

abbrev pub is_expired : ℕ → Option ℕ → Bool
is_expired now none = false
is_expired now (some t) = ltb t now

-- `round2` of the discount in cents: halves are rounded up.
unfoldable pub discount_of : PromoType → ℕ → ℕ → ℕ
discount_of percent price discount = (price * discount + 5000) / 10000
discount_of fixed price discount = discount

abbrev pub current_time : M ℕ
current_time w = (ok w.now, w)

unfoldable pub apply_promo : Promo → Plan → M (ℕ × Option ℕ)
unfolding discount_of
apply_promo promo plan = do
  now ← current_time
  guard (promo.active && not (is_expired now promo.expires_at)) promo_invalid
  pure (discount_of promo.type plan.price promo.discount, some promo.id)

unfoldable pub resolve_promo : Text → Plan → M (ℕ × Option ℕ)
unfolding apply_promo
resolve_promo code plan =
    let loaded = (do promo ← get_promo_by_code (trim_space code); apply_promo promo plan) in
    if is_empty (trim_space code) then pure (0, none) else loaded

-- `PromoPreview`: the discount and what is left to pay.
unfoldable pub promo_preview : Text → ℕ → M (ℕ × ℕ)
promo_preview code plan_id = do
  plan ← get_plan_pricing plan_id
  promo ← resolve_promo code plan
  pure (promo.0, plan.price - promo.0)

abbrev pub new_order : BuyInput → Plan → ℕ × Option ℕ → NewOrder
new_order input plan (discount, promo_id) = record {
  user_id = input.user_id;
  plan_id = input.plan_id;
  country_id = input.country_id;
  protocol = input.protocol;
  amount = plan.price - discount;
  discount = discount;
  currency = plan.currency;
  gateway = input.gateway;
  promo_id = promo_id;
  label = input.label;
  renew_subscription_id = input.renew_subscription_id;
  routing = input.routing;
}

-- The wired service: the providers by name, the issuer of VPNs, which works on the subscriptions,
-- the two texts of the ledger's hashes, and the base of the callback addresses.
pub record Service : Type 0 where
  pub providers : Text → Option Provider
  pub issuer : CreateInput → List Subscription → Result ℕ × List Subscription
  pub sha256_hex : Text → Text
  pub uuid_text : ℕ → Text
  pub callback_url : Text

module _ (s : Service) where
  -- What follows the answer of the gateway.
  unfoldable pub register_payment :
      Order → Text → Text → Result CreatePaymentResult → M (Order × Payment)
  register_payment o gateway currency (err e) = do ignore (mark_failed o.id); raise gateway_failed
  register_payment o gateway currency (ok res) = do
    p ← create_payment o.id gateway res.external_id res.status o.amount currency res.payment_url
    pure (o, p)

  abbrev pub payment_input : Order → Text → Text → CreatePaymentInput
  payment_input o gateway currency = record {
    order_id = o.id;
    amount = o.amount;
    currency = currency;
    description = codes "VPN subscription";
    callback_url = s.callback_url ++ (codes "/api/v1/billing/webhook/" ++ gateway);
    return_url = s.callback_url;
  }

  unfoldable pub buy : BuyInput → M (Order × Payment)
  unfolding register_payment
  buy input = do
    guard (protocol_valid input.protocol) bad_protocol
    provider ← or_raise (s.providers input.gateway) unknown_gateway
    plan ← get_plan_pricing input.plan_id
    promo ← resolve_promo input.promo_code plan
    now ← current_time
    pending ← count_recent_pending_orders input.user_id now pending_window
    guard (ltb pending max_pending_order) too_many_pending
    o ← create_order now (new_order input plan promo)
    register_payment o input.gateway plan.currency
        (provider.create_payment (payment_input o input.gateway plan.currency))

  -- The call of the issuer, which is noted.
  unfoldable pub issue : ℕ → CreateInput → M ℕ
  issue order input w =
      let (r, subs) = s.issuer input w.db.subscriptions in
      let w' : World = record w {
        db = record w.db { subscriptions = subs };
        issued = order ∷ w.issued;
      } in
      (elim r [ ok sub ↦ ok sub | err e ↦ err provision_failed ], w')

  abbrev pub create_input : OrderForProvision → CreateInput
  create_input o = record {
    user_id = o.user_id;
    country_id = o.country_id;
    protocol = o.protocol;
    plan_id = o.plan_id;
    label = o.label;
    routing = o.routing;
  }

  -- The part of `fulfill` that only the claimant runs.
  unfoldable pub deliver : OrderForProvision → Option ℕ → M ℕ
  unfolding issue
  deliver o (some sub) = do
    plan ← get_plan_pricing o.plan_id
    now ← current_time
    extend_subscription now sub plan.days
    finalize_paid s.sha256_hex s.uuid_text now o.id sub
    pure sub
  deliver o none = do
    sub ← issue o.id (create_input o)
    now ← current_time
    finalize_paid s.sha256_hex s.uuid_text now o.id sub
    pure sub

  unfoldable pub fulfill : OrderForProvision → M ℕ
  unfolding deliver
  fulfill o = do
    claimed ← claim_for_provisioning o.id
    (if claimed then deliver o o.renew_sub_id else order_subscription_id o.id)

  unfoldable pub fulfill_order : ℕ → M ℕ
  unfolding fulfill
  fulfill_order id = do o ← get_order_for_provision id; fulfill o

  unfoldable pub resolve_order : Text → WebhookResult → M OrderForProvision
  resolve_order gateway res =
      if res.order_id == 0
      then get_order_by_external_payment gateway res.external_id
      else get_order_for_provision res.order_id

  unfoldable pub settle : PaymentStatus → Text → Text → OrderForProvision → M (Unit {0})
  unfolding fulfill
  settle PaymentStatus.success gateway external o = do
    fulfill o
    ignore (mark_webhook_processed gateway external)
  settle PaymentStatus.failed gateway external o = do
    mark_failed o.id
    ignore (mark_webhook_processed gateway external)
  settle _ gateway external o = pure tt

  unfoldable pub handle_webhook : Text → List (Text × Text) → Text → M (Unit {0})
  unfolding resolve_order settle
  handle_webhook gateway headers body = do
    provider ← or_raise (s.providers gateway) unknown_gateway
    res ← lift (provider.parse_webhook headers body)
    record_webhook gateway res.external_id res.status body
    o ← resolve_order gateway res
    settle res.status gateway res.external_id o

  -- `ConfirmMock`, with the body that it sends to the mock gateway.
  abbrev pub mock_body : ℕ → Text
  mock_body id =
      let name = s.uuid_text id in
      codes "{\"external_id\":\"mock-"
      ++ (name ++ (codes "\",\"order_id\":\"" ++ (name ++ codes "\",\"status\":\"success\"}")))

  unfoldable pub confirm_mock : ℕ → M (Unit {0})
  unfolding handle_webhook
  confirm_mock id = do
    or_raise (s.providers (codes "mock")) unknown_gateway
    handle_webhook (codes "mock") [] (mock_body id)
