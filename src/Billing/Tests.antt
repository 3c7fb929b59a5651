-- ===== src/Billing/Tests.antt =====
-- Concrete runs of billing: a shop with one plan, one promo code and a gateway that confirms.
use vpn_price_public.Base.{
  ℕ, ◌+◌, ◌≤◌, ◌≡◌, refl, arith, true, false, none, some, List, [], ◌∷◌, codes, any, find, count_by,
  text_eq, trim_space, if◌then◌else◌,
}
use vpn_price_public.Billing.Model.{
  Order, OrderStatus, Payment, PaymentStatus, Plan, Promo, PromoType, Subscription,
  SubscriptionStatus, Provider, CreateInput, Result, ok,
}
use vpn_price_public.Billing.Store.{World, statement}
use vpn_price_public.Billing.Repository.{
  create_order, create_body, create_payment, get_plan_pricing, get_promo_by_code,
  count_recent_pending_orders,
}
use vpn_price_public.Billing.Settlement.{finalize_paid, mark_failed, settled, next_entry}
use vpn_price_public.Billing.Atomic.{Atomic}
use vpn_price_public.Billing.Settled.{
  Finalized, MarkedFailed, Created, finalize_paid-Atomic, mark_failed-Atomic, create_order-Atomic,
}
use vpn_price_public.Billing.Counts.{has_id, paid, waiting}
use vpn_price_public.Billing.Promos.{is_overused}
use vpn_price_public.Billing.Books.{IsSound, called, charge_of}
use vpn_price_public.Billing.Service.{
  Service, BuyInput, new_order, resolve_promo, buy, promo_preview, fulfill_order,
}
use vpn_price_public.Billing.Requests.{
  purchase, webhook, Arrival, serve, opening, IsUnused, opening-IsSound, serve-IsSound, serve-once,
}
use vpn_price_public.Billing.Delivered.{calm, fulfill_order-delivers, fulfill_order-idle}
use vpn_price_public.Billing.Pricing.{buy-promo_preview}
use vpn_price_public.Billing.Expirer.{sweep, is_overdue, AreSwept, sweep-sweep}

abbrev plan : Plan
plan = record { id = 1; price = 49900; currency = codes "RUB"; days = 30; active = true }

abbrev promo : Promo
promo = record {
  id = 1;
  code = codes "TEN";
  type = PromoType.percent;
  discount = 1000;
  max_uses = some 1;
  used_count = 0;
  expires_at = none;
  active = true;
}

-- Names a payment `a`, and confirms whatever it is called with.
abbrev gateway : Provider
gateway = record {
  create_payment = λ input.
      ok (record { external_id = codes "a"; payment_url = []; status = PaymentStatus.pending });
  parse_webhook = λ headers body.
      ok (record { external_id = codes "a"; order_id = 0; status = PaymentStatus.success });
}

abbrev issue_seven : CreateInput → List Subscription → Result ℕ × List Subscription
issue_seven input subs =
    (ok 7, record { id = 7; status = SubscriptionStatus.active; expires_at = 2592000 } ∷ subs)

abbrev pub shop : Service
shop = record {
  providers = λ name. if text_eq name (codes "mock") then some gateway else none;
  issuer = issue_seven;
  sha256_hex = λ t. t;
  uuid_text = λ n. n ∷ [];
  callback_url = codes "https://vpn";
}

abbrev first_purchase : BuyInput
first_purchase = record {
  user_id = 5;
  plan_id = 1;
  country_id = 1;
  protocol = codes "wireguard";
  gateway = codes "mock";
  promo_code = codes "ten";
  label = none;
  renew_subscription_id = none;
  routing = [];
}

abbrev pub start : World
start = opening (plan ∷ []) (promo ∷ []) []

start-IsUnused : IsUnused (promo ∷ [])
start-IsUnused = (λ p. ground arith, λ p. ground arith, refl)

-- A purchase, its callback with the eighth statement refused, and the callback again.
abbrev arrivals : List Arrival
arrivals =
    record { request = purchase first_purchase; at = 100; faults = [] }
    ∷ record {
      request = webhook (codes "mock") [] [];
      at = 200;
      faults = false ∷ false ∷ false ∷ true ∷ [];
    }
    ∷ record { request = webhook (codes "mock") [] []; at = 300; faults = [] }
    ∷ []

serve-IsSound_example :
    IsSound shop.sha256_hex shop.uuid_text
      (serve shop arrivals start).db
      (serve shop arrivals start).issued
serve-IsSound_example =
    serve-IsSound shop arrivals start
      (opening-IsSound shop (plan ∷ []) (promo ∷ []) [] start-IsUnused)

serve-once_example :
    let w = serve shop arrivals (opening (plan ∷ []) (promo ∷ []) []) in
    (called 1 w.issued + waiting 1 w.db.orders ≤ 1)
    × (count_by (charge_of 1) w.db.ledger ≡ paid 1 w.db.orders)
    × (paid 1 w.db.orders ≤ 1)
    × (any is_overused w.db.promos ≡ false)
serve-once_example = serve-once shop (plan ∷ []) (promo ∷ []) [] arrivals 1 start-IsUnused

-- The order that the purchase makes.
abbrev first_order : Order
first_order = record {
  id = 1;
  user_id = 5;
  plan_id = 1;
  country_id = 1;
  protocol = codes "wireguard";
  amount = 44910;
  discount = 4990;
  currency = codes "RUB";
  gateway = codes "mock";
  promo_id = some 1;
  label = none;
  renew_subscription_id = none;
  routing = codes "full";
  status = OrderStatus.wait_payment;
  subscription_id = none;
  created_at = 0;
  paid_at = none;
}

abbrev first_payment : Payment
first_payment = record {
  id = 2;
  order_id = 1;
  gateway = codes "mock";
  external_id = codes "a";
  status = PaymentStatus.pending;
  amount = 44910;
  currency = codes "RUB";
  payment_url = [];
}

abbrev bought : World
bought = (buy shop first_purchase (calm start)).1

bought-first_order :
    buy shop first_purchase (calm start) ≡ (ok (first_order, first_payment), bought)
unfolding buy get_plan_pricing statement resolve_promo trim_space get_promo_by_code
    count_recent_pending_orders create_order create_body create_payment
bought-first_order = refl

buy-promo_preview_example :
    promo_preview (codes "ten") 1 (calm start) ≡ (ok (4990, 44910), calm start)
buy-promo_preview_example =
    buy-promo_preview shop first_purchase start {o = first_order} {p = first_payment} {w' = bought}
      bought-first_order

-- The shop with the order placed, the third statement to come refused.
abbrev placed : World
placed = record start {
  db = record start.db { orders = first_order ∷ []; next_id = 2 };
  faults = false ∷ false ∷ true ∷ [];
}

finalize_paid-Atomic_example :
    Atomic
      (Finalized shop.sha256_hex shop.uuid_text 200 1 7)
      placed
      (finalize_paid shop.sha256_hex shop.uuid_text 200 1 7 placed)
finalize_paid-Atomic_example = finalize_paid-Atomic shop.sha256_hex shop.uuid_text 200 1 7 placed

mark_failed-Atomic_example : Atomic (MarkedFailed 1) placed (mark_failed 1 placed)
mark_failed-Atomic_example = mark_failed-Atomic 1 placed

create_order-Atomic_example :
    Atomic
      (Created 300 (new_order first_purchase plan (4990, some 1)))
      placed
      (create_order 300 (new_order first_purchase plan (4990, some 1)) placed)
create_order-Atomic_example =
    create_order-Atomic 300 (new_order first_purchase plan (4990, some 1)) placed

fulfill_order-delivers_example :
    let r = fulfill_order shop 1 (calm placed) in
    (r.0 ≡ ok 7)
    × (find (has_id 1) r.1.db.orders ≡ some (settled 0 7 first_order))
    × (r.1.issued ≡ 1 ∷ [])
    × (r.1.db.ledger
        ≡ next_entry shop.sha256_hex shop.uuid_text [] 5
            (codes "charge")
            44910
            (codes "RUB")
            (codes "order")
            1
          ∷ [])
fulfill_order-delivers_example =
    fulfill_order-delivers shop placed {o = first_order} {sub = 7}
      {subs = record { id = 7; status = SubscriptionStatus.active; expires_at = 2592000 } ∷ []} refl
      refl refl refl

-- The shop after the issuer has failed for the claimed order.
abbrev left_behind : World
left_behind = record placed {
  db = record placed.db { orders = record first_order { status = OrderStatus.processing } ∷ [] };
}

fulfill_order-idle_example : fulfill_order shop 1 (calm left_behind) ≡ (ok 0, calm left_behind)
fulfill_order-idle_example =
    fulfill_order-idle shop left_behind 1
      {o = record first_order { status = OrderStatus.processing }} refl refl refl

abbrev sub : ℕ → SubscriptionStatus → ℕ → Subscription
sub id status expires_at = record { id = id; status = status; expires_at = expires_at }

-- A subscription that ran out, one within the grace, and one that is paused.
abbrev subscribed : World
subscribed = record start {
  db = record start.db {
    subscriptions =
        sub 7 SubscriptionStatus.active 10
        ∷ sub 8 SubscriptionStatus.active 40
        ∷ sub 9 SubscriptionStatus.paused 10
        ∷ [];
  };
}

sweep-sweep_example :
    let w1 = (sweep 60 100 (record subscribed { faults = [] })).1 in
    AreSwept 60 100 subscribed.db.subscriptions w1.db.subscriptions
    × (any (is_overdue 60 100) w1.db.subscriptions ≡ false)
    × ((sweep 60 100 w1).1 ≡ w1)
    × (w1 ≡ record subscribed { db = record subscribed.db { subscriptions = w1.db.subscriptions } })
    × ((sweep 60 100 (record subscribed { faults = true ∷ [] })).1
        ≡ record subscribed { faults = [] })
sweep-sweep_example = sweep-sweep 60 100 subscribed []

swept :
    (sweep 60 100 subscribed).1.db.subscriptions
    ≡ sub 7 SubscriptionStatus.expired 10
      ∷ sub 8 SubscriptionStatus.active 40
      ∷ sub 9 SubscriptionStatus.paused 10
      ∷ []
unfolding sweep statement
swept = refl
