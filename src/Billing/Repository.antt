-- ===== src/Billing/Repository.antt =====
-- internal/billing/repository.go: the statements that billing sends to the database.
use vpn_price_public.Base.{
  ℕ, suc, ◌+◌, Bool, true, false, ◌&&◌, Option, none, some, List, ◌∷◌, ◌==◌, ltb, if◌then◌else◌,
  any, length, find, select, update_where, Text, text_eq, citext_eq, codes, is_empty,
}
use vpn_price_public.Billing.Model.{
  Order, OrderStatus, PaymentStatus, Payment, Plan, Promo, Redemption, SubscriptionStatus,
  BillingError, plan_not_found, promo_invalid, promo_used, order_not_found, database, Result, ok,
  err,
}
use vpn_price_public.Billing.Store.{M, ◌>>=◌, ◌>>◌, pure, statement, transaction}

abbrev pub is_waiting : OrderStatus → Bool
is_waiting OrderStatus.wait_payment = true
is_waiting _ = false

-- `status IN ('new','wait_payment')`
abbrev pub is_pending : OrderStatus → Bool
is_pending OrderStatus.new = true
is_pending OrderStatus.wait_payment = true
is_pending _ = false

-- `status IN ('wait_payment','processing')`
abbrev pub is_open : OrderStatus → Bool
is_open OrderStatus.wait_payment = true
is_open OrderStatus.processing = true
is_open _ = false

abbrev pub is_deleted : SubscriptionStatus → Bool
is_deleted SubscriptionStatus.deleted = true
is_deleted _ = false

abbrev pub found_or {ℓ} : {A : Type ℓ} → BillingError → Option A → Result A
found_or e none = err e
found_or e (some a) = ok a

unfoldable pub get_plan_pricing : ℕ → M Plan
get_plan_pricing plan_id =
    statement λ db. (found_or plan_not_found (find (λ p. p.id == plan_id && p.active) db.plans), db)

-- The column `code` is CITEXT.
unfoldable pub get_promo_by_code : Text → M Promo
get_promo_by_code code =
    statement λ db. (found_or promo_invalid (find (λ p. citext_eq p.code code) db.promos), db)

-- Orders of a user that are not paid and were created after `since`; the caller hands over `now`
-- and how far back it looks.
unfoldable pub count_recent_pending_orders : ℕ → ℕ → ℕ → M ℕ
count_recent_pending_orders user_id now window = statement λ db. (
  ok (
      length (
        select
          (λ (o : Order).
            o.user_id == user_id && (is_pending o.status && ltb now (o.created_at + window)))
          db.orders)),
  db,
)

pub record NewOrder : Type 0 where
  pub user_id : ℕ
  pub plan_id : ℕ
  pub country_id : ℕ
  pub protocol : Text
  pub amount : ℕ
  pub discount : ℕ
  pub currency : Text
  pub gateway : Text
  pub promo_id : Option ℕ
  pub label : Option Text
  pub renew_subscription_id : Option ℕ
  pub routing : Text

abbrev pub new_row : ℕ → ℕ → NewOrder → Order
new_row id now n = record {
  id = id;
  user_id = n.user_id;
  plan_id = n.plan_id;
  country_id = n.country_id;
  protocol = n.protocol;
  amount = n.amount;
  discount = n.discount;
  currency = n.currency;
  gateway = n.gateway;
  promo_id = n.promo_id;
  label = n.label;
  renew_subscription_id = n.renew_subscription_id;
  routing = if is_empty n.routing then codes "full" else n.routing;
  status = OrderStatus.wait_payment;
  subscription_id = none;
  created_at = now;
  paid_at = none;
}

-- `INSERT INTO orders … RETURNING …`
unfoldable pub insert_order : ℕ → NewOrder → M Order
insert_order now n = statement λ db.
    let row = new_row db.next_id now n in
    (ok row, record db { orders = row ∷ db.orders; next_id = suc db.next_id })

abbrev pub may_redeem : ℕ → Promo → Bool
may_redeem id p =
    p.id == id && (p.active && elim p.max_uses [ none ↦ true | some n ↦ ltb p.used_count n ])

abbrev pub use_once : Promo → Promo
use_once p = record p { used_count = suc p.used_count }

-- `UPDATE promocodes … RETURNING id`
unfoldable pub redeem_promo : ℕ → M (Unit {0})
redeem_promo id = statement λ db.
    if any (may_redeem id) db.promos
    then (ok tt, record db { promos = update_where (may_redeem id) use_once db.promos })
    else (err promo_invalid, db)

abbrev pub same_redemption : ℕ → ℕ → Redemption → Bool
same_redemption promo user r = r.promo_id == promo && r.user_id == user

-- `INSERT INTO promo_redemptions … ON CONFLICT DO NOTHING`
unfoldable pub insert_redemption : ℕ → ℕ → ℕ → M (Unit {0})
insert_redemption promo user order = statement λ db.
    if any (same_redemption promo user) db.redemptions then (err promo_used, db) else (
      ok tt,
      record db {
        redemptions =
            record { promo_id = promo; user_id = user; order_id = order } ∷ db.redemptions;
      },
    )

unfoldable pub redeem : Option ℕ → ℕ → Order → M Order
unfolding redeem_promo insert_redemption
redeem none user o = pure o
redeem (some promo) user o = do redeem_promo promo; insert_redemption promo user o.id; pure o

unfoldable pub create_body : ℕ → NewOrder → M Order
unfolding insert_order redeem
create_body now n = do o ← insert_order now n; redeem n.promo_id n.user_id o

-- `CreateOrder`
unfoldable pub create_order : ℕ → NewOrder → M Order
unfolding transaction
create_order now n = transaction (create_body now n)

abbrev pub same_external : Text → Text → Payment → Bool
same_external gateway external p = text_eq p.gateway gateway && text_eq p.external_id external

-- `CreatePayment`; (gateway, external_id) is unique
unfoldable pub create_payment : ℕ → Text → Text → PaymentStatus → ℕ → Text → Text → M Payment
create_payment order gateway external status amount currency url = statement λ db.
    let row : Payment = record {
      id = db.next_id;
      order_id = order;
      gateway = gateway;
      external_id = external;
      status = status;
      amount = amount;
      currency = currency;
      payment_url = url;
    } in
    if any (same_external gateway external) db.payments
    then (err database, db)
    else (ok row, record db { payments = row ∷ db.payments; next_id = suc db.next_id })

pub record OrderForProvision : Type 0 where
  pub id : ℕ
  pub user_id : ℕ
  pub plan_id : ℕ
  pub country_id : ℕ
  pub protocol : Text
  pub status : OrderStatus
  pub label : Option Text
  pub renew_sub_id : Option ℕ
  pub routing : Text

-- `scanProvision`
abbrev pub for_provision : Order → OrderForProvision
for_provision o = record {
  id = o.id;
  user_id = o.user_id;
  plan_id = o.plan_id;
  country_id = o.country_id;
  protocol = o.protocol;
  status = o.status;
  label = o.label;
  renew_sub_id = o.renew_subscription_id;
  routing = o.routing;
}

abbrev pub provision_row : Option Order → Result OrderForProvision
provision_row none = err order_not_found
provision_row (some o) = ok (for_provision o)

unfoldable pub get_order_for_provision : ℕ → M OrderForProvision
get_order_for_provision id =
    statement λ db. (provision_row (find (λ (o : Order). o.id == id) db.orders), db)

abbrev pub order_of_payment : List Order → Option Payment → Option Order
order_of_payment orders none = none
order_of_payment orders (some p) = find (λ (o : Order). o.id == p.order_id) orders

unfoldable pub get_order_by_external_payment : Text → Text → M OrderForProvision
get_order_by_external_payment gateway external = statement λ db. (
  provision_row (order_of_payment db.orders (find (same_external gateway external) db.payments)),
  db,
)
