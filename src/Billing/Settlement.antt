-- ===== src/Billing/Settlement.antt =====
-- internal/billing/repository.go: the statements that settle an order.
use vpn_price_public.Base.{
  ℕ, ◌+◌, ◌*◌, ◌/◌, ◌%◌, Bool, true, false, not, ◌&&◌, Option, none, some, List, [], ◌∷◌, ◌++◌,
  ◌==◌, ltb, if◌then◌else◌, any, find, update_where, Text, codes, text_eq, decimal,
}
use vpn_price_public.Billing.Model.{
  Order, OrderStatus, Payment, PaymentStatus, LedgerEntry, WebhookEvent, Subscription,
  SubscriptionStatus, order_not_found, Result, ok, err,
}
use vpn_price_public.Billing.Store.{Db, M, ◌>>=◌, ◌>>◌, statement, transaction}
use vpn_price_public.Billing.Repository.{is_waiting, is_open, is_deleted, found_or}

abbrev pub order_in : (OrderStatus → Bool) → ℕ → Order → Bool
order_in within id o = o.id == id && within o.status

abbrev pub with_status : OrderStatus → Order → Order
with_status s o = record o { status = s }

-- `SET expires_at = GREATEST(expires_at, now()) + make_interval(days => …), status = 'active'`
abbrev pub extended : ℕ → ℕ → Subscription → Subscription
extended now days s = record s {
  expires_at = (if ltb s.expires_at now then now else s.expires_at) + days * 86400;
  status = SubscriptionStatus.active;
}

abbrev pub live_subscription : ℕ → Subscription → Bool
live_subscription id s = s.id == id && not (is_deleted s.status)

unfoldable pub extend_subscription : ℕ → ℕ → ℕ → M (Unit {0})
extend_subscription now id days = statement λ db.
    if any (live_subscription id) db.subscriptions
    then (
      ok tt,
      record db {
        subscriptions = update_where (live_subscription id) (extended now days) db.subscriptions;
      },
    )
    else (err order_not_found, db)

-- `ClaimForProvisioning`: false if the order does not wait for a payment.
unfoldable pub claim_for_provisioning : ℕ → M Bool
claim_for_provisioning id = statement λ db. (
  ok (any (order_in is_waiting id) db.orders),
  record db {
    orders = update_where (order_in is_waiting id) (with_status OrderStatus.processing) db.orders;
  },
)

abbrev pub settled : ℕ → ℕ → Order → Order
settled now sub o = record o {
  status = OrderStatus.paid;
  paid_at = some now;
  subscription_id = some sub;
}

-- `UPDATE orders SET status = 'paid' … RETURNING user_id, amount, currency`
unfoldable pub mark_order_paid : ℕ → ℕ → ℕ → M Order
mark_order_paid now id sub = statement λ db. (
  found_or order_not_found (find (order_in is_open id) db.orders),
  record db { orders = update_where (order_in is_open id) (settled now sub) db.orders },
)

abbrev pub payment_of : ℕ → Payment → Bool
payment_of id p = p.order_id == id

abbrev pub with_payment_status : PaymentStatus → Payment → Payment
with_payment_status s p = record p { status = s }

unfoldable pub mark_payments : PaymentStatus → ℕ → M (Unit {0})
mark_payments s id = statement λ db. (
  ok tt,
  record db { payments = update_where (payment_of id) (with_payment_status s) db.payments },
)

-- The hash of a user's newest entry, or the empty text.
abbrev pub last_hash : ℕ → List LedgerEntry → Text
last_hash user [] = []
last_hash user (e ∷ es) = if e.user_id == user then e.hash else last_hash user es

-- `%.2f` of an amount in cents
abbrev pub amount_text : ℕ → Text
amount_text cents =
    decimal (cents / 100) ++ b'.' ∷ (b'0' + cents / 10 % 10) ∷ (b'0' + cents % 10) ∷ []

abbrev pub null_if_empty : Text → Option Text
null_if_empty [] = none
null_if_empty (c ∷ s) = some (c ∷ s)

-- `sha256_hex` is the hex text of a SHA-256 sum, and `uuid_text` that of an identifier.
module _ (sha256_hex : Text → Text) (uuid_text : ℕ → Text) where
  abbrev pub ledger_payload : Text → Text → ℕ → Text → Text → ℕ → ℕ → Text
  ledger_payload prev type amount currency ref_type ref_id user =
      prev
      ++ b'|'
        ∷ (type
            ++ b'|'
              ∷ (amount_text amount
                  ++ b'|'
                    ∷ (currency
                        ++ b'|'
                          ∷ (ref_type ++ b'|' ∷ (uuid_text ref_id ++ b'|' ∷ uuid_text user)))))

  -- The entry that `appendLedger` writes for the ledger `es`.
  abbrev pub next_entry : List LedgerEntry → ℕ → Text → ℕ → Text → Text → ℕ → LedgerEntry
  next_entry es user type amount currency ref_type ref_id = record {
    user_id = user;
    type = type;
    amount = amount;
    currency = currency;
    ref_type = ref_type;
    ref_id = ref_id;
    prev_hash = null_if_empty (last_hash user es);
    hash =
        sha256_hex (ledger_payload (last_hash user es) type amount currency ref_type ref_id user);
  }

  -- The read of the previous hash and the insert are two statements of one transaction.
  unfoldable pub append_ledger : ℕ → Text → ℕ → Text → Text → ℕ → M (Unit {0})
  append_ledger user type amount currency ref_type ref_id = do
    es ← statement (λ (db : Db). (ok db.ledger, db))
    statement (λ (db : Db). (
      ok tt,
      record db { ledger = next_entry es user type amount currency ref_type ref_id ∷ db.ledger },
    ))

  -- The statements of `FinalizePaid` between `Begin` and `Commit`.
  unfoldable pub finalize_body : ℕ → ℕ → ℕ → M (Unit {0})
  unfolding mark_order_paid mark_payments append_ledger
  finalize_body now id sub = do
    o ← mark_order_paid now id sub
    mark_payments PaymentStatus.success id
    append_ledger o.user_id (codes "charge") o.amount o.currency (codes "order") id

  unfoldable pub finalize_paid : ℕ → ℕ → ℕ → M (Unit {0})
  unfolding transaction
  finalize_paid now id sub = transaction (finalize_body now id sub)

unfoldable pub mark_order_failed : ℕ → M (Unit {0})
mark_order_failed id = statement λ db. (
  ok tt,
  record db {
    orders = update_where (order_in is_open id) (with_status OrderStatus.failed) db.orders;
  },
)

unfoldable pub failed_body : ℕ → M (Unit {0})
unfolding mark_order_failed mark_payments
failed_body id = do mark_order_failed id; mark_payments PaymentStatus.failed id

unfoldable pub mark_failed : ℕ → M (Unit {0})
unfolding transaction
mark_failed id = transaction (failed_body id)

abbrev pub same_event : Text → Text → WebhookEvent → Bool
same_event gateway external e = text_eq e.gateway gateway && text_eq e.external_id external

-- An upsert by (gateway, external_id); `processed_at` stays as it is.
unfoldable pub record_webhook : Text → Text → PaymentStatus → Text → M (Unit {0})
record_webhook gateway external status payload = statement λ db.
    let row : WebhookEvent = record {
      gateway = gateway;
      external_id = external;
      status = status;
      payload = payload;
      processed = false;
    } in
    let rewritten = λ (e : WebhookEvent). record e { status = status; payload = payload } in
    (
      ok tt,
      record db {
        webhooks =
            if any (same_event gateway external) db.webhooks
            then update_where (same_event gateway external) rewritten db.webhooks
            else row ∷ db.webhooks;
      },
    )

unfoldable pub mark_webhook_processed : Text → Text → M (Unit {0})
mark_webhook_processed gateway external = statement λ db. (
  ok tt,
  record db {
    webhooks =
        update_where (same_event gateway external)
          (λ (e : WebhookEvent). record e { processed = true }) db.webhooks;
  },
)

abbrev pub subscription_or_nil : Option ℕ → ℕ
subscription_or_nil none = 0
subscription_or_nil (some sub) = sub

abbrev pub subscription_of : Option Order → Result ℕ
subscription_of none = err order_not_found
subscription_of (some o) = ok (subscription_or_nil o.subscription_id)

unfoldable pub order_subscription_id : ℕ → M ℕ
order_subscription_id id =
    statement λ db. (subscription_of (find (λ (o : Order). o.id == id) db.orders), db)
