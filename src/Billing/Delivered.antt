-- ===== src/Billing/Delivered.antt =====
-- internal/billing/service.go, `FulfillOrder`: deliveries with no statement refused.
use vpn_price_public.Base.{
  ℕ, ◌≡◌, refl, ◌∙◌, ap, true, false, Option, none, some, List, [], ◌∷◌, arith, any, find,
  update_where, update_where-none, codes,
}
use vpn_price_public.Billing.Model.{Order, OrderStatus, Subscription, ok}
use vpn_price_public.Billing.Store.{World, statement}
use vpn_price_public.Billing.Repository.{
  for_provision, is_waiting, is_open, get_order_for_provision,
}
use vpn_price_public.Billing.Settlement.{
  order_in, with_status, settled, next_entry, subscription_or_nil, claim_for_provisioning,
  finalize_paid, finalize_body, order_subscription_id,
}
use vpn_price_public.Billing.Counts.{has_id}
use vpn_price_public.Billing.Service.{Service, create_input, fulfill_order}

find-waiting :
    (id : ℕ) (rows : List Order) {o : Order}
    → find (has_id id) rows ≡ some o
    → is_waiting o.status ≡ true
    → any (order_in is_waiting id) rows ≡ true
find-waiting id [] {o} h w = cc
find-waiting id (r ∷ rows) {o} h w = ground (arith, find-waiting id rows {o = o})

abbrev claimed : ℕ → List Order → List Order
claimed id = update_where (order_in is_waiting id) (with_status OrderStatus.processing)

find-claimed :
    (id : ℕ) (rows : List Order) {o : Order}
    → find (has_id id) rows ≡ some o
    → is_waiting o.status ≡ true
    → find (order_in is_open id) (claimed id rows) ≡ some (with_status OrderStatus.processing o)
find-claimed id [] {o} h w = cc
find-claimed id (r ∷ rows) {o} h w = ground (arith, find-claimed id rows {o = o})

find-settled :
    (now sub id : ℕ) (rows : List Order) {o : Order}
    → find (has_id id) rows ≡ some o
    → is_waiting o.status ≡ true
    → find (has_id id) (update_where (order_in is_open id) (settled now sub) (claimed id rows))
      ≡ some (settled now sub o)
find-settled now sub id [] {o} h w = cc
find-settled now sub id (r ∷ rows) {o} h w = ground (arith, find-settled now sub id rows {o = o})

-- The world once no statement is refused any more.
abbrev pub calm : World → World
calm w = record w { faults = [] }

-- Writing `none` where `none` stands changes no order.
same_without_renewal :
    (o p : Order)
    → o.renew_subscription_id ≡ none
    → p.renew_subscription_id ≡ o.renew_subscription_id
    → p ≡ record p { renew_subscription_id = none }
same_without_renewal o p h e = ap (λ (r : Option ℕ). record p { renew_subscription_id = r }) (e ∙ h)

module _ (s : Service) (w : World) where
  -- With no statement refused, delivering an order that waits for its payment, is no renewal, and
  -- for which the issuer returns a subscription, returns that subscription, leaves the order paid
  -- with it, notes one call of the issuer and adds the charge of the order to the ledger.
  pub fulfill_order-delivers :
      {o : Order} {sub : ℕ} {subs : List Subscription}
      → find (has_id o.id) w.db.orders ≡ some o
      → is_waiting o.status ≡ true
      → o.renew_subscription_id ≡ none
      → s.issuer (create_input s (for_provision o)) w.db.subscriptions ≡ (ok sub, subs)
      → let r = fulfill_order s o.id (calm w) in
        (r.0 ≡ ok sub)
        × (find (has_id o.id) r.1.db.orders ≡ some (settled w.now sub o))
        × (r.1.issued ≡ o.id ∷ w.issued)
        × (r.1.db.ledger
            ≡ next_entry s.sha256_hex s.uuid_text w.db.ledger o.user_id
                (codes "charge")
                o.amount
                o.currency
                (codes "order")
                o.id
              ∷ w.db.ledger)
  unfolding fulfill_order get_order_for_provision statement claim_for_provisioning finalize_paid
      finalize_body
  fulfill_order-delivers {o} {sub} {subs} found waits new issued =
      rw (found, find-waiting o.id w.db.orders found waits, new, issued)
        (rw (find-claimed o.id w.db.orders found waits) (
          refl,
          find-settled w.now sub o.id w.db.orders found waits
              ∙ ap some (same_without_renewal o (settled w.now sub o) new refl),
          refl,
          refl,
        ))

module _ (s : Service) (w : World) where
  -- With no statement refused, delivering an order that does not wait for its payment changes
  -- nothing, calls no issuer and returns the order's subscription, or the nil identifier if it has
  -- none.
  pub fulfill_order-idle :
      (id : ℕ) {o : Order}
      → find (has_id id) w.db.orders ≡ some o
      → any (order_in is_waiting o.id) w.db.orders ≡ false
      → o.id ≡ id
      → fulfill_order s id (calm w) ≡ (ok (subscription_or_nil o.subscription_id), calm w)
  unfolding fulfill_order get_order_for_provision statement claim_for_provisioning
      order_subscription_id
  fulfill_order-idle id {o} found idle same =
      rw (found, idle)
        (rw
          (
            update_where-none (order_in is_waiting o.id) (with_status OrderStatus.processing)
                w.db.orders idle,
            same,
          )
          (rw found refl))
