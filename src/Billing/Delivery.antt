-- ===== src/Billing/Delivery.antt =====
-- internal/billing/service.go, `Buy`: purchases and the books.
use vpn_price_public.Base.{
  ℕ, refl, inl, inr, some, List, arith, ltb, not, ◌&&◌, Text, Bool-cases, is_empty, trim_space,
}
use vpn_price_public.Billing.Model.{
  Order, PaymentStatus, Plan, Promo, Result, ok, err, CreatePaymentResult, promo_invalid,
  bad_protocol, too_many_pending, protocol_valid,
}
use vpn_price_public.Billing.Store.{Db, statement, pure}
use vpn_price_public.Billing.Repository.{
  NewOrder, get_plan_pricing, get_promo_by_code, count_recent_pending_orders, create_order,
  create_payment,
}
use vpn_price_public.Billing.Settlement.{finalize_paid, mark_failed}
use vpn_price_public.Billing.Settled.{
  finalize_paid-Atomic, mark_failed-Atomic, create_order-Atomic, Finalized, MarkedFailed, Created,
}
use vpn_price_public.Billing.Keeps.{
  Keeps, continue-Keeps, guard-Keeps, idle-Keeps, statement-Keeps, Atomic-Keeps, or_raise-Keeps,
}
use vpn_price_public.Billing.Books.{
  IsSound, SameBooks, SameBooks-IsSound, Finalized-IsSound, MarkedFailed-IsSound, Created-IsSound,
}
use vpn_price_public.Billing.Service.{
  Service, BuyInput, discount_of, is_expired, max_pending_order, apply_promo, resolve_promo,
  register_payment, buy,
}

module _ (s : Service) where
  abbrev pub Books : Db → List ℕ → Type 0
  Books = IsSound s.sha256_hex s.uuid_text

  -- A statement that touches neither the orders nor the ledger.
  pub quiet :
      {A : Type 0} (run : Db → Result A × Db)
      → ((db : Db) → SameBooks s.sha256_hex s.uuid_text db (run db).1)
      → Keeps Books (statement run)
  quiet run h =
      statement-Keeps Books run
        (λ db calls q. SameBooks-IsSound s.sha256_hex s.uuid_text db (run db).1 calls (h db) q)

  pub get_plan_pricing-Keeps : (id : ℕ) → Keeps Books (get_plan_pricing id)
  unfolding get_plan_pricing
  get_plan_pricing-Keeps id = quiet _ (λ db. ground arith)

  apply_promo-Keeps : (promo : Promo) (plan : Plan) → Keeps Books (apply_promo promo plan)
  unfolding apply_promo
  apply_promo-Keeps promo plan w =
      guard-Keeps Books (promo.active && not (is_expired w.now promo.expires_at)) promo_invalid
        (λ _. pure (discount_of promo.type plan.price promo.discount, some promo.id)) w
        (λ _ w1. idle-Keeps Books w1 w1 (ok _) refl refl)

  get_promo_by_code-Keeps : (code : Text) → Keeps Books (get_promo_by_code code)
  unfolding get_promo_by_code
  get_promo_by_code-Keeps code = quiet _ (λ db. ground arith)

  resolve_promo-Keeps : (code : Text) (plan : Plan) → Keeps Books (resolve_promo code plan)
  unfolding resolve_promo
  resolve_promo-Keeps code plan w = elim (Bool-cases (is_empty (trim_space code))) [
    | inl no_code ↦ rw no_code (idle-Keeps Books w w _ refl refl)
    | inr code_given ↦ rw code_given (
        continue-Keeps Books w _ _ (get_promo_by_code-Keeps (trim_space code) w)
          (λ promo. apply_promo-Keeps promo plan))
  ]

  pub finalize_paid-Keeps :
      (now id sub : ℕ) → Keeps Books (finalize_paid s.sha256_hex s.uuid_text now id sub)
  finalize_paid-Keeps now id sub =
      Atomic-Keeps Books (Finalized s.sha256_hex s.uuid_text now id sub) _
        (finalize_paid-Atomic s.sha256_hex s.uuid_text now id sub)
        (Finalized-IsSound s.sha256_hex s.uuid_text now id sub)

  pub mark_failed-Keeps : (id : ℕ) → Keeps Books (mark_failed id)
  mark_failed-Keeps id =
      Atomic-Keeps Books (MarkedFailed id) _ (mark_failed-Atomic id)
        (MarkedFailed-IsSound s.sha256_hex s.uuid_text id)

  create_order-Keeps : (now : ℕ) (n : NewOrder) → Keeps Books (create_order now n)
  create_order-Keeps now n =
      Atomic-Keeps Books (Created now n) _ (create_order-Atomic now n)
        (Created-IsSound s.sha256_hex s.uuid_text now n)

  create_payment-Keeps :
      (order : ℕ) (gateway external : Text) (status : PaymentStatus) (amount : ℕ)
      (currency url : Text)
      → Keeps Books (create_payment order gateway external status amount currency url)
  unfolding create_payment
  create_payment-Keeps order gateway external status amount currency url =
      quiet _ (λ db. ground arith)

  register_payment-Keeps :
      (o : Order) (gateway currency : Text) (answer : Result CreatePaymentResult)
      → Keeps Books (register_payment s o gateway currency answer)
  unfolding register_payment
  register_payment-Keeps o gateway currency (err e) w =
      let h = mark_failed-Keeps o.id w in record { silent = h.silent; kept = h.kept }
  register_payment-Keeps o gateway currency (ok res) w =
      continue-Keeps Books w _ _
        (create_payment-Keeps o.id gateway res.external_id res.status o.amount currency
          res.payment_url w)
        (λ _ w1. idle-Keeps Books w1 w1 _ refl refl)

  count_recent_pending_orders-Keeps :
      (user now window : ℕ) → Keeps Books (count_recent_pending_orders user now window)
  unfolding count_recent_pending_orders
  count_recent_pending_orders-Keeps user now window = quiet _ (λ db. ground arith)

  pub buy-Keeps : (input : BuyInput) → Keeps Books (buy s input)
  unfolding buy
  buy-Keeps input w = guard-Keeps Books (protocol_valid input.protocol) bad_protocol _ w λ _ w1.
      continue-Keeps Books w1 _ _ (or_raise-Keeps Books (s.providers input.gateway) _ w1)
        λ provider w2.
          continue-Keeps Books w2 _ _ (get_plan_pricing-Keeps input.plan_id w2) λ plan w3.
            continue-Keeps Books w3 _ _ (resolve_promo-Keeps input.promo_code plan w3) λ promo w4.
              continue-Keeps Books w4 _ _
                (count_recent_pending_orders-Keeps input.user_id w4.now 600 w4)
                λ n w5. guard-Keeps Books (ltb n max_pending_order) too_many_pending _ w5 λ _ w6.
                  continue-Keeps Books w6 _ _ (create_order-Keeps w4.now _ w6)
                    λ o. register_payment-Keeps o input.gateway plan.currency _
