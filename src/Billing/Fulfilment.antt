-- ===== src/Billing/Fulfilment.antt =====
-- internal/billing/service.go, `fulfill` and `HandleWebhook`: deliveries and the books.
use vpn_price_public.Base.{
  ℕ, ◌≡◌, refl, subst, sym, inl, inr, true, Option, none, some, List, [], ◌∷◌, arith, any, Text,
  codes, Bool-cases, ◌==◌,
}
use vpn_price_public.Billing.Model.{
  Provider, Result, ok, err, PaymentStatus, WebhookResult, unknown_gateway,
}
use vpn_price_public.Billing.Store.{
  Db, World, M, statement, fault_of, continue, lift, ignore, or_raise,
}
use vpn_price_public.Billing.Repository.{
  OrderForProvision, get_order_for_provision, get_order_by_external_payment, is_waiting,
}
use vpn_price_public.Billing.Settlement.{
  extend_subscription, claim_for_provisioning, finalize_paid, mark_failed, record_webhook,
  mark_webhook_processed, order_subscription_id, order_in,
}
use vpn_price_public.Billing.Keeps.{Keeps, KeepsAt, continue-Keeps, idle-Keeps, or_raise-Keeps}
use vpn_price_public.Billing.Books.{SameBooks-IsSound, claim-IsSound, call-IsSound, claimed_orders}
use vpn_price_public.Billing.Counts.{any-waiting, waiting-claim, waiting-le-has_id}
use vpn_price_public.Billing.Service.{
  Service, issue, create_input, deliver, fulfill, fulfill_order, resolve_order, settle,
  handle_webhook, mock_body, confirm_mock,
}
use vpn_price_public.Billing.Expirer.{sweep}
use vpn_price_public.Billing.Delivery.{
  Books, quiet, get_plan_pricing-Keeps, finalize_paid-Keeps, mark_failed-Keeps,
}

module _ (s : Service) where
  -- The books are sound where an action ends.
  pub record Sound {A : Type 0} (r : Result A × World) : Type 0 where
    pub sound : Books s r.1.db r.1.issued

  pub Keeps-Sound :
      {A : Type 0} (w : World) (r : Result A × World)
      → KeepsAt (Books s) w r
      → Books s w.db w.issued
      → Sound r
  Keeps-Sound w r h q = record {
    sound = subst (λ (calls : List ℕ). Books s r.1.db calls) (sym h.silent) (h.kept w.issued q);
  }

  continue-Sound :
      {A B : Type 0} (r : Result A × World) (f : A → M B)
      → Sound r
      → ((a : A) (w : World) → Books s w.db w.issued → Sound (f a w))
      → Sound (continue r f)
  continue-Sound (ok a, w) f h k = k a w h.sound
  continue-Sound (err e, w) f h k = record { sound = h.sound }

  extend_subscription-Keeps : (now id days : ℕ) → Keeps (Books s) (extend_subscription now id days)
  unfolding extend_subscription
  extend_subscription-Keeps now id days = quiet s _ (λ db. ground arith)

  order_subscription_id-Keeps : (id : ℕ) → Keeps (Books s) (order_subscription_id id)
  unfolding order_subscription_id
  order_subscription_id-Keeps id = quiet s _ (λ db. ground arith)

  get_order_for_provision-Keeps : (id : ℕ) → Keeps (Books s) (get_order_for_provision id)
  unfolding get_order_for_provision
  get_order_for_provision-Keeps id = quiet s _ (λ db. ground arith)

  get_order_by_external_payment-Keeps :
      (gateway external : Text) → Keeps (Books s) (get_order_by_external_payment gateway external)
  unfolding get_order_by_external_payment
  get_order_by_external_payment-Keeps gateway external = quiet s _ (λ db. ground arith)

  record_webhook-Keeps :
      (gateway external : Text) (status : PaymentStatus) (payload : Text)
      → Keeps (Books s) (record_webhook gateway external status payload)
  unfolding record_webhook
  record_webhook-Keeps gateway external status payload = quiet s _ (λ db. ground arith)

  mark_webhook_processed-Keeps :
      (gateway external : Text) → Keeps (Books s) (mark_webhook_processed gateway external)
  unfolding mark_webhook_processed
  mark_webhook_processed-Keeps gateway external = quiet s _ (λ db. ground arith)

  -- `FinalizePaid`, and the return of the subscription.
  finalized-Keeps :
      (now id sub : ℕ)
      → Keeps
          (Books s)
          (λ w. continue (finalize_paid s.sha256_hex s.uuid_text now id sub w) λ _ w'. (ok sub, w'))
  finalized-Keeps now id sub w =
      continue-Keeps (Books s) w (finalize_paid s.sha256_hex s.uuid_text now id sub w) _
        (finalize_paid-Keeps s now id sub w) (λ _ w'. idle-Keeps (Books s) w' w' (ok sub) refl refl)

  renew-Keeps : (o : OrderForProvision) (sub : ℕ) → Keeps (Books s) (deliver s o (some sub))
  unfolding deliver
  renew-Keeps o sub w =
      continue-Keeps (Books s) w _ _ (get_plan_pricing-Keeps s o.plan_id w) λ plan w1.
        continue-Keeps (Books s) w1 _ _ (extend_subscription-Keeps w1.now sub plan.days w1)
          λ _. finalized-Keeps w1.now o.id sub

  issue-Sound :
      (w : World) (o : OrderForProvision)
      → Books s w.db (o.id ∷ w.issued)
      → Sound (issue s o.id (create_input s o) w)
  unfolding issue
  issue-Sound w o q =
      let subs = (s.issuer (create_input s o) w.db.subscriptions).1 in
      record {
        sound =
            SameBooks-IsSound s.sha256_hex s.uuid_text w.db (record w.db { subscriptions = subs })
              (o.id ∷ w.issued) (refl, refl, omega arith, refl, refl) q;
      }

  provision-Sound :
      (w : World) (o : OrderForProvision)
      → Books s w.db (o.id ∷ w.issued)
      → Sound (deliver s o none w)
  unfolding deliver
  provision-Sound w o q =
      continue-Sound (issue s o.id (create_input s o) w) _ (issue-Sound w o q)
        λ sub w1 q1. Keeps-Sound w1 _ (finalized-Keeps w1.now o.id sub w1) q1

  deliver-Sound :
      (w : World) (o : OrderForProvision) (renewed : Option ℕ)
      → Books s w.db w.issued
      → Books s w.db (o.id ∷ w.issued)
      → Sound (deliver s o renewed w)
  deliver-Sound w o none q q1 = provision-Sound w o q1
  deliver-Sound w o (some sub) q q1 = Keeps-Sound w _ (renew-Keeps o sub w) q

  -- Who has claimed an order may call the issuer for it.
  claimant-IsSound :
      (id : ℕ) (db : Db) (calls : List ℕ)
      → any (order_in is_waiting id) db.orders ≡ true
      → Books s db calls
      → Books s
          (record db { orders = claimed_orders s.sha256_hex s.uuid_text id db.orders })
          (id ∷ calls)
  claimant-IsSound id db calls found q =
      let some_waiting = any-waiting id db.orders found in
      let left = waiting-claim id id db.orders in
      call-IsSound s.sha256_hex s.uuid_text id _ calls
        (claim-IsSound s.sha256_hex s.uuid_text id db calls q) (ground (arith, q.once id))
        (ground arith) (ground (arith, q.fresh id, waiting-le-has_id id db.orders))

  pub fulfill-Sound :
      (o : OrderForProvision) (w : World) → Books s w.db w.issued → Sound (fulfill s o w)
  unfolding fulfill claim_for_provisioning statement
  fulfill-Sound o w q = elim (Bool-cases (fault_of w.faults)) [
    | inl refused ↦ rw refused record { sound = q }
    | inr sent ↦ rw sent (elim (Bool-cases (any (order_in is_waiting o.id) w.db.orders)) [
      | inl claimed ↦ rw claimed (
          deliver-Sound _ o o.renew_sub_id
            (claim-IsSound s.sha256_hex s.uuid_text o.id w.db w.issued q)
            (claimant-IsSound o.id w.db w.issued claimed q))
      | inr too_late ↦ rw too_late (
          Keeps-Sound _ _ (order_subscription_id-Keeps o.id _)
            (claim-IsSound s.sha256_hex s.uuid_text o.id w.db w.issued q))
    ])
  ]

  pub fulfill_order-Sound :
      (id : ℕ) (w : World) → Books s w.db w.issued → Sound (fulfill_order s id w)
  unfolding fulfill_order
  fulfill_order-Sound id w q =
      continue-Sound (get_order_for_provision id w) _
        (Keeps-Sound w _ (get_order_for_provision-Keeps id w) q) fulfill-Sound

  resolve_order-Keeps :
      (gateway : Text) (res : WebhookResult) → Keeps (Books s) (resolve_order s gateway res)
  unfolding resolve_order
  resolve_order-Keeps gateway res w = elim (Bool-cases (res.order_id == 0)) [
    | inl unnamed ↦ rw unnamed (get_order_by_external_payment-Keeps gateway res.external_id w)
    | inr named ↦ rw named (get_order_for_provision-Keeps res.order_id w)
  ]

  -- The webhook is marked as processed, and a failure to do so is ignored.
  marked-Sound :
      (gateway external : Text) (w : World)
      → Books s w.db w.issued
      → Sound (ignore (mark_webhook_processed gateway external) w)
  marked-Sound gateway external w q = record {
    sound =
        (Keeps-Sound w (mark_webhook_processed gateway external w)
          (mark_webhook_processed-Keeps gateway external w) q).sound;
  }

  settle-Sound :
      (status : PaymentStatus) (gateway external : Text) (o : OrderForProvision) (w : World)
      → Books s w.db w.issued
      → Sound (settle s status gateway external o w)
  unfolding settle
  settle-Sound PaymentStatus.success gateway external o w q =
      continue-Sound (fulfill s o w) _ (fulfill-Sound o w q)
        (λ _ w' q'. marked-Sound gateway external w' q')
  settle-Sound PaymentStatus.failed gateway external o w q =
      continue-Sound (mark_failed o.id w) _ (Keeps-Sound w _ (mark_failed-Keeps s o.id w) q)
        (λ _ w' q'. marked-Sound gateway external w' q')
  settle-Sound PaymentStatus.created gateway external o w q = record { sound = q }
  settle-Sound PaymentStatus.pending gateway external o w q = record { sound = q }
  settle-Sound PaymentStatus.expired gateway external o w q = record { sound = q }

  pub handle_webhook-Sound :
      (gateway : Text) (headers : List (Text × Text)) (body : Text) (w : World)
      → Books s w.db w.issued
      → Sound (handle_webhook s gateway headers body w)
  unfolding handle_webhook
  handle_webhook-Sound gateway headers body w q =
      continue-Sound _ _
        (Keeps-Sound w _ (or_raise-Keeps (Books s) (s.providers gateway) unknown_gateway w) q)
        λ (provider : Provider) w1 q1.
          continue-Sound (lift (provider.parse_webhook headers body) w1) _ record { sound = q1 }
            λ (res : WebhookResult) w2 q2.
              continue-Sound _ _
                (Keeps-Sound w2 _ (record_webhook-Keeps gateway res.external_id res.status body w2)
                  q2)
                λ _ w3 q3.
                  continue-Sound _ _ (Keeps-Sound w3 _ (resolve_order-Keeps gateway res w3) q3)
                    λ o w4 q4. settle-Sound res.status gateway res.external_id o w4 q4

  pub confirm_mock-Sound :
      (id : ℕ) (w : World) → Books s w.db w.issued → Sound (confirm_mock s id w)
  unfolding confirm_mock
  confirm_mock-Sound id w q =
      continue-Sound (or_raise (s.providers (codes "mock")) unknown_gateway w) _
        (Keeps-Sound w _ (or_raise-Keeps (Books s) (s.providers (codes "mock")) unknown_gateway w)
          q)
        (λ _ w1 q1. handle_webhook-Sound (codes "mock") [] (mock_body s id) w1 q1)

  pub sweep-Keeps : (grace now : ℕ) → Keeps (Books s) (sweep grace now)
  unfolding sweep
  sweep-Keeps grace now = quiet s _ (λ db. ground arith)
