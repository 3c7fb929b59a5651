-- ===== src/Billing/Pricing.antt =====
-- internal/billing/service.go: `Buy` and `PromoPreview`.
use vpn_price_public.Base.{
  ℕ, ◌≡◌, refl, ◌∙◌, sym, ap, subst, inl, inr, Bool, true, false, Option, none, some, arith, Text,
  Bool-cases, if◌then◌else◌, is_empty, trim_space, ltb, ◌&&◌, not,
}
use vpn_price_public.Billing.Model.{
  Order, Payment, Plan, Promo, Result, ok, err, BillingError, CreatePaymentResult, protocol_valid,
  bad_protocol, unknown_gateway, too_many_pending,
}
use vpn_price_public.Billing.Store.{Db, World, M, continue, statement, guard, or_raise, pure}
use vpn_price_public.Billing.Repository.{
  get_plan_pricing, get_promo_by_code, count_recent_pending_orders, create_order, create_payment,
}
use vpn_price_public.Billing.Atomic.{Atomic}
use vpn_price_public.Billing.Settled.{Created, create_order-Atomic}
use vpn_price_public.Billing.Service.{
  Service, BuyInput, new_order, apply_promo, resolve_promo, promo_preview, register_payment, buy,
  is_expired,
}
use vpn_price_public.Billing.Delivered.{calm}

-- A chain that succeeds has succeeded in its first step and in what follows it.
continue-ok :
    {A B : Type 0} (r : Result A × World) (f : A → M B) {b : B} {w : World}
    → continue r f ≡ (ok b, w)
    → (a : A) × (w1 : World) × (r ≡ (ok a, w1)) × (f a w1 ≡ (ok b, w))
continue-ok (ok a, w1) f e = (a, w1, refl, e)
continue-ok (err x, w1) f e = ground arith

guard-ok :
    (b : Bool) (e : BillingError) (w : World) {u : Unit {0}} {w1 : World}
    → guard b e w ≡ (ok u, w1)
    → w1 ≡ w
guard-ok true e w h = ground arith
guard-ok false e w h = ground arith

or_raise-ok :
    {A : Type 0} (o : Option A) (e : BillingError) (w : World) {a : A} {w1 : World}
    → or_raise o e w ≡ (ok a, w1)
    → w1 ≡ w
or_raise-ok none e w h = ground arith
or_raise-ok (some a) e w h = ground arith

get_plan_pricing-ok :
    (id : ℕ) (w : World) {plan : Plan} {w1 : World}
    → get_plan_pricing id (calm w) ≡ (ok plan, w1)
    → w1 ≡ calm w
unfolding get_plan_pricing statement
get_plan_pricing-ok id w e = sym (ap (λ (r : Result Plan × World). r.1) e)

get_promo_by_code-ok :
    (code : Text) (w : World) {promo : Promo} {w1 : World}
    → get_promo_by_code code (calm w) ≡ (ok promo, w1)
    → w1 ≡ calm w
unfolding get_promo_by_code statement
get_promo_by_code-ok code w e = sym (ap (λ (r : Result Promo × World). r.1) e)

count_recent_pending_orders-ok :
    (user now window : ℕ) (w : World) {n : ℕ} {w1 : World}
    → count_recent_pending_orders user now window (calm w) ≡ (ok n, w1)
    → w1 ≡ calm w
unfolding count_recent_pending_orders statement
count_recent_pending_orders-ok user now window w e = sym (ap (λ (r : Result ℕ × World). r.1) e)

apply_promo-ok :
    (promo : Promo) (plan : Plan) (w : World) {p : ℕ × Option ℕ} {w1 : World}
    → apply_promo promo plan w ≡ (ok p, w1)
    → w1 ≡ w
unfolding apply_promo
apply_promo-ok promo plan w e =
    elim (Bool-cases (promo.active && not (is_expired w.now promo.expires_at))) [
      | inl valid ↦ ground arith
      | inr refused ↦ ground arith
    ]

-- The same, where the first step leaves the world as it is.
continue_still :
    {A B : Type 0} (r : Result A × World) (f : A → M B) (v : World) {b : B} {w : World}
    → ((a : A) (w1 : World) → r ≡ (ok a, w1) → w1 ≡ v)
    → continue r f ≡ (ok b, w)
    → (a : A) × (r ≡ (ok a, v)) × (f a v ≡ (ok b, w))
continue_still r f v {b} {w} still e =
    let (a, w1, first, rest) = continue-ok r f e in
    let same = still a w1 first in
    (
      a,
      subst (λ (u : World). r ≡ (ok a, u)) same first,
      subst (λ (u : World). f a u ≡ (ok b, w)) same rest,
    )

resolve_promo-ok :
    (code : Text) (plan : Plan) (w : World) {p : ℕ × Option ℕ} {w1 : World}
    → resolve_promo code plan (calm w) ≡ (ok p, w1)
    → w1 ≡ calm w
unfolding resolve_promo
resolve_promo-ok code plan w {p} {w1} e = elim (Bool-cases (is_empty (trim_space code))) [
  | inl no_code ↦ sym (
      ap (λ (r : Result (ℕ × Option ℕ) × World). r.1)
        (subst
          (λ (b : Bool).
            (if b then pure (0, none) else (λ v.
                continue (get_promo_by_code (trim_space code) v) λ promo. apply_promo promo plan))
              (calm w)
            ≡ (ok p, w1))
          no_code e))
  | inr code_given ↦
      let (promo, loaded, applied) =
        continue_still (get_promo_by_code (trim_space code) (calm w))
          (λ promo. apply_promo promo plan) (calm w)
          (λ a v h. get_promo_by_code-ok (trim_space code) w h)
          (subst
            (λ (b : Bool).
              (if b then pure (0, none) else (λ v.
                  continue (get_promo_by_code (trim_space code) v) λ promo. apply_promo promo plan))
                (calm w)
              ≡ (ok p, w1))
            code_given e) in
      apply_promo-ok promo plan (calm w) applied
]

Atomic-ok :
    {A : Type 0} (done : Db → A → Db → Type 0) (w : World) (r : Result A × World) {a : A}
    {w1 : World}
    → Atomic done w r
    → r ≡ (ok a, w1)
    → done w.db a w1.db
Atomic-ok {A} done w r {a} {w1} h e = (subst (λ (x : Result A × World). Atomic done w x) e h).0

register_payment-order :
    (s : Service) (o o' : Order) (gateway currency : Text) (answer : Result CreatePaymentResult)
    (w : World) {p : Payment} {w1 : World}
    → register_payment s o gateway currency answer w ≡ (ok (o', p), w1)
    → o' ≡ o
unfolding register_payment
register_payment-order s o o' gateway currency (err x) w e = ground arith
register_payment-order s o o' gateway currency (ok res) w e =
    let (p, w2, first, rest) =
      continue-ok
        (create_payment o.id gateway res.external_id res.status o.amount currency res.payment_url w)
        (λ p. pure (o, p)) e in
    ground arith

-- With no statement refused, if a purchase succeeds, then the preview of its promo code and plan in
-- the same state shows the discount and the amount of the order made.
pub buy-promo_preview :
    (s : Service) (input : BuyInput) (w : World) {o : Order} {p : Payment} {w' : World}
    → buy s input (calm w) ≡ (ok (o, p), w')
    → promo_preview input.promo_code input.plan_id (calm w) ≡ (ok (o.discount, o.amount), calm w)
unfolding buy promo_preview
buy-promo_preview s input w {o} {p} {w'} e =
    let (_, _, e1) =
      continue_still _ _ (calm w)
        (λ a v h. guard-ok (protocol_valid input.protocol) bad_protocol (calm w) h) e in
    let (provider, _, e2) =
      continue_still _ _ (calm w)
        (λ a v h. or_raise-ok (s.providers input.gateway) unknown_gateway (calm w) h) e1 in
    let (plan, priced, e3) =
      continue_still (get_plan_pricing input.plan_id (calm w)) _ (calm w)
        (λ a v h. get_plan_pricing-ok input.plan_id w h) e2 in
    let (promo, resolved, e4) =
      continue_still (resolve_promo input.promo_code plan (calm w)) _ (calm w)
        (λ a v h. resolve_promo-ok input.promo_code plan w h) e3 in
    let (pending, _, e5) =
      continue_still (count_recent_pending_orders input.user_id w.now 600 (calm w)) _ (calm w)
        (λ a v h. count_recent_pending_orders-ok input.user_id w.now 600 w h) e4 in
    let (_, _, e6) =
      continue_still _ _ (calm w) (λ a v h. guard-ok (ltb pending 5) too_many_pending (calm w) h)
        e5 in
    let (made, w1, e7, e8) =
      continue-ok (create_order w.now (new_order input plan promo) (calm w)) _ e6 in
    let same = register_payment-order s made o input.gateway plan.currency _ w1 e8 in
    let (row, redeemed) =
      Atomic-ok (Created w.now (new_order input plan promo)) (calm w) _
        (create_order-Atomic w.now (new_order input plan promo) (calm w)) e7 in
    rw (priced, resolved)
      (ap (λ (x : Order). (ok (x.discount, x.amount), calm w)) (sym (same ∙ row)))
