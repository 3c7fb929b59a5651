-- ===== src/Billing/Settled.antt =====
-- internal/billing/repository.go: `FinalizePaid`, `MarkFailed` and `CreateOrder` as transactions.
use vpn_price_public.Base.{
  ℕ, suc, ◌≡◌, refl, ◌∙◌, sym, ap, subst, true, false, Option, none, some, List, ◌∷◌, arith, any,
  find, update_where, Text, codes, if◌then◌else◌,
}
use vpn_price_public.Billing.Model.{
  Order, OrderStatus, PaymentStatus, LedgerEntry, Result, ok, err, order_not_found, promo_invalid,
  promo_used,
}
use vpn_price_public.Billing.Store.{Db, World}
use vpn_price_public.Billing.Repository.{
  NewOrder, redeem, create_body, create_order, new_row, may_redeem, use_once, same_redemption,
  is_open, found_or,
}
use vpn_price_public.Billing.Settlement.{
  finalize_body, finalize_paid, failed_body, mark_failed, order_in, settled, payment_of, next_entry,
  with_status, with_payment_status,
}
use vpn_price_public.Billing.Atomic.{
  Atomic, Does, transaction-Atomic, Does-step, Does-end, Does-weaken,
}

-- What `FinalizePaid` has done when it returns no error.
abbrev pub Finalized : (Text → Text) → (ℕ → Text) → ℕ → ℕ → ℕ → Db → Unit {0} → Db → Type 0
Finalized sha uuid now id sub db _ db' =
    (o : Order) × (find (order_in is_open id) db.orders ≡ some o)
    × (db' ≡ record db {
      orders = update_where (order_in is_open id) (settled now sub) db.orders;
      payments =
          update_where (payment_of id) (with_payment_status PaymentStatus.success) db.payments;
      ledger =
          next_entry sha uuid db.ledger o.user_id (codes "charge") o.amount o.currency
            (codes "order") id
          ∷ db.ledger;
    })

-- The four statements of `FinalizePaid`, each run whole.
finalized :
    (sha : Text → Text) (uuid : ℕ → Text) (now id sub : ℕ) (db0 db1 db2 db3 db4 : Db) (o : Order)
    (es : List LedgerEntry) (u : Unit {0})
    → ◌≡◌ {A = Result Order × Db}
        (
          found_or order_not_found (find (order_in is_open id) db0.orders),
          record db0 { orders = update_where (order_in is_open id) (settled now sub) db0.orders },
        )
        (ok o, db1)
    → ◌≡◌ {A = Result (Unit {0}) × Db}
        (
          ok tt,
          record db1 {
            payments =
                update_where
                  (payment_of id)
                  (with_payment_status PaymentStatus.success)
                  db1.payments;
          },
        )
        (ok u, db2)
    → ◌≡◌ {A = Result (List LedgerEntry) × Db} (ok db2.ledger, db2) (ok es, db3)
    → ◌≡◌ {A = Result (Unit {0}) × Db}
        (
          ok tt,
          record db3 {
            ledger =
                next_entry sha uuid es o.user_id
                  (codes "charge")
                  o.amount
                  o.currency
                  (codes "order")
                  id
                ∷ db3.ledger;
          },
        )
        (ok tt, db4)
    → Finalized sha uuid now id sub db0 tt db4
finalized sha uuid now id sub db0 db1 db2 db3 db4 o es u e1 e2 e3 e4 =
    (o, ground arith, ground arith)

finalize_body-Does :
    (sha : Text → Text) (uuid : ℕ → Text) (now id sub : ℕ) (w : World)
    → Does (Finalized sha uuid now id sub) w (finalize_body sha uuid now id sub w)
unfolding finalize_body
finalize_body-Does sha uuid now id sub w =
    let done = Finalized sha uuid now id sub w.db in
    Does-step (Finalized sha uuid now id sub) w _ _ λ o w1 e1.
      Does-step (λ _. done) w1 _ _
        λ u w2 e2.
          Does-step (λ _. done) w2 _ _
            λ es w3 e3.
              Does-end (λ _. done) w3 _
                (λ _ db4 e4.
                  finalized sha uuid now id sub w.db w1.db w2.db w3.db db4 o es u e1 e2 e3 e4)

-- FinalizePaid, with any statement refused, either fails and leaves the database as it was, or
-- marks an open order paid, its payments successful and appends the charge to the ledger.
pub finalize_paid-Atomic :
    (sha : Text → Text) (uuid : ℕ → Text) (now id sub : ℕ) (w : World)
    → Atomic (Finalized sha uuid now id sub) w (finalize_paid sha uuid now id sub w)
unfolding finalize_paid
finalize_paid-Atomic sha uuid now id sub w =
    transaction-Atomic (Finalized sha uuid now id sub) (finalize_body sha uuid now id sub)
      (finalize_body-Does sha uuid now id sub) w

-- What `MarkFailed` has done.
abbrev pub MarkedFailed : ℕ → Db → Unit {0} → Db → Type 0
MarkedFailed id db _ db' = db' ≡ record db {
  orders = update_where (order_in is_open id) (with_status OrderStatus.failed) db.orders;
  payments = update_where (payment_of id) (with_payment_status PaymentStatus.failed) db.payments;
}

marked_failed :
    (id : ℕ) (db0 db1 db2 : Db) (u : Unit {0})
    → ◌≡◌ {A = Result (Unit {0}) × Db}
        (
          ok tt,
          record db0 {
            orders = update_where (order_in is_open id) (with_status OrderStatus.failed) db0.orders;
          },
        )
        (ok u, db1)
    → ◌≡◌ {A = Result (Unit {0}) × Db}
        (
          ok tt,
          record db1 {
            payments =
                update_where
                  (payment_of id)
                  (with_payment_status PaymentStatus.failed)
                  db1.payments;
          },
        )
        (ok tt, db2)
    → MarkedFailed id db0 tt db2
marked_failed id db0 db1 db2 u e1 e2 = ground arith

failed_body-Does : (id : ℕ) (w : World) → Does (MarkedFailed id) w (failed_body id w)
unfolding failed_body
failed_body-Does id w = Does-step (MarkedFailed id) w _ _ λ u w1 e1.
    Does-end (λ _. MarkedFailed id w.db) w1 _ (λ _ db2 e2. marked_failed id w.db w1.db db2 u e1 e2)

-- MarkFailed, with any statement refused, either fails and leaves the database as it was, or marks
-- the order failed if it is open, and all its payments failed.
pub mark_failed-Atomic : (id : ℕ) (w : World) → Atomic (MarkedFailed id) w (mark_failed id w)
unfolding mark_failed
mark_failed-Atomic id w =
    transaction-Atomic (MarkedFailed id) (failed_body id) (failed_body-Does id) w

-- What redeeming a promo code for an order of a user has done.
abbrev pub Redeemed : Option ℕ → ℕ → ℕ → Db → Db → Type 0
Redeemed none user order db db' = db' ≡ db
Redeemed (some promo) user order db db' =
    (any (may_redeem promo) db.promos ≡ true)
    × (any (same_redemption promo user) db.redemptions ≡ false)
    × (db' ≡ record db {
      promos = update_where (may_redeem promo) use_once db.promos;
      redemptions = record { promo_id = promo; user_id = user; order_id = order } ∷ db.redemptions;
    })

abbrev pub with_order : Db → ℕ → NewOrder → Db
with_order db now n = record db {
  orders = new_row db.next_id now n ∷ db.orders;
  next_id = suc db.next_id;
}

-- What `CreateOrder` has done when it returns an order.
abbrev pub Created : ℕ → NewOrder → Db → Order → Db → Type 0
Created now n db o db' =
    (o ≡ new_row db.next_id now n)
    × Redeemed n.promo_id n.user_id db.next_id (with_order db now n) db'

redeemed :
    (promo user order : ℕ) (db0 db1 db2 : Db) (u v : Unit {0})
    → ◌≡◌ {A = Result (Unit {0}) × Db}
        (if any (may_redeem promo) db0.promos
          then (ok tt, record db0 { promos = update_where (may_redeem promo) use_once db0.promos })
          else (err promo_invalid, db0))
        (ok u, db1)
    → ◌≡◌ {A = Result (Unit {0}) × Db}
        (if any (same_redemption promo user) db1.redemptions then (err promo_used, db1) else (
          ok tt,
          record db1 {
            redemptions =
                record { promo_id = promo; user_id = user; order_id = order } ∷ db1.redemptions;
          },
        ))
        (ok v, db2)
    → Redeemed (some promo) user order db0 db2
redeemed promo user order db0 db1 db2 u v e1 e2 = (ground arith, ground arith, ground arith)

redeem-Does :
    (promo : Option ℕ) (user : ℕ) (o : Order) (w : World)
    → Does (λ db o' db'. (o' ≡ o) × Redeemed promo user o.id db db') w (redeem promo user o w)
unfolding redeem
redeem-Does none user o w = ((refl, refl), (refl, refl))
redeem-Does (some promo) user o w =
    Does-step (λ db o' db'. (o' ≡ o) × Redeemed (some promo) user o.id db db') w _ _
      λ u w1 e1.
        Does-step (λ _ o' db'. (o' ≡ o) × Redeemed (some promo) user o.id w.db db') w1 _ _
          λ v w2 e2. ((refl, redeemed promo user o.id w.db w1.db w2.db u v e1 e2), (refl, refl))

created :
    (now : ℕ) (n : NewOrder) (db0 db1 db2 : Db) (o a : Order)
    → ◌≡◌ {A = Result Order × Db} (ok (new_row db0.next_id now n), with_order db0 now n) (ok o, db1)
    → (a ≡ o) × Redeemed n.promo_id n.user_id o.id db1 db2
    → Created now n db0 a db2
created now n db0 db1 db2 o a e (same, h) =
    let row : new_row db0.next_id now n ≡ o = ground arith in
    let db : with_order db0 now n ≡ db1 = ap (λ (p : Result Order × Db). p.1) e in
    (
      same ∙ sym row,
      subst (λ (d : Db). Redeemed n.promo_id n.user_id db0.next_id d db2) (sym db)
          (subst (λ (i : ℕ). Redeemed n.promo_id n.user_id i db1 db2)
            (sym (ap (λ (r : Order). r.id) row)) h),
    )

create_body-Does :
    (now : ℕ) (n : NewOrder) (w : World) → Does (Created now n) w (create_body now n w)
unfolding create_body
create_body-Does now n w = Does-step (Created now n) w _ _ λ o w1 e1.
    Does-weaken (λ db o' db'. (o' ≡ o) × Redeemed n.promo_id n.user_id o.id db db')
      (λ _. Created now n w.db) w1 (redeem n.promo_id n.user_id o w1)
      (λ a db' d. created now n w.db w1.db db' o a e1 d) (redeem-Does n.promo_id n.user_id o w1)

-- CreateOrder, with any statement refused, either fails and leaves the database as it was, or
-- inserts the new order and redeems its promo code if it has one, which the code still admits and
-- the user has not used.
pub create_order-Atomic :
    (now : ℕ) (n : NewOrder) (w : World) → Atomic (Created now n) w (create_order now n w)
unfolding create_order
create_order-Atomic now n w =
    transaction-Atomic (Created now n) (create_body now n) (create_body-Does now n) w
