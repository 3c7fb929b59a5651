-- ===== src/Billing/Books.antt =====
-- The books of billing: the orders, the ledger and the calls of the issuer between two statements.
use vpn_price_public.Base.{
  ℕ, ◌+◌, ◌≤◌, ◌<◌, ◌≡◌, refl, Bool, Option, none, some, List, [], ◌∷◌, arith, ◌==◌, count_by,
  update_where, count_by-update_where, Text,
}
use vpn_price_public.Billing.Model.{Order, LedgerEntry, OrderStatus}
use vpn_price_public.Billing.Store.{Db}
use vpn_price_public.Billing.Repository.{is_waiting, is_open, NewOrder}
use vpn_price_public.Billing.Settlement.{
  order_in, with_status, settled, last_hash, null_if_empty, ledger_payload,
}
use vpn_price_public.Billing.Settled.{Finalized, MarkedFailed, Created, Redeemed, with_order}
use vpn_price_public.Billing.Promos.{IsRedeemable, Redeemed-IsRedeemable}
use vpn_price_public.Billing.Counts.{
  has_id, waiting, paid, waiting-le-has_id, open-le-has_id, waiting-claim, paid-claim, find-open,
  waiting-settled, paid-settled, waiting-failed, paid-failed,
}

abbrev pub charge_of : ℕ → LedgerEntry → Bool
charge_of o e = e.ref_id == o

abbrev pub called : ℕ → List ℕ → ℕ
called o = count_by (λ c. c == o)

module _ (sha : Text → Text) (uuid : ℕ → Text) where
  -- Each entry holds the hash of the user's entry before it, and its own hash is that of its
  -- fields and the hash before.
  abbrev pub IsChained : List LedgerEntry → Type 0
  IsChained [] = Unit
  IsChained (e ∷ es) =
      (e.prev_hash ≡ null_if_empty (last_hash e.user_id es))
      × (e.hash
          ≡ sha (
              ledger_payload sha uuid (last_hash e.user_id es) e.type e.amount e.currency e.ref_type
                e.ref_id e.user_id))
      × IsChained es

  -- `once`: the issuer has been called for an order, or the order waits for its payment, and not
  -- both. `accounted`: an order has an entry in the ledger exactly if it is paid, and only one.
  pub record IsSound (db : Db) (calls : List ℕ) : Type 0 where
    pub unique : (o : ℕ) → count_by (has_id o) db.orders ≤ 1
    pub fresh : (o : ℕ) → db.next_id ≤ o → count_by (has_id o) db.orders ≡ 0
    pub uncalled : (o : ℕ) → db.next_id ≤ o → called o calls ≡ 0
    pub once : (o : ℕ) → called o calls + waiting o db.orders ≤ 1
    pub accounted : (o : ℕ) → count_by (charge_of o) db.ledger ≡ paid o db.orders
    pub chained : IsChained db.ledger
    pub redeemable : IsRedeemable db.promos db.redemptions

  pub Finalized-IsSound :
      (now id sub : ℕ) (db : Db) (u : Unit {0}) (db' : Db) (calls : List ℕ)
      → Finalized sha uuid now id sub db u db'
      → IsSound db calls
      → IsSound db' calls
  Finalized-IsSound now id sub db u db' calls (o, found, e) s = rw e (record {
    unique = λ k.
        rw
          (count_by-update_where (has_id k) (order_in is_open id) (settled now sub) db.orders
            (λ x. refl))
          (s.unique k);
    fresh = λ k h.
        rw
          (count_by-update_where (has_id k) (order_in is_open id) (settled now sub) db.orders
            (λ x. refl))
          (s.fresh k h);
    uncalled = s.uncalled;
    once = λ k. omega (arith, waiting-settled now sub id k db.orders, s.once k);
    accounted = λ k. ground (
      arith,
      paid-settled now sub id k db.orders,
      s.accounted k,
      open-le-has_id id db.orders,
      s.unique id,
      find-open id db.orders found,
    );
    chained = (refl, refl, s.chained);
    redeemable = s.redeemable;
  })

  pub MarkedFailed-IsSound :
      (id : ℕ) (db : Db) (u : Unit {0}) (db' : Db) (calls : List ℕ)
      → MarkedFailed id db u db'
      → IsSound db calls
      → IsSound db' calls
  MarkedFailed-IsSound id db u db' calls e s = rw e (record {
    unique = λ k.
        rw
          (count_by-update_where (has_id k) (order_in is_open id) (with_status OrderStatus.failed)
            db.orders (λ x. refl))
          (s.unique k);
    fresh = λ k h.
        rw
          (count_by-update_where (has_id k) (order_in is_open id) (with_status OrderStatus.failed)
            db.orders (λ x. refl))
          (s.fresh k h);
    uncalled = s.uncalled;
    once = λ k. omega (arith, waiting-failed id k db.orders, s.once k);
    accounted = λ k. rw (paid-failed id k db.orders) (s.accounted k);
    chained = s.chained;
    redeemable = s.redeemable;
  })

  -- An update that leaves alone what the books are about, but may use up identifiers.
  abbrev pub SameBooks : Db → Db → Type 0
  SameBooks db db' =
      (db'.orders ≡ db.orders)
      × (db'.ledger ≡ db.ledger)
      × (db.next_id ≤ db'.next_id)
      × (db'.promos ≡ db.promos)
      × (db'.redemptions ≡ db.redemptions)

  carry-IsSound :
      (db db' : Db) (calls : List ℕ)
      → db'.orders ≡ db.orders
      → db'.ledger ≡ db.ledger
      → db.next_id ≤ db'.next_id
      → IsRedeemable db'.promos db'.redemptions
      → IsSound db calls
      → IsSound db' calls
  carry-IsSound db db' calls orders ledger next codes s = record {
    unique = λ k. rw orders (s.unique k);
    fresh = λ k h. rw orders (s.fresh k (omega arith));
    uncalled = λ k h. s.uncalled k (omega arith);
    once = λ k. rw orders (s.once k);
    accounted = λ k. rw (orders, ledger) (s.accounted k);
    chained = rw ledger s.chained;
    redeemable = codes;
  }

  pub SameBooks-IsSound :
      (db db' : Db) (calls : List ℕ) → SameBooks db db' → IsSound db calls → IsSound db' calls
  SameBooks-IsSound db db' calls (orders, ledger, next, promos, redemptions) s =
      carry-IsSound db db' calls orders ledger next (rw (promos, redemptions) s.redeemable) s

  pub with_order-IsSound :
      (db : Db) (now : ℕ) (n : NewOrder) (calls : List ℕ)
      → IsSound db calls
      → IsSound (with_order db now n) calls
  with_order-IsSound db now n calls s = record {
    unique = λ k. ground (arith, s.unique k, s.fresh k);
    fresh = λ k h. ground (arith, s.fresh k);
    uncalled = λ k h. s.uncalled k (omega arith);
    once = λ k. ground (arith, s.once k, s.uncalled k, s.fresh k, waiting-le-has_id k db.orders);
    accounted = λ k. ground (arith, s.accounted k);
    chained = s.chained;
    redeemable = s.redeemable;
  }

  Redeemed-IsSound :
      (promo : Option ℕ) (user order : ℕ) (db db' : Db) (calls : List ℕ)
      → Redeemed promo user order db db'
      → IsSound db calls
      → IsSound db' calls
  Redeemed-IsSound none user order db db' calls e s = rw e s
  Redeemed-IsSound (some promo) user order db db' calls e s =
      carry-IsSound db db' calls (ground arith) (ground arith) (ground arith)
        (Redeemed-IsRedeemable (some promo) user order db db' e s.redeemable) s

  pub Created-IsSound :
      (now : ℕ) (n : NewOrder) (db : Db) (o : Order) (db' : Db) (calls : List ℕ)
      → Created now n db o db'
      → IsSound db calls
      → IsSound db' calls
  Created-IsSound now n db o db' calls (row, redeemed) s =
      Redeemed-IsSound n.promo_id n.user_id db.next_id (with_order db now n) db' calls redeemed
        (with_order-IsSound db now n calls s)

  abbrev pub claimed_orders : ℕ → List Order → List Order
  claimed_orders id = update_where (order_in is_waiting id) (with_status OrderStatus.processing)

  pub claim-IsSound :
      (id : ℕ) (db : Db) (calls : List ℕ)
      → IsSound db calls
      → IsSound (record db { orders = claimed_orders id db.orders }) calls
  claim-IsSound id db calls s = record {
    unique = λ k.
        rw
          (count_by-update_where (has_id k) (order_in is_waiting id)
            (with_status OrderStatus.processing) db.orders (λ x. refl))
          (s.unique k);
    fresh = λ k h.
        rw
          (count_by-update_where (has_id k) (order_in is_waiting id)
            (with_status OrderStatus.processing) db.orders (λ x. refl))
          (s.fresh k h);
    uncalled = s.uncalled;
    once = λ k. ground (arith, waiting-claim id k db.orders, s.once k);
    accounted = λ k. rw (paid-claim id k db.orders) (s.accounted k);
    chained = s.chained;
    redeemable = s.redeemable;
  }

  -- A claim that found the order waiting leaves room for one call of the issuer.
  pub call-IsSound :
      (id : ℕ) (db : Db) (calls : List ℕ)
      → IsSound db calls
      → called id calls ≡ 0
      → waiting id db.orders ≡ 0
      → id < db.next_id
      → IsSound db (id ∷ calls)
  call-IsSound id db calls s never left known = record {
    unique = s.unique;
    fresh = s.fresh;
    uncalled = λ k h. ground (arith, s.uncalled k);
    once = λ k. ground (arith, s.once k);
    accounted = s.accounted;
    chained = s.chained;
    redeemable = s.redeemable;
  }
