-- ===== src/Billing/Counts.antt =====
-- How the updates of the orders change the number of orders in a class.
use vpn_price_public.Base.{
  ℕ, ◌+◌, ◌≤◌, ◌<◌, ◌≡◌, refl, Bool, true, false, some, List, [], ◌∷◌, arith, ◌==◌, any, find,
  count_by, update_where, if◌then◌else◌,
}
use vpn_price_public.Billing.Model.{Order, OrderStatus}
use vpn_price_public.Billing.Repository.{is_waiting, is_open}
use vpn_price_public.Billing.Settlement.{order_in, with_status, settled}

abbrev pub has_id : ℕ → Order → Bool
has_id o row = row.id == o

abbrev pub is_paid : OrderStatus → Bool
is_paid OrderStatus.paid = true
is_paid _ = false

abbrev pub waiting : ℕ → List Order → ℕ
waiting o = count_by (order_in is_waiting o)

abbrev pub paid : ℕ → List Order → ℕ
paid o = count_by (order_in is_paid o)

pub waiting-le-has_id : (o : ℕ) (rows : List Order) → waiting o rows ≤ count_by (has_id o) rows
waiting-le-has_id o [] = omega arith
waiting-le-has_id o (r ∷ rows) = ground (arith, waiting-le-has_id o rows)

pub open-le-has_id :
    (o : ℕ) (rows : List Order) → count_by (order_in is_open o) rows ≤ count_by (has_id o) rows
open-le-has_id o [] = omega arith
open-le-has_id o (r ∷ rows) = ground (arith, open-le-has_id o rows)

pub paid-le-has_id : (o : ℕ) (rows : List Order) → paid o rows ≤ count_by (has_id o) rows
paid-le-has_id o [] = omega arith
paid-le-has_id o (r ∷ rows) = ground (arith, paid-le-has_id o rows)

-- Claiming an order leaves it waiting no more, and the others as they were.
pub waiting-claim :
    (id o : ℕ) (rows : List Order)
    → waiting o (update_where (order_in is_waiting id) (with_status OrderStatus.processing) rows)
      ≡ (if o == id then 0 else waiting o rows)
waiting-claim id o [] = ground arith
waiting-claim id o (r ∷ rows) = ground (arith, waiting-claim id o rows)

pub paid-claim :
    (id o : ℕ) (rows : List Order)
    → paid o (update_where (order_in is_waiting id) (with_status OrderStatus.processing) rows)
      ≡ paid o rows
paid-claim id o [] = refl
paid-claim id o (r ∷ rows) = ground (arith, paid-claim id o rows)

pub any-waiting :
    (id : ℕ) (rows : List Order) → any (order_in is_waiting id) rows ≡ true → 0 < waiting id rows
any-waiting id [] h = cc
any-waiting id (r ∷ rows) h = ground (arith, any-waiting id rows)

pub find-open :
    (id : ℕ) (rows : List Order) {o : Order}
    → find (order_in is_open id) rows ≡ some o
    → 0 < count_by (order_in is_open id) rows
find-open id [] {o} h = cc
find-open id (r ∷ rows) {o} h = ground (arith, find-open id rows {o = o})

pub waiting-settled :
    (now sub id o : ℕ) (rows : List Order)
    → waiting o (update_where (order_in is_open id) (settled now sub) rows) ≤ waiting o rows
waiting-settled now sub id o [] = omega arith
waiting-settled now sub id o (r ∷ rows) = ground (arith, waiting-settled now sub id o rows)

pub paid-settled :
    (now sub id o : ℕ) (rows : List Order)
    → paid o (update_where (order_in is_open id) (settled now sub) rows)
      ≡ paid o rows + (if o == id then count_by (order_in is_open id) rows else 0)
paid-settled now sub id o [] = ground arith
paid-settled now sub id o (r ∷ rows) = ground (arith, paid-settled now sub id o rows)

pub waiting-failed :
    (id o : ℕ) (rows : List Order)
    → waiting o (update_where (order_in is_open id) (with_status OrderStatus.failed) rows)
      ≤ waiting o rows
waiting-failed id o [] = omega arith
waiting-failed id o (r ∷ rows) = ground (arith, waiting-failed id o rows)

pub paid-failed :
    (id o : ℕ) (rows : List Order)
    → paid o (update_where (order_in is_open id) (with_status OrderStatus.failed) rows)
      ≡ paid o rows
paid-failed id o [] = refl
paid-failed id o (r ∷ rows) = ground (arith, paid-failed id o rows)
