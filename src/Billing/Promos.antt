-- ===== src/Billing/Promos.antt =====
-- internal/billing/repository.go: the promo codes and their redemptions.
use vpn_price_public.Base.{
  ℕ, ◌+◌, ◌≤◌, ◌≡◌, Bool, true, false, not, Option, none, some, List, [], ◌∷◌, arith, ◌==◌, leb,
  any, count_by, update_where, if◌then◌else◌,
}
use vpn_price_public.Billing.Model.{Promo, Redemption}
use vpn_price_public.Billing.Store.{Db}
use vpn_price_public.Billing.Repository.{may_redeem, use_once, same_redemption}
use vpn_price_public.Billing.Settled.{Redeemed}

abbrev pub has_promo_id : ℕ → Promo → Bool
has_promo_id p row = row.id == p

abbrev pub redeems : ℕ → Redemption → Bool
redeems p r = r.promo_id == p

-- The uses that the promo codes with an identifier count.
abbrev pub used : ℕ → List Promo → ℕ
used p [] = 0
used p (row ∷ rows) = (if row.id == p then row.used_count else 0) + used p rows

abbrev pub is_overused : Promo → Bool
is_overused p = elim p.max_uses [ none ↦ false | some n ↦ not (leb p.used_count n) ]

-- `counted`: a code has as many redemptions as its row counts. `single`: a user has one at most.
-- `capped`: no code is over its limit.
pub record IsRedeemable (promos : List Promo) (redemptions : List Redemption) : Type 0 where
  pub named : (p : ℕ) → count_by (has_promo_id p) promos ≤ 1
  pub counted : (p : ℕ) → count_by (redeems p) redemptions ≡ used p promos
  pub single : (p u : ℕ) → count_by (same_redemption p u) redemptions ≤ 1
  pub capped : any is_overused promos ≡ false

used-use_once :
    (id p : ℕ) (rows : List Promo)
    → used p (update_where (may_redeem id) use_once rows)
      ≡ used p rows + (if p == id then count_by (may_redeem id) rows else 0)
used-use_once id p [] = ground arith
used-use_once id p (r ∷ rows) = ground (arith, used-use_once id p rows)

named-use_once :
    (id p : ℕ) (rows : List Promo)
    → count_by (has_promo_id p) (update_where (may_redeem id) use_once rows)
      ≡ count_by (has_promo_id p) rows
named-use_once id p [] = ground arith
named-use_once id p (r ∷ rows) = ground (arith, named-use_once id p rows)

overused-use_once :
    (id : ℕ) (rows : List Promo)
    → any is_overused rows ≡ false
    → any is_overused (update_where (may_redeem id) use_once rows) ≡ false
overused-use_once id [] h = ground arith
overused-use_once id (r ∷ rows) h = ground (arith, overused-use_once id rows)

redeemable-le-named :
    (id : ℕ) (rows : List Promo) → count_by (may_redeem id) rows ≤ count_by (has_promo_id id) rows
redeemable-le-named id [] = omega arith
redeemable-le-named id (r ∷ rows) = ground (arith, redeemable-le-named id rows)

any-redeemable :
    (id : ℕ) (rows : List Promo)
    → any (may_redeem id) rows ≡ true
    → 1 ≤ count_by (may_redeem id) rows
any-redeemable id [] h = ground arith
any-redeemable id (r ∷ rows) h = ground (arith, any-redeemable id rows)

none-redeemed :
    (promo user : ℕ) (rs : List Redemption)
    → any (same_redemption promo user) rs ≡ false
    → count_by (same_redemption promo user) rs ≡ 0
none-redeemed promo user [] h = ground arith
none-redeemed promo user (r ∷ rs) h = ground (arith, none-redeemed promo user rs)

new_redemption-single :
    (promo user order p u : ℕ) (rs : List Redemption)
    → any (same_redemption promo user) rs ≡ false
    → count_by (same_redemption p u) rs ≤ 1
    → count_by
        (same_redemption p u)
        (record { promo_id = promo; user_id = user; order_id = order } ∷ rs)
      ≤ 1
new_redemption-single promo user order p u rs h h' = ground (arith, none-redeemed promo user rs)

pub Redeemed-IsRedeemable :
    (promo : Option ℕ) (user order : ℕ) (db db' : Db)
    → Redeemed promo user order db db'
    → IsRedeemable db.promos db.redemptions
    → IsRedeemable db'.promos db'.redemptions
Redeemed-IsRedeemable none user order db db' e s = rw e s
Redeemed-IsRedeemable (some promo) user order db db' (may, new, e) s = rw e (record {
  named = λ p. ground (arith, s.named p, named-use_once promo p db.promos);
  counted = λ p. ground (
    arith,
    s.counted p,
    s.named promo,
    used-use_once promo p db.promos,
    any-redeemable promo db.promos,
    redeemable-le-named promo db.promos,
  );
  single = λ p u. new_redemption-single promo user order p u db.redemptions new (s.single p u);
  capped = overused-use_once promo db.promos s.capped;
})
