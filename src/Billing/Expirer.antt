-- ===== src/Billing/Expirer.antt =====
-- internal/billing/expirer.go: subscriptions that ran out are marked as expired.
use vpn_price_public.Base.{
  ℕ, ◌+◌, ◌≤◌, ◌<◌, ◌≡◌, ◌≢◌, ◌⊎◌, inl, inr, refl, Bool, true, false, ◌&&◌, List, [], ◌∷◌, arith,
  any, ltb, update_where, if◌then◌else◌, Bool-cases, update_where-none,
}
use vpn_price_public.Billing.Model.{Subscription, SubscriptionStatus, ok}
use vpn_price_public.Billing.Store.{World, M, statement}

abbrev pub is_active : SubscriptionStatus → Bool
is_active SubscriptionStatus.active = true
is_active _ = false

-- `status = 'active' AND expires_at < now() - make_interval(secs => grace)`
abbrev pub is_overdue : ℕ → ℕ → Subscription → Bool
is_overdue grace now s = is_active s.status && ltb (s.expires_at + grace) now

abbrev pub as_expired : Subscription → Subscription
as_expired s = record s { status = SubscriptionStatus.expired }

unfoldable pub sweep : ℕ → ℕ → M (Unit {0})
sweep grace now = statement λ db. (
  ok tt,
  record db { subscriptions = update_where (is_overdue grace now) as_expired db.subscriptions },
)

-- What a sweep makes of a row: an active one that ran out more than the grace ago becomes expired
-- and keeps all else, and any other row is left as it is.
abbrev pub IsSwept : ℕ → ℕ → Subscription → Subscription → Type 0
IsSwept grace now s t =
    ((s.status ≡ SubscriptionStatus.active)
      × (s.expires_at + grace < now)
      × (t ≡ record s { status = SubscriptionStatus.expired }))
    ⊎ (((s.status ≢ SubscriptionStatus.active) ⊎ (now ≤ s.expires_at + grace)) × (t ≡ s))

-- Row by row, in their order.
abbrev pub AreSwept : ℕ → ℕ → List Subscription → List Subscription → Type 0
AreSwept grace now [] [] = Unit
AreSwept grace now (s ∷ before) (t ∷ after) =
    IsSwept grace now s t × AreSwept grace now before after
AreSwept grace now _ _ = ⊥

is_active-active :
    (status : SubscriptionStatus) → is_active status ≡ true → status ≡ SubscriptionStatus.active
is_active-active SubscriptionStatus.active h = refl
is_active-active SubscriptionStatus.paused h = ground arith
is_active-active SubscriptionStatus.blocked h = ground arith
is_active-active SubscriptionStatus.expired h = ground arith
is_active-active SubscriptionStatus.migrated h = ground arith
is_active-active SubscriptionStatus.deleted h = ground arith

row-IsSwept :
    (grace now : ℕ) (s : Subscription)
    → IsSwept grace now s (if is_overdue grace now s then as_expired s else s)
row-IsSwept grace now s = elim (Bool-cases (is_active s.status)) [
  | inl active ↦ elim (Bool-cases (ltb (s.expires_at + grace) now)) [
    | inl over ↦ inl (is_active-active s.status active, ground arith, rw (active, over) refl)
    | inr valid ↦ inr (inr (ground arith), rw (active, valid) refl)
  ]
  | inr idle ↦
      inr (inl (λ e. let on : is_active s.status ≡ true = rw e refl in ground arith), rw idle refl)
]

rows-AreSwept :
    (grace now : ℕ) (subs : List Subscription)
    → AreSwept grace now subs (update_where (is_overdue grace now) as_expired subs)
rows-AreSwept grace now [] = tt
rows-AreSwept grace now (s ∷ subs) = (row-IsSwept grace now s, rows-AreSwept grace now subs)

none-overdue :
    (grace now : ℕ) (subs : List Subscription)
    → any (is_overdue grace now) (update_where (is_overdue grace now) as_expired subs) ≡ false
none-overdue grace now [] = refl
none-overdue grace now (x ∷ subs) = ground (arith, none-overdue grace now subs)

-- With no statement refused, a sweep marks as expired the active subscriptions that ran out more
-- than the grace ago and leaves their other columns and all other subscriptions as they were, row
-- by row, so that no such subscription is left; a second sweep at the same time changes nothing,
-- and nothing but subscriptions is changed. If the statement is refused, the sweep changes nothing.
pub sweep-sweep :
    (grace now : ℕ) (w : World) (faults : List Bool)
    → let w0 = record w { faults = [] } in
      let w1 = (sweep grace now w0).1 in
      AreSwept grace now w.db.subscriptions w1.db.subscriptions
      × (any (is_overdue grace now) w1.db.subscriptions ≡ false)
      × ((sweep grace now w1).1 ≡ w1)
      × (w1 ≡ record w0 { db = record w.db { subscriptions = w1.db.subscriptions } })
      × ((sweep grace now (record w { faults = true ∷ faults })).1 ≡ record w { faults = faults })
unfolding sweep statement
sweep-sweep grace now w faults = (
  rows-AreSwept grace now w.db.subscriptions,
  none-overdue grace now w.db.subscriptions,
  rw
      (update_where-none (is_overdue grace now) as_expired _
        (none-overdue grace now w.db.subscriptions))
      refl,
  refl,
  refl,
)
