-- ===== src/Billing/Requests.antt =====
-- internal/billing: requests one after the other, with any pattern of failing statements.
use vpn_price_public.Base.{
  ℕ, ◌+◌, ◌≤◌, ◌≡◌, refl, arith, Bool, false, any, List, [], ◌∷◌, Text, count_by,
}
use vpn_price_public.Billing.Model.{Promo, Subscription, Plan}
use vpn_price_public.Billing.Store.{World}
use vpn_price_public.Billing.Counts.{paid, waiting, paid-le-has_id}
use vpn_price_public.Billing.Promos.{is_overused, has_promo_id, used}
use vpn_price_public.Billing.Books.{IsSound, called, charge_of}
use vpn_price_public.Billing.Service.{
  Service, BuyInput, buy, confirm_mock, fulfill_order, handle_webhook,
}
use vpn_price_public.Billing.Expirer.{sweep}
use vpn_price_public.Billing.Delivery.{Books, buy-Keeps}
use vpn_price_public.Billing.Fulfilment.{
  Keeps-Sound, fulfill_order-Sound, sweep-Keeps, confirm_mock-Sound, handle_webhook-Sound,
}

-- A purchase, a callback of a gateway, the call of `FulfillOrder` by the bot, the development
-- endpoint, and the sweep of the expirer with its time of grace.
pub data Request : Type 0 where
  purchase : BuyInput → Request
  webhook : Text → List (Text × Text) → Text → Request
  fulfilment : ℕ → Request
  confirmation : ℕ → Request
  expiry : ℕ → Request

-- A request, when it is served, and which of its statements the database refuses.
pub record Arrival : Type 0 where
  pub request : Request
  pub at : ℕ
  pub faults : List Bool

unfoldable pub answer : Service → Request → World → World
answer s (purchase input) w = (buy s input w).1
answer s (webhook gateway headers body) w = (handle_webhook s gateway headers body w).1
answer s (fulfilment id) w = (fulfill_order s id w).1
answer s (confirmation id) w = (confirm_mock s id w).1
answer s (expiry grace) w = (sweep grace w.now w).1

unfoldable pub serve : Service → List Arrival → World → World
unfolding answer
serve s [] w = w
serve s (a ∷ arrivals) w =
    serve s arrivals (answer s a.request (record w { faults = a.faults; now = a.at }))

answer-IsSound :
    (s : Service) (r : Request) (w : World)
    → Books s w.db w.issued
    → Books s (answer s r w).db (answer s r w).issued
unfolding answer
answer-IsSound s (purchase input) w q =
    (Keeps-Sound s w (buy s input w) (buy-Keeps s input w) q).sound
answer-IsSound s (webhook gateway headers body) w q =
    (handle_webhook-Sound s gateway headers body w q).sound
answer-IsSound s (fulfilment id) w q = (fulfill_order-Sound s id w q).sound
answer-IsSound s (confirmation id) w q = (confirm_mock-Sound s id w q).sound
answer-IsSound s (expiry grace) w q = (Keeps-Sound s w _ (sweep-Keeps s grace w.now w) q).sound

-- Serving any list of requests, with any pattern of refused statements, keeps the books sound:
-- identifiers are unique and fresh, the issuer is called at most once per order and not before the
-- claim, charges in the ledger match the paid orders, each user's ledger entries are chained by
-- their hashes, and promo codes and redemptions agree.
pub serve-IsSound :
    (s : Service) (arrivals : List Arrival) (w : World)
    → IsSound s.sha256_hex s.uuid_text w.db w.issued
    → IsSound s.sha256_hex s.uuid_text (serve s arrivals w).db (serve s arrivals w).issued
unfolding serve
serve-IsSound s [] w q = q
serve-IsSound s (a ∷ arrivals) w q =
    serve-IsSound s arrivals (answer s a.request (record w { faults = a.faults; now = a.at }))
      (answer-IsSound s a.request (record w { faults = a.faults; now = a.at }) q)

-- The database before the first order.
abbrev pub opening : List Plan → List Promo → List Subscription → World
opening plans promos subscriptions = record {
  db = record {
    orders = [];
    payments = [];
    plans = plans;
    promos = promos;
    redemptions = [];
    ledger = [];
    webhooks = [];
    subscriptions = subscriptions;
    next_id = 1;
  };
  faults = [];
  now = 0;
  issued = [];
}

-- No code has been used yet, and no two codes share an identifier.
abbrev pub IsUnused : List Promo → Type 0
IsUnused promos =
    ((p : ℕ) → count_by (has_promo_id p) promos ≤ 1)
    × ((p : ℕ) → 0 ≡ used p promos)
    × (any is_overused promos ≡ false)

pub opening-IsSound :
    (s : Service) (plans : List Plan) (promos : List Promo) (subscriptions : List Subscription)
    → IsUnused promos
    → Books s (opening plans promos subscriptions).db []
opening-IsSound s plans promos subscriptions (named, counted, capped) = record {
  unique = λ k. omega arith;
  fresh = λ k h. refl;
  uncalled = λ k h. refl;
  once = λ k. omega arith;
  accounted = λ k. refl;
  chained = tt;
  redeemable = record {
    named = named;
    counted = counted;
    single = λ p u. omega arith;
    capped = capped;
  };
}

-- Served from a database with no order, whatever the requests, their order and the refused
-- statements: the issuer is called at most once for an order and not while the order waits for its
-- payment, an order has exactly one charge in the ledger if it is paid and none otherwise, at most
-- one row of it is paid, and no promo code is used beyond its limit, provided the promo codes have
-- different identifiers and are unused at first.
pub serve-once :
    (s : Service) (plans : List Plan) (promos : List Promo) (subscriptions : List Subscription)
    (arrivals : List Arrival) (o : ℕ)
    → IsUnused promos
    → let w = serve s arrivals (opening plans promos subscriptions) in
      (called o w.issued + waiting o w.db.orders ≤ 1)
      × (count_by (charge_of o) w.db.ledger ≡ paid o w.db.orders)
      × (paid o w.db.orders ≤ 1)
      × (any is_overused w.db.promos ≡ false)
serve-once s plans promos subscriptions arrivals o h =
    let w = serve s arrivals (opening plans promos subscriptions) in
    let sound =
      serve-IsSound s arrivals (opening plans promos subscriptions)
        (opening-IsSound s plans promos subscriptions h) in
    (
      sound.once o,
      sound.accounted o,
      omega (arith, paid-le-has_id o w.db.orders, sound.unique o),
      sound.redeemable.capped,
    )
