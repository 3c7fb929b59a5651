-- ===== src/Billing/Model.antt =====
-- internal/billing/model.go and the rows of migrations/00004_billing.sql. Identifiers are numbers,
-- 0 is uuid.Nil. Amounts are whole cents, times are seconds.
use vpn_price_public.Base.{ℕ, Bool, ◌||◌, Option, List, Text, codes, text_eq}

pub data OrderStatus : Type 0 where
  new wait_payment processing paid failed expired cancelled refunded : OrderStatus

pub data PaymentStatus : Type 0 where
  created pending success failed expired : PaymentStatus

pub data PromoType : Type 0 where
  percent fixed : PromoType

pub data SubscriptionStatus : Type 0 where
  active paused blocked expired migrated deleted : SubscriptionStatus

pub record Order : Type 0 where
  pub id : ℕ
  pub user_id : ℕ
  pub plan_id : ℕ
  pub country_id : ℕ
  pub protocol : Text
  pub amount : ℕ
  pub discount : ℕ
  pub currency : Text
  pub gateway : Text
  pub promo_id : Option ℕ
  pub label : Option Text
  pub renew_subscription_id : Option ℕ
  pub routing : Text
  pub status : OrderStatus
  pub subscription_id : Option ℕ
  pub created_at : ℕ
  pub paid_at : Option ℕ

pub record Payment : Type 0 where
  pub id : ℕ
  pub order_id : ℕ
  pub gateway : Text
  pub external_id : Text
  pub status : PaymentStatus
  pub amount : ℕ
  pub currency : Text
  pub payment_url : Text

pub record Plan : Type 0 where
  pub id : ℕ
  pub price : ℕ
  pub currency : Text
  pub days : ℕ
  pub active : Bool

-- `discount` is in cents, or in hundredths of a percent.
pub record Promo : Type 0 where
  pub id : ℕ
  pub code : Text
  pub type : PromoType
  pub discount : ℕ
  pub max_uses : Option ℕ
  pub used_count : ℕ
  pub expires_at : Option ℕ
  pub active : Bool

pub record Redemption : Type 0 where
  pub promo_id : ℕ
  pub user_id : ℕ
  pub order_id : ℕ

pub record LedgerEntry : Type 0 where
  pub user_id : ℕ
  pub type : Text
  pub amount : ℕ
  pub currency : Text
  pub ref_type : Text
  pub ref_id : ℕ
  pub prev_hash : Option Text
  pub hash : Text

pub record WebhookEvent : Type 0 where
  pub gateway : Text
  pub external_id : Text
  pub status : PaymentStatus
  pub payload : Text
  pub processed : Bool

-- The columns of a subscription that billing reads and writes.
pub record Subscription : Type 0 where
  pub id : ℕ
  pub status : SubscriptionStatus
  pub expires_at : ℕ

pub record CreatePaymentInput : Type 0 where
  pub order_id : ℕ
  pub amount : ℕ
  pub currency : Text
  pub description : Text
  pub callback_url : Text
  pub return_url : Text

pub record CreatePaymentResult : Type 0 where
  pub external_id : Text
  pub payment_url : Text
  pub status : PaymentStatus

-- `order_id` is 0 if the provider does not echo it.
pub record WebhookResult : Type 0 where
  pub external_id : Text
  pub order_id : ℕ
  pub status : PaymentStatus

pub data BillingError : Type 0 where
  plan_not_found unknown_gateway order_not_found promo_invalid promo_used too_many_pending :
      BillingError
  bad_protocol webhook_conflict invalid_signature : BillingError
  bad_payload : BillingError  -- json.Unmarshal failed
  database : BillingError  -- the driver reported an error
  gateway_failed : BillingError  -- "create payment: …"
  provision_failed : BillingError  -- "provision vpn: …"

pub data Result {ℓ} (A : Type ℓ) : Type ℓ where
  ok : A → Result A
  err : BillingError → Result A

-- The interface `Provider`.
pub record Provider : Type 0 where
  pub create_payment : CreatePaymentInput → Result CreatePaymentResult
  pub parse_webhook : List (Text × Text) → Text → Result WebhookResult

-- `vpn.CreateInput`, what the issuer is asked for; `order` names the order that it is for.
pub record CreateInput : Type 0 where
  pub user_id : ℕ
  pub country_id : ℕ
  pub protocol : Text
  pub plan_id : ℕ
  pub label : Option Text
  pub routing : Text

-- internal/vpn/model.go, `Protocol.Valid`
abbrev pub protocol_valid : Text → Bool
protocol_valid p =
    text_eq p (codes "wireguard")
    || text_eq p (codes "vless_reality")
    || text_eq p (codes "shadowsocks")
    || text_eq p (codes "trojan")
