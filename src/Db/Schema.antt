-- ===== src/Db/Schema.antt =====
-- The rows of prisma/schema.prisma, with the columns that the modelled code reads or writes. The
-- audit columns (`created_by`, `updated_by`, descriptions, `last_updated`) are left out;
-- `deleted_at` is the flag `deleted`. Amounts (`Decimal(…, 2)`) are in hundredths, times in
-- milliseconds, dates (`@db.Date`) in days, both from the epoch.
use subscription_be.Prelude.{ℕ, String, Bool, Option, List}
use subscription_be.Webhook.{WebhookEvent, WebhookPayload}

pub data SkuType : Type 0 where
  package_type addon_type : SkuType

pub data ResourceType : Type 0 where
  clinic_addon user_addon : ResourceType

pub data PackageTier : Type 0 where
  basic lite medium pro enterprise : PackageTier

pub record SkuBenefit : Type 0 where
  pub benefit_type : String
  pub max_usage : Option ℕ
  pub is_unlimited : Bool

pub record SkuAddon : Type 0 where
  pub resource_type : ResourceType
  pub quota_value : ℕ
  pub is_unlimited : Bool

pub record Sku : Type 0 where
  pub id : ℕ
  pub sku_name : String
  pub sku_code : String
  pub sku_type : SkuType
  pub package_tier : Option PackageTier
  pub rank : ℕ
  pub billing_duration_days : ℕ
  pub coin_cost : ℕ
  pub is_active : Bool
  pub deleted : Bool
  pub benefits : List SkuBenefit
  pub features : List String
  pub addons : List SkuAddon
  -- with the deleted ones, for the queries that include them
  pub all_features : List String
  pub all_addons : List SkuAddon

pub record Wallet : Type 0 where
  pub id : ℕ
  pub user_id : ℕ
  pub balance : ℕ
  pub currency_id : ℕ
  pub deleted : Bool

pub data CoinTransactionType : Type 0 where
  topup spend : CoinTransactionType

pub record CoinTransaction : Type 0 where
  pub id : ℕ
  pub wallet_id : ℕ
  pub user_id : ℕ
  pub type : CoinTransactionType
  pub amount : ℕ
  pub currency_id : ℕ
  pub ref_id : Option ℕ
  pub payment_method_id : Option ℕ
  pub payment_channel : Option String

pub data CoinOrderStatus : Type 0 where
  pending paid failed expired : CoinOrderStatus

-- `coin_amount` is a whole number of coins; the four prices are in hundredths of a rupiah.
pub record CoinOrder : Type 0 where
  pub id : ℕ
  pub user_id : ℕ
  pub bundle_id : Option ℕ
  pub is_custom_qty : Bool
  pub coin_amount : ℕ
  pub payment_method_id : Option ℕ
  pub currency_id : ℕ
  pub coin_price : ℕ
  pub tax_amount : ℕ
  pub gateway_fee : ℕ
  pub price_paid : ℕ
  pub status : CoinOrderStatus
  pub payment_gateway : Option String
  pub snap_token : Option String
  pub redirect_url : Option String
  pub pg_order_id : String
  pub pg_response_id : Option String
  pub created_at : ℕ
  pub deleted : Bool

pub data SubscriptionStatus : Type 0 where
  active renewed on_hold cancelled expired : SubscriptionStatus

pub record Subscription : Type 0 where
  pub id : ℕ
  pub user_id : ℕ
  pub sku_id : ℕ
  pub sku_type : SkuType
  pub purchase_token : Option String
  pub status : SubscriptionStatus
  pub billing_start : ℕ
  pub billing_end : ℕ
  pub created_at : ℕ
  pub canceled_at : Option ℕ
  pub expired_at : Option ℕ
  pub deleted : Bool

pub record SubscriptionQuota : Type 0 where
  pub id : ℕ
  pub user_id : ℕ
  pub package_subscription_id : ℕ
  pub resource_type : String
  pub total_quota : ℕ
  pub is_unlimited : Bool
  pub used_quota : ℕ
  pub deleted : Bool

pub data RefType : Type 0 where
  clinic staff doctor : RefType

pub record AddonSlotMap : Type 0 where
  pub id : ℕ
  pub addon_subscription_id : ℕ
  pub ref_type : RefType
  pub ref_id : ℕ
  pub deleted : Bool

pub record Order : Type 0 where
  pub id : ℕ
  pub subscription_id : ℕ
  pub user_id : ℕ
  pub sku_id : ℕ
  pub order_number : String
  pub coin_amount : ℕ

pub data BillingCycleStatus : Type 0 where
  pending paid failed refunded : BillingCycleStatus

pub record BillingCycle : Type 0 where
  pub id : ℕ
  pub subscription_id : ℕ
  pub order_id : ℕ
  pub cycle_start : ℕ
  pub cycle_end : ℕ
  pub status : BillingCycleStatus

pub data SubscriptionEventType : Type 0 where
  activated canceled expired renewed plan_switched : SubscriptionEventType

pub record SubscriptionEvent : Type 0 where
  pub id : ℕ
  pub subscription_id : ℕ
  pub billing_id : Option ℕ
  pub event_type : SubscriptionEventType

pub data PlanSwitchType : Type 0 where
  upgrade downgrade crossgrade : PlanSwitchType

pub record PlanSwitch : Type 0 where
  pub id : ℕ
  pub user_id : ℕ
  pub old_subscription_id : ℕ
  pub new_subscription_id : ℕ
  pub old_sku_id : ℕ
  pub new_sku_id : ℕ
  pub switch_type : PlanSwitchType

pub data OutboxStatus : Type 0 where
  pending processing completed failed : OutboxStatus

pub record OutboxRow : Type 0 where
  pub id : ℕ
  pub idempotency_key : String
  pub event_type : WebhookEvent
  pub company_id : ℕ
  pub payload : WebhookPayload
  pub status : OutboxStatus
  pub attempts : ℕ
  pub next_attempt_at : ℕ
  pub created_at : ℕ
  pub updated_at : ℕ
