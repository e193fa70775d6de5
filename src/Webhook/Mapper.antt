-- ===== src/Webhook/Mapper.antt =====
-- src/shared/utils/subscription-update.mapper.ts and src/shared/constants/quota.constants.ts: the
-- `subscription_update` block of a package plan.
use subscription_be.Prelude.{
  ℕ, ◌/◌, String, Bool, Option, none, some, List, [], if◌then◌else◌, or_else, str_eq, find_first,
}
use subscription_be.Prelude.Int.{ℤ, pos, minus_one}
use subscription_be.Db.Schema.{PackageTier, basic, lite, medium, pro, enterprise, SkuBenefit, Sku}
use subscription_be.Webhook.{SubscriptionUpdate}

-- `UNLIMITED_QUOTA`
abbrev pub unlimited_quota : ℤ
unlimited_quota = minus_one

-- `toQuotaWire`
unfoldable pub to_quota_wire : Bool → ℕ → ℤ
to_quota_wire is_unlimited total = if is_unlimited then unlimited_quota else pos total

-- the UTC day of a time in milliseconds: `date.toISOString().slice(0, 10)`
unfoldable pub to_ymd : ℕ → ℕ
to_ymd ms = ms / 86400000

-- `package_tier.toLowerCase()`
abbrev tier_name : PackageTier → String
tier_name basic = "basic"
tier_name lite = "lite"
tier_name medium = "medium"
tier_name pro = "pro"
tier_name enterprise = "enterprise"

abbrev tier_of : Option PackageTier → String
tier_of none = "basic"
tier_of (some tier) = tier_name tier

-- `benefit?.is_unlimited ? UNLIMITED_QUOTA : (benefit?.max_usage ?? 0)`
unfoldable pub benefit_cap : Option SkuBenefit → ℤ
benefit_cap none = pos 0
benefit_cap (some b) = if b.is_unlimited then unlimited_quota else pos (or_else b.max_usage 0)

abbrev pub benefit_for : String → List SkuBenefit → Option SkuBenefit
benefit_for type benefits = find_first (λ b. str_eq b.benefit_type type) benefits

-- `is_trial` stands for `sku_code.toLowerCase().includes('trial')`, JavaScript's text search.
unfoldable pub build_subscription_update :
    (is_trial : String → Bool) → Sku → String → ℕ → ℕ → SubscriptionUpdate
build_subscription_update is_trial sku status billing_start billing_end = record {
  tier = some (tier_of sku.package_tier);
  status = some status;
  max_clinics = some (benefit_cap (benefit_for "clinic" sku.benefits));
  max_users_per_clinic = some (benefit_cap (benefit_for "user" sku.benefits));
  features = some sku.features;
  addons = some [];
  billing_start = some (some (to_ymd billing_start));
  billing_end = some (some (to_ymd billing_end));
  trial_end = some (if is_trial sku.sku_code then some (to_ymd billing_end) else none);
}
