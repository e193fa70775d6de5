-- ===== src/Subscription/Rows.antt =====
-- The queries of the subscription repositories, and the rows that a purchase creates.
use subscription_be.Prelude.{
  ℕ, ◌+◌, ◌*◌, ◌/◌, ◌%◌, String, Bool, true, false, not, ◌&&◌, ◌||◌, Option, none, some, List, [],
  ◌∷◌, ◌==◌, str_eq, if◌then◌else◌, or_else, find_first, any,
}
use subscription_be.Db.{Db}
use subscription_be.Db.Table
use subscription_be.Db.Schema.{
  Sku, SkuType, package_type, addon_type, ResourceType, clinic_addon, user_addon, SkuBenefit,
  SkuAddon, Subscription, SubscriptionStatus, active, renewed, SubscriptionQuota, Order,
  BillingCycle, BillingCycleStatus, SubscriptionEvent, SubscriptionEventType,
}

-- `planRepo.findById`
abbrev pub find_sku : ℕ → Db → Option Sku
find_sku id db = find_first (λ s. s.id == id && not s.deleted) db.skus

abbrev pub is_package : SkuType → Bool
is_package package_type = true
is_package addon_type = false

abbrev pub is_active_status : SubscriptionStatus → Bool
is_active_status active = true
is_active_status _ = false

-- `status: { in: ['ACTIVE', 'RENEWED'] }`
abbrev pub is_live : SubscriptionStatus → Bool
is_live active = true
is_live renewed = true
is_live _ = false

-- `findActiveByUserId`: the user's live packages
abbrev pub live_package : ℕ → Subscription → Bool
live_package user s =
    s.user_id == user && is_live s.status && is_package s.sku_type && not s.deleted

-- `findActiveAddonsByUserId`
abbrev pub active_addon : ℕ → Subscription → Bool
active_addon user s =
    s.user_id == user && is_active_status s.status && not (is_package s.sku_type) && not s.deleted

-- `where: { id, deleted_at: null }`
abbrev pub by_id : ℕ → Subscription → Bool
by_id id s = s.id == id && not s.deleted

-- a time in milliseconds as a `@db.Date` column keeps it
abbrev pub day_of : ℕ → ℕ
day_of ms = ms / 86400000

-- `billingEnd.setDate(billingEnd.getDate() + days)`, in a time zone without summer time
abbrev pub billing_end_of : ℕ → Sku → ℕ
billing_end_of now sku = now + sku.billing_duration_days * 86400000

abbrev pub subscription_row : ℕ → ℕ → SkuType → String → ℕ → ℕ → ℕ → Subscription
subscription_row user sku_id type token now end id = record {
  id = id;
  user_id = user;
  sku_id = sku_id;
  sku_type = type;
  purchase_token = some token;
  status = active;
  billing_start = day_of now;
  billing_end = day_of end;
  created_at = now;
  canceled_at = none;
  expired_at = none;
  deleted = false;
}

-- `orders.coin_amount` is an `Int` and a plan's `coin_cost` a decimal: Prisma refuses a price that is no
-- whole number of coins.
abbrev pub is_fractional : ℕ → Bool
is_fractional cost = not (cost % 100 == 0)

abbrev pub purchase_row : ℕ → ℕ → ℕ → String → ℕ → ℕ → Order
purchase_row subscription user sku_id number cost id = record {
  id = id;
  subscription_id = subscription;
  user_id = user;
  sku_id = sku_id;
  order_number = number;
  coin_amount = cost / 100;
}

abbrev pub cycle_row : ℕ → ℕ → ℕ → ℕ → ℕ → BillingCycle
cycle_row subscription order start end id = record {
  id = id;
  subscription_id = subscription;
  order_id = order;
  cycle_start = start;
  cycle_end = end;
  status = BillingCycleStatus.paid;
}

abbrev pub event_row : ℕ → Option ℕ → SubscriptionEventType → ℕ → SubscriptionEvent
event_row subscription billing type id = record {
  id = id;
  subscription_id = subscription;
  billing_id = billing;
  event_type = type;
}

-- The quota that mirrors a benefit: an unlimited one stores 0.
abbrev pub quota_row : ℕ → ℕ → SkuBenefit → ℕ → SubscriptionQuota
quota_row user subscription b id = record {
  id = id;
  user_id = user;
  package_subscription_id = subscription;
  resource_type = b.benefit_type;
  total_quota = if b.is_unlimited then 0 else or_else b.max_usage 0;
  is_unlimited = b.is_unlimited;
  used_quota = 0;
  deleted = false;
}

-- `for (const benefit of benefits) await tx.subscriptionQuota.create(…)`
abbrev pub mirror_benefits :
    ℕ → ℕ → List SkuBenefit → Table.Table SubscriptionQuota → Table.Table SubscriptionQuota
mirror_benefits user subscription [] t = t
mirror_benefits user subscription (b ∷ bs) t =
    mirror_benefits user subscription bs (Table.create (quota_row user subscription b) t)

-- `resource_type.replace('_ADDON', '').toLowerCase()` on the two values of the enum: also
-- `addonResourceToQuotaType`
abbrev pub quota_type_of : ResourceType → String
quota_type_of clinic_addon = "clinic"
quota_type_of user_addon = "user"

-- `where: { user_id, resource_type, deleted_at: null }`
abbrev pub quota_for : ℕ → String → SubscriptionQuota → Bool
quota_for user type q = q.user_id == user && str_eq q.resource_type type && not q.deleted

abbrev pub extend_quota : SkuAddon → SubscriptionQuota → SubscriptionQuota
extend_quota addon q =
    if addon.is_unlimited
    then record q { is_unlimited = true }
    else record q { total_quota = q.total_quota + addon.quota_value }

abbrev pub quota_at : ℕ → SubscriptionQuota → Bool
quota_at id q = q.id == id

abbrev extend_found :
    SkuAddon
    → Option SubscriptionQuota
    → Table.Table SubscriptionQuota
    → Table.Table SubscriptionQuota
extend_found addon none t = t
extend_found addon (some q) t =
    if q.is_unlimited then t else Table.update (quota_at q.id) (extend_quota addon) t

-- One add-on resource: it extends the first quota of the user and type, unless that is unlimited.
abbrev pub apply_addon :
    ℕ → SkuAddon → Table.Table SubscriptionQuota → Table.Table SubscriptionQuota
apply_addon user addon t =
    extend_found addon (Table.find (quota_for user (quota_type_of addon.resource_type)) t) t

abbrev pub apply_addons :
    ℕ → List SkuAddon → Table.Table SubscriptionQuota → Table.Table SubscriptionQuota
apply_addons user [] t = t
apply_addons user (a ∷ as_) t = apply_addons user as_ (apply_addon user a t)

-- the unique columns `subscriptions.purchase_token` and `orders.order_number`
abbrev pub has_token : String → Option String → Bool
has_token token none = false
has_token token (some t) = str_eq t token

abbrev pub keys_taken : String → String → Db → Bool
keys_taken token number db =
    any (λ s. has_token token s.purchase_token) db.subscriptions.rows
    || any (λ o. str_eq o.order_number number) db.orders.rows
