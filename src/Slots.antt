-- ===== src/Slots.antt =====
-- src/internal/services/internal.service.ts and src/internal/repositories/internal.repository.ts: Domain 2
-- takes and gives back slots (clinics and users) of a plan's quota.
pub mod Quota
pub mod Attribution
pub mod Reconcile
pub mod Release
pub mod Outcome
use subscription_be.Prelude.{
  ℕ, ◌+◌, ◌-◌, String, Bool, true, false, not, ◌&&◌, ◌||◌, Option, none, some, List, [], ◌∷◌, ◌==◌,
  ltb, leb, str_eq, if◌then◌else◌, or_else, is_some, any, find_first, find_many, count_where,
  sum_where, map,
}
use subscription_be.Prelude.Int.{ℤ, pos, sub_ℕ, minus_one}
use subscription_be.Db.{Db}
use subscription_be.Db.Table
use subscription_be.Db.Action.{
  Action, ok, ◌>>=◌, ◌>>◌, return, or_throw, throw_if, reads, writes, transaction,
  subscription_not_found, quota_exceeded,
}
use subscription_be.Db.Schema.{
  Subscription, Sku, SkuBenefit, SkuAddon, ResourceType, clinic_addon, user_addon,
  SubscriptionQuota, AddonSlotMap, RefType, clinic, staff, doctor,
}
use subscription_be.Subscription.Rows.{is_active_status, active_addon, has_token, quota_at}
use subscription_be.Subscription.Switch.{sku_of}

-- `resource_type`, 'CLINIC' or 'USER'
pub data Resource : Type 0 where
  clinics users : Resource

-- `payload.resource_type.toLowerCase()`
abbrev pub quota_resource_type : Resource → String
quota_resource_type clinics = "clinic"
quota_resource_type users = "user"

-- `refTypes`
abbrev pub ref_of : Resource → RefType → Bool
ref_of clinics clinic = true
ref_of clinics _ = false
ref_of users clinic = false
ref_of users _ = true

-- `findSubscriptionByToken`
abbrev pub by_token : String → Subscription → Bool
by_token token s = has_token token s.purchase_token && is_active_status s.status && not s.deleted

-- `findSubscriptionByTokenAnyStatus`
abbrev pub by_token_any_status : String → Subscription → Bool
by_token_any_status token s = has_token token s.purchase_token && not s.deleted

-- `getQuotaWithLock` and `findQuota`
abbrev pub quota_of : ℕ → Resource → SubscriptionQuota → Bool
quota_of subscription resource q =
    q.package_subscription_id == subscription
    && str_eq q.resource_type (quota_resource_type resource)
    && not q.deleted

-- A source of slots, with its capacity
pub record Source : Type 0 where
  pub subscription_id : ℕ
  pub capacity : ℕ
  pub is_unlimited : Bool

-- `orderBy: { created_at: 'asc' }`
abbrev insert_by_created : Subscription → List Subscription → List Subscription
insert_by_created s [] = s ∷ []
insert_by_created s (x ∷ xs) =
    let later = insert_by_created s xs in
    if leb s.created_at x.created_at then s ∷ x ∷ xs else x ∷ later

abbrev pub oldest_first : List Subscription → List Subscription
oldest_first [] = []
oldest_first (x ∷ xs) = insert_by_created x (oldest_first xs)

abbrev pub benefits_of : Option Sku → List SkuBenefit
benefits_of none = []
benefits_of (some k) = k.benefits

abbrev pub addons_of : Option Sku → List SkuAddon
addons_of none = []
addons_of (some k) = k.addons

-- `addons: true`, which includes the deleted ones
abbrev pub all_addons_of : Option Sku → List SkuAddon
all_addons_of none = []
all_addons_of (some k) = k.all_addons

-- The package's source, from its benefit of the resource; no benefit is a capacity of 0.
abbrev pub benefit_source : ℕ → Option SkuBenefit → Source
benefit_source id none = record { subscription_id = id; capacity = 0; is_unlimited = false }
benefit_source id (some b) = record {
  subscription_id = id;
  capacity = or_else b.max_usage 0;
  is_unlimited = b.is_unlimited;
}

abbrev pub package_source : Resource → Subscription → Db → Source
package_source resource s db = benefit_source s.id (
    find_first (λ b. str_eq b.benefit_type (quota_resource_type resource))
      (benefits_of (sku_of s db)))

abbrev provides : Resource → ResourceType → Bool
provides clinics clinic_addon = true
provides clinics user_addon = false
provides users clinic_addon = false
provides users user_addon = true

abbrev pub matching_addons : Resource → Subscription → Db → List SkuAddon
matching_addons resource s db =
    find_many (λ a. provides resource a.resource_type) (addons_of (sku_of s db))

-- An add-on is a source of the resource only if it has one of its add-on resources.
abbrev pub addon_source : ℕ → List SkuAddon → List Source → List Source
addon_source id [] rest = rest
addon_source id (a ∷ as_) rest =
    record {
      subscription_id = id;
      capacity = sum_where (λ x. true) (λ (x : SkuAddon). x.quota_value) (a ∷ as_);
      is_unlimited = any (λ x. x.is_unlimited) (a ∷ as_);
    }
    ∷ rest

abbrev pub addon_sources : Resource → List Subscription → Db → List Source
addon_sources resource [] db = []
addon_sources resource (s ∷ ss) db =
    addon_source s.id (matching_addons resource s db) (addon_sources resource ss db)

-- `getAssignmentSources`: the package first, then the active add-ons, the oldest first
unfoldable pub get_assignment_sources : Resource → Subscription → Db → List Source
get_assignment_sources resource s db =
    package_source resource s db
    ∷ addon_sources resource (oldest_first (Table.select (active_addon s.user_id) db.subscriptions))
        db

abbrev pub live_slot : Resource → AddonSlotMap → Bool
live_slot resource m = ref_of resource m.ref_type && not m.deleted

abbrev pub slot_of : Resource → ℕ → AddonSlotMap → Bool
slot_of resource id m = m.addon_subscription_id == id && live_slot resource m

-- `countSlotsBySource`, at one source: `usedBySource.get(id) ?? 0`
abbrev pub slots_of_source : Resource → ℕ → Db → ℕ
slots_of_source resource id db = Table.count (slot_of resource id) db.slot_maps

abbrev pub has_room : Resource → Db → Source → Bool
has_room resource db s =
    s.is_unlimited || ltb (slots_of_source resource s.subscription_id db) s.capacity

abbrev source_id : ℕ → Option Source → ℕ
source_id default none = default
source_id default (some s) = s.subscription_id

-- The first source with room, or the package
unfoldable pub attribute : Resource → Subscription → Db → ℕ
unfolding get_assignment_sources
attribute resource s db =
    source_id s.id (find_first (has_room resource db) (get_assignment_sources resource s db))

abbrev pub full : SubscriptionQuota → Bool
full q = not q.is_unlimited && leb q.total_quota q.used_quota

abbrev pub take_one : SubscriptionQuota → SubscriptionQuota
take_one q = record q { used_quota = q.used_quota + 1 }

-- `incrementQuotaUsed`
abbrev pub increment_quota_used : ℕ → Db → Db
increment_quota_used id db = record db { quotas = Table.update (quota_at id) take_one db.quotas }

abbrev pub slot_row : ℕ → RefType → ℕ → ℕ → AddonSlotMap
slot_row source ref_type ref_id id = record {
  id = id;
  addon_subscription_id = source;
  ref_type = ref_type;
  ref_id = ref_id;
  deleted = false;
}

-- What `slotAssign` returns
pub record Assigned : Type 0 where
  pub slot_id : ℕ
  pub quota_remaining : ℤ
  pub attributed_subscription_id : ℕ

-- The body of the transaction of `slotAssign`
unfoldable pub assign_body : String → Resource → RefType → ℕ → Action Db Assigned
unfolding attribute
assign_body token resource ref_type ref_id = do
  found ← reads (λ db. Table.find (by_token token) db.subscriptions)
  s ← or_throw found subscription_not_found 404
  rows ← reads (λ db. Table.find (quota_of s.id resource) db.quotas)
  quota ← or_throw rows quota_exceeded 409
  throw_if (full quota) quota_exceeded 409
  source ← reads (attribute resource s)
  writes (increment_quota_used quota.id)
  slot ← reads (λ db. db.slot_maps.next_id)
  writes
      (λ db. record db { slot_maps = Table.create (slot_row source ref_type ref_id) db.slot_maps })
  return (record {
    slot_id = slot;
    quota_remaining =
        if quota.is_unlimited then minus_one else pos (quota.total_quota - quota.used_quota - 1);
    attributed_subscription_id = source;
  })

-- `slotAssign`
unfoldable pub slot_assign : String → Resource → RefType → ℕ → Action Db Assigned
slot_assign token resource ref_type ref_id =
    transaction (assign_body token resource ref_type ref_id)
