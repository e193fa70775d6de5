-- ===== src/Slots/Release.antt =====
-- `slotRelease` of src/internal/services/internal.service.ts and `reconcileQuota` of its repository.
use subscription_be.Prelude.{
  ℕ, ◌+◌, ◌-◌, String, Bool, true, false, ◌&&◌, Option, none, some, List, ◌==◌, ltb, if◌then◌else◌,
  any, sum_where, find_first,
}
use subscription_be.Prelude.Int.{ℤ, pos, sub_ℕ, minus_one}
use subscription_be.Db.{Db}
use subscription_be.Db.Table
use subscription_be.Db.Action.{Action, ok, transaction}
use subscription_be.Db.Schema.{Subscription, SubscriptionQuota, AddonSlotMap}
use subscription_be.Subscription.Rows.{quota_at}
use subscription_be.Slots.{
  Resource, Source, by_token_any_status, quota_of, live_slot, get_assignment_sources,
}

abbrev belongs_to : ℕ → Option Subscription → Bool
belongs_to user none = false
belongs_to user (some s) = s.user_id == user

-- `subscription: { user_id }`, the join on the slot's source
abbrev pub owner_is : ℕ → Db → ℕ → Bool
owner_is user db id = belongs_to user (find_first (λ s. s.id == id) db.subscriptions.rows)

-- `findUserSlotMap`
abbrev pub user_slot : ℕ → ℕ → Resource → Db → AddonSlotMap → Bool
user_slot user ref_id resource db m =
    m.ref_id == ref_id && live_slot resource m && owner_is user db m.addon_subscription_id

abbrev pub delete_slot : AddonSlotMap → AddonSlotMap
delete_slot m = record m { deleted = true }

abbrev pub slot_at : ℕ → AddonSlotMap → Bool
slot_at id m = m.id == id

-- `softDeleteAddonSlotMap`
abbrev pub soft_delete_addon_slot_map : ℕ → Db → Db
soft_delete_addon_slot_map id db = record db {
  slot_maps = Table.update (slot_at id) delete_slot db.slot_maps;
}

abbrev pub give_one : SubscriptionQuota → SubscriptionQuota
give_one q = record q { used_quota = q.used_quota - 1 }

-- `if (quota && quota.used_quota > 0) decrementQuotaUsed(quota.id)`
unfoldable pub decrement_quota_used : Option SubscriptionQuota → Db → Db
decrement_quota_used none db = db
decrement_quota_used (some q) db =
    if ltb 0 q.used_quota
    then record db { quotas = Table.update (quota_at q.id) give_one db.quotas }
    else db

-- `quota_remaining` of a release: `back` is 1 if a slot was given back.
abbrev pub remaining_of : ℕ → Option SubscriptionQuota → Option ℤ
remaining_of back none = none
remaining_of back (some q) =
    some (if q.is_unlimited then minus_one else sub_ℕ (q.total_quota + back) q.used_quota)

abbrev give_back : Subscription → Resource → Option AddonSlotMap → Action Db (Option ℤ)
give_back s resource none db =
    (ok (remaining_of 0 (Table.find (quota_of s.id resource) db.quotas)), db)
give_back s resource (some m) db =
    let quota = Table.find (quota_of s.id resource) db.quotas in
    (ok (remaining_of 1 quota), decrement_quota_used quota (soft_delete_addon_slot_map m.id db))

abbrev release_for : ℕ → Resource → Option Subscription → Action Db (Option ℤ)
release_for ref_id resource none db = (ok (some (pos 0)), db)
release_for ref_id resource (some s) db =
    give_back s resource (Table.find (user_slot s.user_id ref_id resource db) db.slot_maps) db

-- The body of the transaction of `slotRelease`; the result is `quota_remaining`.
unfoldable pub release_body : String → Resource → ℕ → Action Db (Option ℤ)
unfolding decrement_quota_used
release_body token resource ref_id db =
    release_for ref_id resource (Table.find (by_token_any_status token) db.subscriptions) db

-- `slotRelease`
unfoldable pub slot_release : String → Resource → ℕ → Action Db (Option ℤ)
slot_release token resource ref_id = transaction (release_body token resource ref_id)

-- the slots of a resource under any of the user's subscriptions
abbrev pub owned_slot : ℕ → Resource → Db → AddonSlotMap → Bool
owned_slot user resource db m = live_slot resource m && owner_is user db m.addon_subscription_id

abbrev pub total_capacity : List Source → ℕ
total_capacity sources = sum_where (λ s. true) (λ (s : Source). s.capacity) sources

abbrev pub set_quota : ℕ → Bool → ℕ → SubscriptionQuota → SubscriptionQuota
set_quota total is_unlimited used q = record q {
  total_quota = total;
  is_unlimited = is_unlimited;
  used_quota = used;
}

-- The update of `reconcileQuota`, with the sources that it has read
abbrev pub recount : List Source → Subscription → Resource → Db → Db
recount sources s resource db =
    let is_unlimited = any (λ x. x.is_unlimited) sources in
    let total = if is_unlimited then 0 else total_capacity sources in
    let used = Table.count (owned_slot s.user_id resource db) db.slot_maps in
    record db {
      quotas = Table.update (quota_of s.id resource) (set_quota total is_unlimited used) db.quotas;
    }

-- `reconcileQuota` for the package `s`
unfoldable pub reconcile_quota : Subscription → Resource → Db → Db
reconcile_quota s resource db = recount (get_assignment_sources resource s db) s resource db
