-- ===== src/Expiry.antt =====
-- src/cron/services/daily-expiry.service.ts: the daily sweep over subscriptions that ended. Its mails,
-- which are output only, are left out.
pub mod Notices
pub mod Revoke
pub mod Grace
use subscription_be.Prelude.{
  ℕ, ◌-◌, String, Bool, true, false, not, ◌&&◌, ◌||◌, Option, none, some, List, [], ◌∷◌, ◌==◌, ltb,
  if◌then◌else◌, any, map, find_first, find_many, is_some, length,
}
use subscription_be.Db.{Db}
use subscription_be.Db.Table
use subscription_be.Db.Schema.{
  Subscription, SubscriptionStatus, active, on_hold, expired, AddonSlotMap, RefType, clinic, staff,
  doctor, SkuAddon, ResourceType, clinic_addon, user_addon, Sku,
}
use subscription_be.Outbox.{Env, DedupeKey, insert_event}
use subscription_be.Webhook.{WebhookEvent, WebhookPayload, SubscriptionUpdate, EnforcementType}
use subscription_be.Webhook.Formatters.{
  format_subscription_expired, format_addon_expired, AddonExpiry, AddonExpiryReason,
}
use Notices.{tell_clinics, tell_users}
use subscription_be.Subscription.Rows.{is_package, is_active_status}
use subscription_be.Subscription.Cancel.{with_id, external_id}
use subscription_be.Subscription.Switch.{sku_of}
use subscription_be.Slots.{Resource, clinics, users, addons_of, all_addons_of}
use subscription_be.Slots.Release.{reconcile_quota, delete_slot}

abbrev is_on_hold : SubscriptionStatus → Bool
is_on_hold on_hold = true
is_on_hold _ = false

-- `for (const x of xs)` over writes
abbrev pub for_each : {A : Type 0} → (A → Db → Db) → List A → Db → Db
for_each f [] db = db
for_each f (x ∷ xs) db = for_each f xs (f x db)

abbrev pub hold_row : Subscription → Subscription
hold_row s = record s { status = on_hold }

-- `status: 'ACTIVE', current_billing_end: day, deleted_at: null`
abbrev pub just_expired : ℕ → Subscription → Bool
just_expired day s = s.billing_end == day && is_active_status s.status && not s.deleted

abbrev pub hold : Subscription → Db → Db
hold s db = record db { subscriptions = Table.update (with_id s.id) hold_row db.subscriptions }

-- `processGracePeriodStarts`; `today` is a day number
unfoldable pub process_grace_period_starts : ℕ → Db → Db
process_grace_period_starts today db =
    for_each hold (Table.select (just_expired (today - 1)) db.subscriptions) db

abbrev pub expire_row : ℕ → Subscription → Subscription
expire_row now s = record s { status = expired; expired_at = some now }

abbrev pub expire : Env → Subscription → Db → Db
expire env s db = record db {
  subscriptions = Table.update (with_id s.id) (expire_row env.now) db.subscriptions;
}

abbrev pub slots_under : ℕ → AddonSlotMap → Bool
slots_under id m = m.addon_subscription_id == id && not m.deleted

-- `addon_slot_maps`, and the ids of one type among them
abbrev pub slots_of : Subscription → Db → List AddonSlotMap
slots_of s db = Table.select (slots_under s.id) db.slot_maps

abbrev tell_of : ResourceType → Env → ℕ → ℕ → String → ℕ → List AddonSlotMap → Db → Db
tell_of clinic_addon = tell_clinics
tell_of user_addon = tell_users

abbrev pub held_addon : ℕ → Subscription → Bool
held_addon user s =
    s.user_id == user && not s.deleted && not (is_package s.sku_type) && is_on_hold s.status

-- One held add-on of an expired package: it expires, and its users are told.
abbrev expire_child : Env → ℕ → Subscription → String → Db → Subscription → Db → Db
expire_child env day parent external read s db =
    for_each
      (λ (a : SkuAddon).
        tell_of a.resource_type env day parent.user_id external s.id (slots_of s read))
      (all_addons_of (sku_of s read)) (expire env s db)

abbrev is_trial_sku : Env → Option Sku → Bool
is_trial_sku env none = false
is_trial_sku env (some k) = env.is_trial k.sku_code

-- One package whose grace period is over. `show` prints a key.
unfoldable pub enforce_package : Env → (ℕ → String) → ℕ → Subscription → Db → Db
unfolding insert_event tell_clinics tell_users
enforce_package env show day s db =
    let payload =
      format_subscription_expired env.now s.user_id (external_id show s)
        (is_trial_sku env (sku_of s db)) in
    let key : DedupeKey = record { label = "subscription.expired"; id = s.id; day = some day } in
    let told =
      (insert_event env WebhookEvent.subscription_expired s.user_id payload key
        (expire env s db)).1 in
    for_each (expire_child env day s (external_id show s) told)
      (Table.select (held_addon s.user_id) told.subscriptions) told

abbrev pub grace_over : ℕ → Subscription → Bool
grace_over day s = s.billing_end == day && is_on_hold s.status && not s.deleted

-- `processGracePeriodEnforcements`
unfoldable pub process_grace_period_enforcements : Env → (ℕ → String) → ℕ → Db → Db
unfolding enforce_package
process_grace_period_enforcements env show today db =
    for_each (enforce_package env show (today - 7))
      (Table.select (λ s. grace_over (today - 7) s && is_package s.sku_type) db.subscriptions) db

abbrev newer : Subscription → Option Subscription → Option Subscription
newer s none = some s
newer s (some x) = if ltb s.created_at x.created_at then some x else some s

-- `orderBy: { created_at: 'desc' }` with `findFirst`
abbrev newest : List Subscription → Option Subscription
newest [] = none
newest (s ∷ ss) = newer s (newest ss)

abbrev package_row_of : ℕ → Subscription → Bool
package_row_of user s = s.user_id == user && is_package s.sku_type && not s.deleted

abbrev pub package_for : Subscription → Db → Option Subscription
package_for s db = newest (Table.select (package_row_of s.user_id) db.subscriptions)

abbrev pub external_of : (ℕ → String) → Option Subscription → Subscription → String
external_of show none s = external_id show s
external_of show (some p) s = elim p.purchase_token [ none ↦ external_id show s | some t ↦ t ]

abbrev pub resource_of : SkuAddon → Resource
resource_of a = elim a.resource_type [ clinic_addon ↦ clinics | user_addon ↦ users ]

abbrev same_resource : Resource → Resource → Bool
same_resource clinics clinics = true
same_resource users users = true
same_resource _ _ = false

-- `new Set(…)`: each resource once, in the order of first appearance
abbrev without : Resource → List Resource → List Resource
without r xs = find_many (λ x. not (same_resource r x)) xs

abbrev pub distinct : List Resource → List Resource
distinct [] = []
distinct (r ∷ rs) = r ∷ without r (distinct rs)

abbrev pub reconcile_all : Option Subscription → List Resource → Db → Db
reconcile_all none resources db = db
reconcile_all (some p) resources db = for_each (reconcile_quota p) resources db

abbrev pub delete_slots_of : Subscription → Db → Db
delete_slots_of s db = record db {
  slot_maps = Table.update (slots_under s.id) delete_slot db.slot_maps;
}

-- "Commit the expiry, slot release, and quota reconcile atomically"
unfoldable pub revoke_addon : Env → Subscription → Db → Db
unfolding reconcile_quota
revoke_addon env s db =
    reconcile_all (package_for s db) (distinct (map resource_of (addons_of (sku_of s db))))
      (delete_slots_of s (expire env s db))

-- One add-on whose own grace period is over. `read` is the database when the sweep listed it.
unfoldable pub expire_addon : Env → (ℕ → String) → ℕ → Db → Subscription → Db → Db
unfolding revoke_addon tell_clinics tell_users
expire_addon env show day read s db =
    let external = external_of show (package_for s db) s in
    let slots = slots_of s read in
    tell_users env day s.user_id external s.id slots
      (tell_clinics env day s.user_id external s.id slots (revoke_addon env s db))

-- `processAddonExpiries`
unfoldable pub process_addon_expiries : Env → (ℕ → String) → ℕ → Db → Db
unfolding expire_addon
process_addon_expiries env show today db =
    for_each (expire_addon env show (today - 7) db)
      (Table.select (λ s. grace_over (today - 7) s && not (is_package s.sku_type)) db.subscriptions)
      db

-- `runDailyExpirySweep`
unfoldable pub run_daily_expiry_sweep : Env → (ℕ → String) → ℕ → Db → Db
unfolding process_grace_period_starts process_grace_period_enforcements process_addon_expiries
run_daily_expiry_sweep env show today db =
    process_addon_expiries env show today
      (process_grace_period_enforcements env show today (process_grace_period_starts today db))
