-- ===== src/Expiry/Notices.antt =====
-- The events of src/cron/services/daily-expiry.service.ts that tell Domain 2 whose slots an expired
-- add-on takes along.
use subscription_be.Prelude.{
  ℕ, String, Bool, true, false, ◌&&◌, none, some, List, [], ◌∷◌, if◌then◌else◌, map, find_many,
}
use subscription_be.Db.{Db}
use subscription_be.Db.Schema.{AddonSlotMap, RefType, clinic, staff, doctor}
use subscription_be.Outbox.{Env, DedupeKey, insert_event}
use subscription_be.Webhook.{WebhookEvent, WebhookPayload, SubscriptionUpdate, EnforcementType}
use subscription_be.Webhook.Formatters.{format_addon_expired, AddonExpiryReason}

abbrev is_clinic : RefType → Bool
is_clinic clinic = true
is_clinic _ = false

abbrev is_staff : RefType → Bool
is_staff staff = true
is_staff _ = false

abbrev is_doctor : RefType → Bool
is_doctor doctor = true
is_doctor _ = false

abbrev ref_ids : (RefType → Bool) → List AddonSlotMap → List ℕ
ref_ids type slots = map (λ (m : AddonSlotMap). m.ref_id) (find_many (λ m. type m.ref_type) slots)

-- `{ addons: {} }`
abbrev no_addons : SubscriptionUpdate
no_addons = record {
  tier = none;
  status = none;
  max_clinics = none;
  max_users_per_clinic = none;
  features = none;
  addons = some [];
  billing_start = none;
  billing_end = none;
  trial_end = none;
}

abbrev pub is_empty : List ℕ → Bool
is_empty [] = true
is_empty (x ∷ xs) = false

abbrev pub clinic_slots : List AddonSlotMap → List ℕ
clinic_slots slots = ref_ids is_clinic slots

abbrev pub no_user_slots : List AddonSlotMap → Bool
no_user_slots slots = is_empty (ref_ids is_staff slots) && is_empty (ref_ids is_doctor slots)

-- The payload that deactivates clinics
abbrev pub clinics_expired : Env → ℕ → String → List AddonSlotMap → WebhookPayload
clinics_expired env company external slots = format_addon_expired env.now company external (record {
  subscription_update = no_addons;
  enforcement_type = EnforcementType.deactivate_clinics;
  reason = AddonExpiryReason.addon_clinic_expired;
  clinic_ids = some (clinic_slots slots);
  staff_ids = none;
  doctor_ids = none;
  removed_features = none;
})

-- The payload that suspends staff and doctors
abbrev pub users_expired : Env → ℕ → String → List AddonSlotMap → WebhookPayload
users_expired env company external slots = format_addon_expired env.now company external (record {
  subscription_update = no_addons;
  enforcement_type = EnforcementType.suspend_users;
  reason = AddonExpiryReason.addon_user_expired;
  clinic_ids = none;
  staff_ids = some (ref_ids is_staff slots);
  doctor_ids = some (ref_ids is_doctor slots);
  removed_features = none;
})

abbrev pub expiry_key : String → ℕ → ℕ → DedupeKey
expiry_key label id day = record { label = label; id = id; day = some day }

-- The event that deactivates an add-on's clinics, if it has any
unfoldable pub tell_clinics : Env → ℕ → ℕ → String → ℕ → List AddonSlotMap → Db → Db
tell_clinics env day company external addon slots db =
    let sent =
      insert_event env WebhookEvent.addon_expired company
        (clinics_expired env company external slots) (expiry_key "addon.expired:clinic" addon day)
        db in
    if is_empty (clinic_slots slots) then db else sent.1

-- The event that suspends an add-on's staff and doctors, if it has any
unfoldable pub tell_users : Env → ℕ → ℕ → String → ℕ → List AddonSlotMap → Db → Db
tell_users env day company external addon slots db =
    let sent =
      insert_event env WebhookEvent.addon_expired company (users_expired env company external slots)
        (expiry_key "addon.expired:user" addon day) db in
    if no_user_slots slots then db else sent.1
