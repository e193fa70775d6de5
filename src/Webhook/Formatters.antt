-- ===== src/Webhook/Formatters.antt =====
-- src/shared/utils/webhook-event-formatters.util.ts: one function for each event. `timestamp` is the
-- clock's reading (`new Date()`).
use subscription_be.Prelude.{ℕ, String, Bool, Option, none, some, List, [], if◌then◌else◌, or_else}
use subscription_be.Prelude.Int.{pos}
use subscription_be.Webhook.{
  WebhookEvent, EnforcementType, EnforcementReason, MessageId, SubscriptionUpdate, Enforcement,
  WebhookPayload,
}

build_payload :
    WebhookEvent
    → ℕ
    → ℕ
    → String
    → SubscriptionUpdate
    → Option Enforcement
    → Option String
    → WebhookPayload
build_payload event timestamp company external update enforcement context = record {
  event = event;
  timestamp = timestamp;
  company_id = company;
  external_subscription_id = external;
  context = context;
  subscription_update = update;
  enforcement = enforcement;
}

-- An enforcement with no ids and no features.
abbrev enforce : EnforcementType → EnforcementReason → MessageId → Enforcement
enforce type reason message = record {
  type = type;
  reason = reason;
  clinic_ids = none;
  staff_ids = none;
  doctor_ids = none;
  removed_features = none;
  message_id = some message;
}

unfoldable pub format_subscription_created : ℕ → ℕ → String → SubscriptionUpdate → WebhookPayload
unfolding build_payload
format_subscription_created now company external update =
    build_payload WebhookEvent.subscription_created now company external update none none

unfoldable pub format_subscription_sync : ℕ → ℕ → String → SubscriptionUpdate → WebhookPayload
unfolding build_payload
format_subscription_sync now company external update =
    build_payload WebhookEvent.subscription_sync now company external update none none

unfoldable pub format_subscription_renewed :
    ℕ → ℕ → String → SubscriptionUpdate → Bool → WebhookPayload
unfolding build_payload
format_subscription_renewed now company external update was_expired =
    build_payload WebhookEvent.subscription_renewed now company external update
      (if was_expired
        then some (
            enforce EnforcementType.full_reactivation EnforcementReason.subscription_renewed
              MessageId.reactivated)
        else none)
      none

unfoldable pub format_subscription_upgraded : ℕ → ℕ → String → SubscriptionUpdate → WebhookPayload
unfolding build_payload
format_subscription_upgraded now company external update =
    build_payload WebhookEvent.subscription_upgraded now company external update
      (some (
        enforce EnforcementType.feature_upgrade EnforcementReason.tier_upgraded
          MessageId.reactivated))
      none

abbrev downgrade_enforcement : List String → Enforcement
downgrade_enforcement removed = record {
  type = EnforcementType.feature_downgrade;
  reason = EnforcementReason.tier_downgraded;
  clinic_ids = none;
  staff_ids = none;
  doctor_ids = none;
  removed_features = some removed;
  message_id = some MessageId.tier_downgraded;
}

unfoldable pub format_subscription_downgraded :
    ℕ → ℕ → String → SubscriptionUpdate → List String → WebhookPayload
unfolding build_payload
format_subscription_downgraded now company external update removed =
    build_payload WebhookEvent.subscription_downgraded now company external update
      (some (downgrade_enforcement removed)) none

-- The update that takes everything away: `{ status, max_clinics: 0, …, addons: {} }`.
abbrev nothing_left : String → SubscriptionUpdate
nothing_left status = record {
  tier = none;
  status = some status;
  max_clinics = some (pos 0);
  max_users_per_clinic = some (pos 0);
  features = some [];
  addons = some [];
  billing_start = none;
  billing_end = none;
  trial_end = none;
}

unfoldable pub format_subscription_expired : ℕ → ℕ → String → Bool → WebhookPayload
unfolding build_payload
format_subscription_expired now company external is_trial_expiry =
    build_payload WebhookEvent.subscription_expired now company external (nothing_left "expired")
      (some (
        enforce EnforcementType.full_lockout EnforcementReason.subscription_expired
          MessageId.subscription_expired))
      (if is_trial_expiry then some "trial_ended" else none)

unfoldable pub format_subscription_cancelled : ℕ → ℕ → String → WebhookPayload
unfolding build_payload
format_subscription_cancelled now company external =
    build_payload WebhookEvent.subscription_cancelled now company external
      (nothing_left "cancelled")
      (some (
        enforce EnforcementType.full_lockout EnforcementReason.subscription_cancelled
          MessageId.subscription_cancelled))
      none

-- `reason` of `formatAddonExpired`; the message is the same word.
pub data AddonExpiryReason : Type 0 where
  addon_clinic_expired addon_user_expired addon_feature_expired : AddonExpiryReason

abbrev expiry_reason : AddonExpiryReason → EnforcementReason
expiry_reason AddonExpiryReason.addon_clinic_expired = EnforcementReason.addon_clinic_expired
expiry_reason AddonExpiryReason.addon_user_expired = EnforcementReason.addon_user_expired
expiry_reason AddonExpiryReason.addon_feature_expired = EnforcementReason.addon_feature_expired

abbrev expiry_message : AddonExpiryReason → MessageId
expiry_message AddonExpiryReason.addon_clinic_expired = MessageId.addon_clinic_expired
expiry_message AddonExpiryReason.addon_user_expired = MessageId.addon_user_expired
expiry_message AddonExpiryReason.addon_feature_expired = MessageId.addon_feature_expired

-- The object that `formatAddonExpired` takes, without the company and the subscription.
pub record AddonExpiry : Type 0 where
  pub subscription_update : SubscriptionUpdate
  pub enforcement_type : EnforcementType
  pub reason : AddonExpiryReason
  pub clinic_ids : Option (List ℕ)
  pub staff_ids : Option (List ℕ)
  pub doctor_ids : Option (List ℕ)
  pub removed_features : Option (List String)

unfoldable pub format_addon_expired : ℕ → ℕ → String → AddonExpiry → WebhookPayload
unfolding build_payload
format_addon_expired now company external params =
    build_payload WebhookEvent.addon_expired now company external params.subscription_update
      (some (record {
        type = params.enforcement_type;
        reason = expiry_reason params.reason;
        clinic_ids = some (or_else params.clinic_ids []);
        staff_ids = some (or_else params.staff_ids []);
        doctor_ids = some (or_else params.doctor_ids []);
        removed_features = some (or_else params.removed_features []);
        message_id = some (expiry_message params.reason);
      }))
      none
