-- ===== src/Webhook.antt =====
-- src/shared/constants/webhook.constants.ts and src/shared/types/webhook.types.ts: the events that are sent
-- to Domain 2, and their payloads. An optional field is an `Option`. A date (YYYY-MM-DD) is a day
-- number, and the timestamp of the envelope a time in milliseconds.
pub mod Formatters
pub mod Mapper
use subscription_be.Prelude.{ℕ, String, Option, List}
use subscription_be.Prelude.Int.{ℤ}

pub data WebhookEvent : Type 0 where
  subscription_created subscription_sync subscription_renewed : WebhookEvent
  subscription_upgraded subscription_downgraded : WebhookEvent
  subscription_expired subscription_cancelled : WebhookEvent
  addon_expired addon_renewed : WebhookEvent

pub data EnforcementType : Type 0 where
  deactivate_clinics suspend_users full_lockout : EnforcementType
  feature_removal feature_downgrade feature_upgrade : EnforcementType
  reactivate_clinics reactivate_users full_reactivation feature_restoration : EnforcementType

pub data EnforcementReason : Type 0 where
  addon_clinic_expired addon_user_expired addon_feature_expired : EnforcementReason
  subscription_expired subscription_cancelled tier_downgraded : EnforcementReason
  addon_clinic_renewed addon_user_renewed subscription_renewed tier_upgraded : EnforcementReason

pub data MessageId : Type 0 where
  addon_clinic_expired addon_user_expired addon_feature_expired : MessageId
  subscription_expired subscription_cancelled tier_downgraded : MessageId
  reactivated manual_deactivation : MessageId

pub record AddonInfo : Type 0 where
  pub quota_value : ℕ
  pub display_name : String
  pub status : String
  pub billing_end : Option ℕ

pub record SubscriptionUpdate : Type 0 where
  pub tier : Option String
  pub status : Option String
  pub max_clinics : Option ℤ
  pub max_users_per_clinic : Option ℤ
  pub features : Option (List String)
  pub addons : Option (List AddonInfo)
  pub billing_start : Option (Option ℕ)
  pub billing_end : Option (Option ℕ)
  pub trial_end : Option (Option ℕ)

pub record Enforcement : Type 0 where
  pub type : EnforcementType
  pub reason : EnforcementReason
  pub clinic_ids : Option (List ℕ)
  pub staff_ids : Option (List ℕ)
  pub doctor_ids : Option (List ℕ)
  pub removed_features : Option (List String)
  pub message_id : Option MessageId

pub record WebhookPayload : Type 0 where
  pub event : WebhookEvent
  pub timestamp : ℕ
  pub company_id : ℕ
  pub external_subscription_id : String
  pub context : Option String
  pub subscription_update : SubscriptionUpdate
  pub enforcement : Option Enforcement
