-- ===== src/Expiry/Revoke.antt =====
-- What the expiry of an add-on takes away.
use mathlib.Core.Path.{subst⁻¹}
use subscription_be.Prelude.{
  if◌then◌else◌, update_many, ℕ, ◌≡◌, refl, String, Option, none, some, List, [], ◌∷◌, ◌==◌, arith,
  count_where, map, inl, inr, Bool-cases,
}
use subscription_be.Db.{Db}
use subscription_be.Db.Table
use subscription_be.Db.Schema.{Subscription, AddonSlotMap}
use subscription_be.Outbox.{Env}
use subscription_be.Outbox.Frame.{insert_event-frame}
use subscription_be.Slots.{Resource, slots_of_source, slot_of, addons_of}
use subscription_be.Slots.Release.{reconcile_quota, delete_slot}
use subscription_be.Webhook.{WebhookEvent}
use subscription_be.Subscription.Switch.{sku_of}
use subscription_be.Expiry.{
  revoke_addon, expire_addon, reconcile_all, for_each, delete_slots_of, slots_under, expire,
  package_for, distinct, resource_of, external_of, slots_of,
}
use subscription_be.Expiry.Notices.{
  tell_clinics, tell_users, is_empty, clinic_slots, no_user_slots, clinics_expired, users_expired,
  expiry_key,
}

-- Recounting leaves the slots alone.
slot_maps-for_each :
    (p : Subscription) (rs : List Resource) (db : Db)
    → (for_each (reconcile_quota p) rs db).slot_maps ≡ db.slot_maps
unfolding reconcile_quota
slot_maps-for_each p [] db = refl
slot_maps-for_each p (r ∷ rs) db = slot_maps-for_each p rs (reconcile_quota p r db)

slot_maps-reconcile_all :
    (o : Option Subscription) (rs : List Resource) (db : Db)
    → (reconcile_all o rs db).slot_maps ≡ db.slot_maps
slot_maps-reconcile_all none rs db = refl
slot_maps-reconcile_all (some p) rs db = slot_maps-for_each p rs db

-- The events leave the slots alone.
slot_maps-tell_clinics :
    (env : Env) (day company : ℕ) (external : String) (addon : ℕ) (slots : List AddonSlotMap)
    (db : Db)
    → (tell_clinics env day company external addon slots db).slot_maps ≡ db.slot_maps
unfolding tell_clinics
slot_maps-tell_clinics env day company external addon slots db =
    elim (Bool-cases (is_empty (clinic_slots slots))) [
      | inl y ↦ rw y refl
      | inr n ↦ rw n (
          insert_event-frame (λ d. d.slot_maps ≡ db.slot_maps) env WebhookEvent.addon_expired
            company (clinics_expired env company external slots)
            (expiry_key "addon.expired:clinic" addon day) db (λ o. refl))
    ]

slot_maps-tell_users :
    (env : Env) (day company : ℕ) (external : String) (addon : ℕ) (slots : List AddonSlotMap)
    (db : Db)
    → (tell_users env day company external addon slots db).slot_maps ≡ db.slot_maps
unfolding tell_users
slot_maps-tell_users env day company external addon slots db =
    elim (Bool-cases (no_user_slots slots)) [
      | inl y ↦ rw y refl
      | inr n ↦ rw n (
          insert_event-frame (λ d. d.slot_maps ≡ db.slot_maps) env WebhookEvent.addon_expired
            company (users_expired env company external slots)
            (expiry_key "addon.expired:user" addon day) db (λ o. refl))
    ]

slot_maps-revoke_addon :
    (env : Env) (s : Subscription) (db : Db)
    → (revoke_addon env s db).slot_maps ≡ (delete_slots_of s db).slot_maps
unfolding revoke_addon
slot_maps-revoke_addon env s db =
    slot_maps-reconcile_all (package_for s db)
      (distinct (map resource_of (addons_of (sku_of s db)))) (delete_slots_of s (expire env s db))

slot_maps-expire_addon :
    (env : Env) (show : ℕ → String) (day : ℕ) (read : Db) (s : Subscription) (db : Db)
    → (expire_addon env show day read s db).slot_maps ≡ (delete_slots_of s db).slot_maps
unfolding expire_addon
slot_maps-expire_addon env show day read s db =
    let external = external_of show (package_for s db) s in
    let slots = slots_of s read in
    let revoked = revoke_addon env s db in
    cc (
      slot_maps-tell_users env day s.user_id external s.id slots
          (tell_clinics env day s.user_id external s.id slots revoked),
      slot_maps-tell_clinics env day s.user_id external s.id slots revoked,
      slot_maps-revoke_addon env s db,
    )

deleted_slots :
    (resource : Resource) (id gone : ℕ) (xs : List AddonSlotMap)
    → count_where (slot_of resource id) (update_many (slots_under gone) delete_slot xs)
      ≡ (if id == gone then 0 else count_where (slot_of resource id) xs)
deleted_slots resource id gone [] = ground arith
deleted_slots resource id gone (x ∷ xs) = ground (arith, deleted_slots resource id gone xs)

-- The expiry of an add-on releases every slot that is attributed to it, and no slot of another
-- source: the slots of the package and of the other add-ons stay.
pub expire_addon_revokes :
    (env : Env) (show : ℕ → String) (day : ℕ) (read : Db) (s : Subscription) (db : Db)
    (resource : Resource) (id : ℕ)
    → slots_of_source resource id (expire_addon env show day read s db)
      ≡ (if id == s.id then 0 else slots_of_source resource id db)
expire_addon_revokes env show day read s db resource id =
    subst⁻¹
      (λ (t : Table.Table AddonSlotMap).
        count_where (slot_of resource id) t.rows
        ≡ (if id == s.id then 0 else slots_of_source resource id db))
      (slot_maps-expire_addon env show day read s db)
      (deleted_slots resource id s.id db.slot_maps.rows)
