-- ===== src/Tests/Slots.antt =====
-- Slots at concrete inputs.
use subscription_be.Slots.{slots_of_source}
use subscription_be.Prelude.{
  ℕ, ◌+◌, ◌==◌, if◌then◌else◌, ◌≤◌, ◌≡◌, refl, true, false, [], ◌∷◌, arith, count_where,
}
use subscription_be.Db.{Db}
use subscription_be.Db.Action.{ok}
use subscription_be.Db.Schema.{SubscriptionQuota, clinic}
use subscription_be.Slots.{clinics, slot_assign, assign_body, attribute, get_assignment_sources}
use subscription_be.Slots.Outcome.{answer_of}
use subscription_be.Slots.Quota.{UniqueQuotas, quotas_over_limit, slot_assign_within}
use subscription_be.Slots.Attribution.{slot_assign_package_first}
use subscription_be.Slots.Release.{slot_release, user_slot, owner_is}
use subscription_be.Slots.Reconcile.{slot_release_undoes}
use subscription_be.Tests.{subscribed_db, basic_subscription}

abbrev clinic_quota : SubscriptionQuota
clinic_quota = record {
  id = 1;
  user_id = 7;
  package_subscription_id = 1;
  resource_type = "clinic";
  total_quota = 3;
  is_unlimited = false;
  used_quota = 0;
  deleted = false;
}

abbrev slots_db : Db
slots_db = record subscribed_db { quotas = record { rows = clinic_quota ∷ []; next_id = 2 } }

slots_db-UniqueQuotas : UniqueQuotas slots_db
slots_db-UniqueQuotas = λ id. ground arith

own_source : owner_is 7 slots_db (attribute clinics basic_subscription slots_db) ≡ true
unfolding attribute get_assignment_sources
own_source = refl

granted_one : (slot_assign "token-0" clinics clinic 40 slots_db).0 ≡ ok (answer_of clinic_quota 1 1)
unfolding slot_assign assign_body attribute get_assignment_sources
granted_one = refl

slot_assign_within_example :
    quotas_over_limit (slot_assign "token-0" clinics clinic 40 slots_db).1
    ≤ quotas_over_limit slots_db
slot_assign_within_example =
    slot_assign_within "token-0" clinics clinic 40 slots_db slots_db-UniqueQuotas

slot_assign_package_first_example :
    let db' = (slot_assign "token-0" clinics clinic 40 slots_db).1 in
    ((answer_of clinic_quota 1 1).attributed_subscription_id ≡ 1)
    × ((id : ℕ)
        → slots_of_source clinics id db'
          ≡ slots_of_source clinics id slots_db + (if id == 1 then 1 else 0))
slot_assign_package_first_example =
    slot_assign_package_first "token-0" clinics clinic 40 slots_db basic_subscription
      (answer_of clinic_quota 1 1) refl refl refl granted_one

slot_release_undoes_example :
    let assigned = (slot_assign "token-0" clinics clinic 40 slots_db).1 in
    let released = (slot_release "token-0" clinics 40 assigned).1 in
    (released.quotas.rows ≡ slots_db.quotas.rows)
    × (count_where (user_slot 7 40 clinics released) released.slot_maps.rows ≡ 0)
slot_release_undoes_example =
    slot_release_undoes "token-0" clinics clinic 40 slots_db basic_subscription clinic_quota refl
      refl refl refl refl own_source refl
