-- ===== src/Tests/Expiry.antt =====
-- The daily sweep and the slot details at concrete inputs.
use subscription_be.Prelude.{ℕ, ◌<◌, ◌≡◌, refl, true, false, [], ◌∷◌, arith, String}
use subscription_be.Db.Schema.{package_type, addon_type, AddonSlotMap, clinic}
use subscription_be.Db.{Db}
use subscription_be.Slots.{clinics, slots_of_source}
use subscription_be.Expiry.{expire_addon}
use subscription_be.Expiry.Revoke.{expire_addon_revokes}
use subscription_be.SlotDetails.{SlotSourceInput, drain_sources, absorbed}
use subscription_be.SlotDetails.Drain.{total_used, drain_sources_finite}
use subscription_be.Tests.{test_env, subscribed_db, basic_subscription}

abbrev show_key : ℕ → String
show_key n = "key"

abbrev held_slot : AddonSlotMap
held_slot = record {
  id = 1;
  addon_subscription_id = 5;
  ref_type = clinic;
  ref_id = 40;
  deleted = false;
}

-- One slot of the add-on, and one of the package
abbrev held_db : Db
held_db = record subscribed_db {
  slot_maps = record {
    rows = held_slot ∷ record held_slot { id = 2; addon_subscription_id = 1; ref_id = 41 } ∷ [];
    next_id = 3;
  };
}

held_before : slots_of_source clinics 5 held_db ≡ 1
held_before = refl

expire_addon_revokes_example :
    slots_of_source clinics 5
      (expire_addon test_env show_key 10 held_db (record basic_subscription { id = 5 }) held_db)
    ≡ 0
expire_addon_revokes_example =
    expire_addon_revokes test_env show_key 10 held_db (record basic_subscription { id = 5 }) held_db
      clinics 5

abbrev package_input : SlotSourceInput
package_input = record {
  subscription_id = 1;
  sku_type = package_type;
  capacity = 3;
  is_unlimited = false;
}

abbrev addon_input : SlotSourceInput
addon_input = record {
  subscription_id = 2;
  sku_type = addon_type;
  capacity = 2;
  is_unlimited = false;
}

abbrev endless_input : SlotSourceInput
endless_input = record package_input { is_unlimited = true }

overflow :
    absorbed package_input 4 < total_used (drain_sources (package_input ∷ addon_input ∷ []) 4)
unfolding drain_sources
overflow = ground arith

drain_sources_finite_example : total_used (drain_sources (package_input ∷ addon_input ∷ []) 7) ≡ 5
drain_sources_finite_example = drain_sources_finite (package_input ∷ addon_input ∷ []) 7 refl
