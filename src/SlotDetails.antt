-- ===== src/SlotDetails.antt =====
-- src/client/utils/slot-details.util.ts: which source of slots the slots in use are shown under. The
-- add-on's plan and its names, which are only copied, are left out of a source.
pub mod Drain
use subscription_be.Prelude.{
  ℕ, ◌+◌, ◌-◌, String, Bool, true, false, not, Option, none, some, List, [], ◌∷◌, ltb, str_eq,
  or_else, any, find_first, find_many, sum_where, if◌then◌else◌, min,
}
use subscription_be.Prelude.Int.{ℤ, pos, sub_ℕ, minus_one}
use subscription_be.Db.Schema.{SkuType, package_type, addon_type, SkuBenefit, SkuAddon}
use subscription_be.Subscription.Rows.{quota_type_of}

pub record SlotSourceInput : Type 0 where
  pub subscription_id : ℕ
  pub sku_type : SkuType
  pub capacity : ℕ
  pub is_unlimited : Bool

pub record SlotSource : Type 0 where
  pub subscription_id : ℕ
  pub sku_type : SkuType
  pub is_unlimited : Bool
  pub capacity : ℤ
  pub used : ℕ
  pub remaining : ℤ

-- What a source takes of the slots that are left to attribute
abbrev pub absorbed : SlotSourceInput → ℕ → ℕ
absorbed s left = if s.is_unlimited then left else min s.capacity left

abbrev pub drained_source : SlotSourceInput → ℕ → SlotSource
drained_source s left = record {
  subscription_id = s.subscription_id;
  sku_type = s.sku_type;
  is_unlimited = s.is_unlimited;
  capacity = if s.is_unlimited then minus_one else pos s.capacity;
  used = absorbed s left;
  remaining = if s.is_unlimited then minus_one else pos (s.capacity - absorbed s left);
}

-- `drainSources`; capacities and `used` come from the database, where they are natural numbers
unfoldable pub drain_sources : List SlotSourceInput → ℕ → List SlotSource
drain_sources [] used = []
drain_sources (s ∷ ss) used = drained_source s used ∷ drain_sources ss (used - absorbed s used)

pub record SlotResourceDetail : Type 0 where
  pub resource_type : String
  pub is_unlimited : Bool
  pub total_capacity : ℤ
  pub total_used : ℕ
  pub total_remaining : ℤ
  pub sources : List SlotSource

-- the finite capacities; `pos_part` never meets the sentinel here
abbrev pub finite_capacity : List SlotSourceInput → ℕ
finite_capacity sources =
    sum_where (λ s. not s.is_unlimited) (λ (s : SlotSourceInput). s.capacity) sources

-- `buildSlotResourceDetail`
unfoldable pub build_slot_resource_detail : String → List SlotSourceInput → ℕ → SlotResourceDetail
unfolding drain_sources
build_slot_resource_detail type sources used =
    let is_unlimited = any (λ s. s.is_unlimited) (drain_sources sources used) in
    record {
      resource_type = type;
      is_unlimited = is_unlimited;
      total_capacity = if is_unlimited then minus_one else pos (finite_capacity sources);
      total_used = used;
      total_remaining = if is_unlimited then minus_one else sub_ℕ (finite_capacity sources) used;
      sources = drain_sources sources used;
    }

-- `PackageSlotInput`
pub record PackageSlotInput : Type 0 where
  pub subscription_id : ℕ
  pub benefits : List SkuBenefit

-- `AddonSlotInput`, whose add-ons carry no unlimited flag
pub record AddonSlotInput : Type 0 where
  pub subscription_id : ℕ
  pub addons : List SkuAddon

abbrev benefit_input : ℕ → Option SkuBenefit → SlotSourceInput
benefit_input id none = record {
  subscription_id = id;
  sku_type = package_type;
  capacity = 0;
  is_unlimited = false;
}
benefit_input id (some b) = record {
  subscription_id = id;
  sku_type = package_type;
  capacity = or_else b.max_usage 0;
  is_unlimited = b.is_unlimited;
}

abbrev package_inputs :
    String → Option PackageSlotInput → List SlotSourceInput → List SlotSourceInput
package_inputs type none rest = rest
package_inputs type (some p) rest =
    benefit_input p.subscription_id (find_first (λ b. str_eq b.benefit_type type) p.benefits) ∷ rest

abbrev pub addon_capacity : String → AddonSlotInput → ℕ
addon_capacity type a =
    sum_where (λ x. str_eq (quota_type_of x.resource_type) type) (λ (x : SkuAddon). x.quota_value)
      a.addons

abbrev addon_inputs : String → List AddonSlotInput → List SlotSourceInput
addon_inputs type [] = []
addon_inputs type (a ∷ as_) =
    let rest = addon_inputs type as_ in
    let capacity = addon_capacity type a in
    if ltb 0 capacity
    then record {
      subscription_id = a.subscription_id;
      sku_type = addon_type;
      capacity = capacity;
      is_unlimited = false;
    }
      ∷ rest
    else rest

-- `buildSlotDetails`; `used` is `usedByResource[type] ?? 0`
unfoldable pub build_slot_details :
    (String → ℕ)
    → Option PackageSlotInput
    → List AddonSlotInput
    → List String
    → List SlotResourceDetail
unfolding build_slot_resource_detail
build_slot_details used pkg addons [] = []
build_slot_details used pkg addons (type ∷ types) =
    build_slot_resource_detail type (package_inputs type pkg (addon_inputs type addons)) (used type)
    ∷ build_slot_details used pkg addons types
