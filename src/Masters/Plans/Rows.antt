-- ===== src/Masters/Plans/Rows.antt =====
-- The rows of a plan, the bodies of the requests that edit it, and how the one becomes the other.
use subscription_be.Prelude.{ℕ, refl, String, Bool, true, false, Option, none, or_else}
use subscription_be.Prelude.Int.{ℤ}
use subscription_be.Db.Table
use subscription_be.Db.Schema.{SkuType, PackageTier, ResourceType}
use subscription_be.Masters.Parts.{Part}

-- `SkuBase`
pub record PlanRow : Type 0 where
  pub id : ℕ
  pub sku_name : String
  pub sku_code : String
  pub sku_type : SkuType
  pub package_tier : Option PackageTier
  pub rank : ℤ
  pub billing_duration_days : ℕ
  pub coin_cost : ℕ
  pub is_active : Bool
  pub deleted : Bool

pub record BenefitRow : Type 0 where
  pub id : ℕ
  pub sku_id : ℕ
  pub benefit_type : String
  pub benefit_value : Option String
  pub max_usage : Option ℕ
  pub is_unlimited : Bool
  pub deleted : Bool

pub record FeatureRow : Type 0 where
  pub id : ℕ
  pub sku_id : ℕ
  pub display_name : String
  pub feature : String
  pub is_active : Bool
  pub deleted : Bool

pub record AddonRow : Type 0 where
  pub id : ℕ
  pub sku_id : ℕ
  pub resource_type : ResourceType
  pub display_name : String
  pub quota_value : ℕ
  pub is_unlimited : Bool
  pub description : Option String
  pub deleted : Bool

-- What the body of a request gives: `planSchema`, `benefitSchema`, `featureSchema` and `addonSchema` of
-- src/shared/validations/plan.validation.ts, without the keys
pub record PlanForm : Type 0 where
  pub sku_name : String
  pub sku_code : String
  pub sku_type : SkuType
  pub package_tier : Option (Option PackageTier)
  pub rank : ℤ
  pub billing_duration_days : ℕ
  pub coin_cost : ℕ
  pub is_active : Bool

pub record BenefitForm : Type 0 where
  pub benefit_type : String
  pub benefit_value : Option (Option String)
  pub max_usage : Option (Option ℕ)
  pub is_unlimited : Bool

pub record FeatureForm : Type 0 where
  pub display_name : String
  pub feature : String
  pub is_active : Bool

pub record AddonForm : Type 0 where
  pub resource_type : ResourceType
  pub display_name : String
  pub quota_value : ℕ
  pub description : Option (Option String)

abbrev pub benefit_part : Part BenefitRow BenefitForm
benefit_part = record {
  key = λ b. b.id;
  sku = λ b. b.sku_id;
  write = λ plan f b. record b {
    sku_id = plan;
    benefit_type = f.benefit_type;
    benefit_value = or_else f.benefit_value b.benefit_value;
    max_usage = or_else f.max_usage b.max_usage;
    is_unlimited = f.is_unlimited;
  };
  make = λ plan f id. record {
    id = id;
    sku_id = plan;
    benefit_type = f.benefit_type;
    benefit_value = or_else f.benefit_value none;
    max_usage = or_else f.max_usage none;
    is_unlimited = f.is_unlimited;
    deleted = false;
  };
  discard = λ b. record b { deleted = true };
  key_write = λ plan f b. refl;
  key_make = λ plan f id. refl;
  key_discard = λ b. refl;
}

abbrev pub feature_part : Part FeatureRow FeatureForm
feature_part = record {
  key = λ x. x.id;
  sku = λ x. x.sku_id;
  write = λ plan f x. record x {
    sku_id = plan;
    display_name = f.display_name;
    feature = f.feature;
    is_active = f.is_active;
  };
  make = λ plan f id. record {
    id = id;
    sku_id = plan;
    display_name = f.display_name;
    feature = f.feature;
    is_active = f.is_active;
    deleted = false;
  };
  discard = λ x. record x { is_active = false; deleted = true };
  key_write = λ plan f x. refl;
  key_make = λ plan f id. refl;
  key_discard = λ x. refl;
}

abbrev pub addon_part : Part AddonRow AddonForm
addon_part = record {
  key = λ a. a.id;
  sku = λ a. a.sku_id;
  write = λ plan f a. record a {
    sku_id = plan;
    resource_type = f.resource_type;
    display_name = f.display_name;
    quota_value = f.quota_value;
    description = or_else f.description a.description;
  };
  make = λ plan f id. record {
    id = id;
    sku_id = plan;
    resource_type = f.resource_type;
    display_name = f.display_name;
    quota_value = f.quota_value;
    is_unlimited = false;
    description = or_else f.description none;
    deleted = false;
  };
  discard = λ a. record a { deleted = true };
  key_write = λ plan f a. refl;
  key_make = λ plan f id. refl;
  key_discard = λ a. refl;
}

pub record PlanStore : Type 0 where
  pub plans : Table.Table PlanRow
  pub benefits : Table.Table BenefitRow
  pub features : Table.Table FeatureRow
  pub addons : Table.Table AddonRow
