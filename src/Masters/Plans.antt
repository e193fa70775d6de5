-- ===== src/Masters/Plans.antt =====
-- src/subscription/controllers/plan.controller.ts with the services and repositories of plans, benefits,
-- features and add-ons: the plan editor of the administrators. The columns of the audit are left out, and
-- a field that an update leaves out is kept. Request validation lets only the two kinds of add-on pass.
mod Rows
pub use Rows.*
use subscription_be.Prelude.{
  ℕ, zero, suc, refl, String, Bool, true, false, not, ◌&&◌, Option, none, some, List, ◌==◌, str_eq,
  or_else, is_some, if◌then◌else◌,
}
use subscription_be.Prelude.Int.{ℤ}
use subscription_be.Db.Table
use subscription_be.Db.Action.{
  Action, ok, err, ◌>>=◌, ◌>>◌, return, throw_if, or_throw, reads, writes, transaction,
  plan_not_found, duplicate_sku,
}
use subscription_be.Db.Schema.{SkuType, PackageTier, ResourceType}
use subscription_be.Masters.Parts.{Part, upsert_parts, remove_parts}

-- An action on one table of the store
abbrev pub on_benefits : Action (Table.Table BenefitRow) (Unit {0}) → Action PlanStore (Unit {0})
on_benefits m s = let (r, t) = m s.benefits in (r, record s { benefits = t })

abbrev pub on_features : Action (Table.Table FeatureRow) (Unit {0}) → Action PlanStore (Unit {0})
on_features m s = let (r, t) = m s.features in (r, record s { features = t })

abbrev pub on_addons : Action (Table.Table AddonRow) (Unit {0}) → Action PlanStore (Unit {0})
on_addons m s = let (r, t) = m s.addons in (r, record s { addons = t })

-- `getPlanById`
unfoldable pub get_plan_by_id : ℕ → Action PlanStore PlanRow
get_plan_by_id id = do
  found ← reads (λ s. Table.find (λ p. p.id == id && not p.deleted) s.plans)
  or_throw found plan_not_found 404

abbrev pub plan_row : PlanForm → ℕ → PlanRow
plan_row f id = record {
  id = id;
  sku_name = f.sku_name;
  sku_code = f.sku_code;
  sku_type = f.sku_type;
  package_tier = or_else f.package_tier none;
  rank = f.rank;
  billing_duration_days = f.billing_duration_days;
  coin_cost = f.coin_cost;
  is_active = f.is_active;
  deleted = false;
}

abbrev pub rewrite_plan : PlanForm → PlanRow → PlanRow
rewrite_plan f p = record p {
  sku_name = f.sku_name;
  sku_code = f.sku_code;
  sku_type = f.sku_type;
  package_tier = or_else f.package_tier p.package_tier;
  rank = f.rank;
  billing_duration_days = f.billing_duration_days;
  coin_cost = f.coin_cost;
  is_active = f.is_active;
}

abbrev pub coded : String → PlanRow → Bool
coded code p = str_eq p.sku_code code

-- `create` of `upsertPlan`; the column `sku_code` is unique
unfoldable pub create_plan : PlanForm → Action PlanStore ℕ
create_plan f s =
    if is_some (Table.find (coded f.sku_code) s.plans)
    then (err duplicate_sku 409, s)
    else (ok s.plans.next_id, record s { plans = Table.create (plan_row f) s.plans })

-- `update` of `upsertPlan`, after the check that the plan exists
unfoldable pub update_plan : ℕ → PlanForm → Action PlanStore ℕ
unfolding get_plan_by_id
update_plan id f = do
  plan ← get_plan_by_id id
  taken ← reads (λ s. is_some (Table.find (λ p. coded f.sku_code p && not (p.id == id)) s.plans))
  throw_if taken duplicate_sku 409
  writes (λ s. record s { plans = Table.update (λ p. p.id == id) (rewrite_plan f) s.plans })
  return id

-- `upsertPlanBase`: an `id` of 0, too, means a new plan
unfoldable pub upsert_plan_base : Option ℕ → PlanForm → Action PlanStore ℕ
unfolding create_plan update_plan
upsert_plan_base none f = create_plan f
upsert_plan_base (some zero) f = create_plan f
upsert_plan_base (some (suc n)) f = update_plan (suc n) f

pub record Removed : Type 0 where
  pub benefits : List ℕ
  pub features : List ℕ
  pub addons : List ℕ

pub record PlanBody : Type 0 where
  pub id : Option ℕ
  pub form : PlanForm
  pub removed : Option Removed
  pub benefits : List (Option ℕ × BenefitForm)
  pub features : List (Option ℕ × FeatureForm)
  pub addons : List (Option ℕ × AddonForm)

abbrev pub remove_listed : ℕ → Option Removed → Action PlanStore (Unit {0})
remove_listed plan none = return tt
remove_listed plan (some r) = do
  on_benefits (remove_parts benefit_part plan r.benefits)
  on_features (remove_parts feature_part plan r.features)
  on_addons (remove_parts addon_part plan r.addons)

-- What the transaction does once the plan itself is written
abbrev pub replace_lists : ℕ → PlanBody → Action PlanStore ℕ
replace_lists plan body = do
  remove_listed plan body.removed
  on_benefits (upsert_parts benefit_part plan body.benefits)
  on_features (upsert_parts feature_part plan body.features)
  on_addons (upsert_parts addon_part plan body.addons)
  return plan

-- The body of the transaction of `upsertPlan`
unfoldable pub upsert_plan_body : PlanBody → Action PlanStore ℕ
unfolding upsert_plan_base
upsert_plan_body body = do plan ← upsert_plan_base body.id body.form; replace_lists plan body

-- `upsertPlan`
unfoldable pub upsert_plan : PlanBody → Action PlanStore ℕ
unfolding upsert_plan_body
upsert_plan body = transaction (upsert_plan_body body)

-- `deactivatePlan`, with `deactivate`
unfoldable pub deactivate_plan : ℕ → Action PlanStore (Unit {0})
unfolding get_plan_by_id
deactivate_plan id = do
  plan ← get_plan_by_id id
  writes (λ s. record s {
    plans =
        Table.update (λ p. p.id == id) (λ p. record p { is_active = false; deleted = true })
          s.plans;
  })
