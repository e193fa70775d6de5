-- ===== src/Masters/PlanParts.antt =====
-- What an edit of a plan leaves alone.
use subscription_be.Prelude.{
  ℕ, zero, suc, ◌<◌, ◌≡◌, refl, ◌∙◌, false, Option, none, some, List, ◌==◌, any, Bool-cases, inl,
  inr, is_some, [], not, ◌&&◌,
}
use subscription_be.Db.Table
use subscription_be.Db.Action.{transaction-keeps, plan_not_found, duplicate_sku}
use subscription_be.Db.Cases.{bind-keeps, bind-leads, or_throw-cases, throw_if-cases}
use subscription_be.Masters.Parts.{
  has_key, names, upsert_parts_others, remove_parts_others, upsert_parts,
}
use subscription_be.Masters.Plans.{
  PlanStore, PlanForm, PlanBody, Removed, AddonRow, addon_part, benefit_part, feature_part,
  on_benefits, on_features, on_addons, replace_lists, upsert_plan_base, remove_listed,
  upsert_plan_body, upsert_plan, coded, create_plan, update_plan, get_plan_by_id,
}

-- An add-on that is as it was, and whose key was given out
abbrev Untouched : ℕ → Option AddonRow → PlanStore → Type 0
Untouched k row s = (Table.find (has_key addon_part k) s.addons ≡ row) × (k < s.addons.next_id)

create-Untouched :
    (k : ℕ) (row : Option AddonRow) (f : PlanForm) (s : PlanStore)
    → Untouched k row s
    → Untouched k row (create_plan f s).1
unfolding create_plan
create-Untouched k row f s h = elim (Bool-cases (is_some (Table.find (coded f.sku_code) s.plans))) [
  | inl taken ↦ rw taken h
  | inr free ↦ rw free h
]

update-Untouched :
    (k : ℕ) (row : Option AddonRow) (id : ℕ) (f : PlanForm) (s : PlanStore)
    → Untouched k row s
    → Untouched k row (update_plan id f s).1
unfolding update_plan get_plan_by_id
update-Untouched k row id f s h =
    or_throw-cases (λ r. Untouched k row r.1)
      (Table.find (λ p. p.id == id && not p.deleted) s.plans) plan_not_found 404 _ s h
      λ plan found.
        throw_if-cases (λ r. Untouched k row r.1)
          (is_some (Table.find (λ p. coded f.sku_code p && not (p.id == id)) s.plans)) duplicate_sku
          409 _ s h λ free. h

base-Untouched :
    (k : ℕ) (row : Option AddonRow) (id : Option ℕ) (f : PlanForm) (s : PlanStore)
    → Untouched k row s
    → Untouched k row (upsert_plan_base id f s).1
unfolding upsert_plan_base
base-Untouched k row none f s h = create-Untouched k row f s h
base-Untouched k row (some zero) f s h = create-Untouched k row f s h
base-Untouched k row (some (suc n)) f s h = update-Untouched k row (suc n) f s h

abbrev removed_addons : Option Removed → List ℕ
removed_addons none = []
removed_addons (some r) = r.addons

remove-Untouched :
    (k : ℕ) (row : Option AddonRow) (plan : ℕ) (removed : Option Removed) (s : PlanStore)
    → any (λ (id : ℕ). k == id) (removed_addons removed) ≡ false
    → Untouched k row s
    → Untouched k row (remove_listed plan removed s).1
remove-Untouched k row plan none s other h = h
remove-Untouched k row plan (some r) s other h =
    (remove_parts_others addon_part plan k r.addons s.addons other ∙ h.0, h.1)

-- The add-on as it was, whatever the counter
abbrev Kept : ℕ → Option AddonRow → PlanStore → Type 0
Kept k row s = Table.find (has_key addon_part k) s.addons ≡ row

lists-Untouched :
    (plan k : ℕ) (row : Option AddonRow) (body : PlanBody) (s : PlanStore)
    → names addon_part k body.addons ≡ false
    → any (λ (id : ℕ). k == id) (removed_addons body.removed) ≡ false
    → Untouched k row s
    → Kept k row (replace_lists plan body s).1
lists-Untouched plan k row body s unnamed kept h =
    let weaken : (s : PlanStore) → Untouched k row s → Kept k row s = λ s u. u.0 in
    bind-leads (Untouched k row) (Kept k row) weaken (remove_listed plan body.removed) _ s
      (remove-Untouched k row plan body.removed s kept h)
      λ _ s1 h1.
        bind-leads (Untouched k row) (Kept k row) weaken
          (on_benefits (upsert_parts benefit_part plan body.benefits)) _ s1 h1
          λ _ s2 h2.
            bind-leads (Untouched k row) (Kept k row) weaken
              (on_features (upsert_parts feature_part plan body.features)) _ s2 h2
              λ _ s3 h3.
                bind-keeps (Kept k row) (on_addons (upsert_parts addon_part plan body.addons)) _ s3
                  (upsert_parts_others addon_part plan k body.addons s3.addons h3.1 unnamed ∙ h3.0)
                  λ _ s4 h4. h4

body-Untouched :
    (k : ℕ) (row : Option AddonRow) (body : PlanBody) (s : PlanStore)
    → names addon_part k body.addons ≡ false
    → any (λ (id : ℕ). k == id) (removed_addons body.removed) ≡ false
    → Untouched k row s
    → Kept k row (upsert_plan_body body s).1
unfolding upsert_plan_body
body-Untouched k row body s unnamed kept h =
    bind-leads (Untouched k row) (Kept k row) (λ s u. u.0) (upsert_plan_base body.id body.form) _ s
      (base-Untouched k row body.id body.form s h)
      λ plan s1 h1. lists-Untouched plan k row body s1 unnamed kept h1

-- An edit of a plan, whether it commits or throws, leaves as it was every add-on, of this plan or of
-- another, whose key was given out before and which the body neither lists nor removes.
pub upsert_plan_others :
    (k : ℕ) (body : PlanBody) (s : PlanStore)
    → k < s.addons.next_id
    → names addon_part k body.addons ≡ false
    → any (λ (id : ℕ). k == id) (removed_addons body.removed) ≡ false
    → Table.find (has_key addon_part k) (upsert_plan body s).1.addons
      ≡ Table.find (has_key addon_part k) s.addons
unfolding upsert_plan
upsert_plan_others k body s old unnamed kept =
    let row = Table.find (has_key addon_part k) s.addons in
    transaction-keeps (Kept k row) (upsert_plan_body body) s refl
      (body-Untouched k row body s unnamed kept (refl, old))
