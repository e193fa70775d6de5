-- ===== src/Slots/Attribution.antt =====
-- Which subscription a slot is attributed to.
use subscription_be.Prelude.{
  ℕ, ◌≡◌, refl, ap, sym, ◌∙◌, ◌+◌, ◌==◌, if◌then◌else◌, arith, count_where-append, find_first,
  str_eq, Option, none, [], ◌∷◌, String, true, some,
}
use subscription_be.Db.{Db}
use subscription_be.Db.Table
use subscription_be.Db.Action.{Result, ok, err}
use subscription_be.Db.Schema.{SkuBenefit, Subscription, RefType}
use subscription_be.Subscription.Switch.{sku_of}
use subscription_be.Slots.{
  Resource, by_token, attribute, get_assignment_sources, has_room, package_source, slot_assign,
  Assigned, ref_of, slots_of_source, slot_of, slot_row, benefit_source, benefits_of,
  quota_resource_type,
}
use subscription_be.Slots.Outcome.{slot_assign-cases}

benefit_source_id : (id : ℕ) (b : Option SkuBenefit) → (benefit_source id b).subscription_id ≡ id
benefit_source_id id none = refl
benefit_source_id id (some b) = refl

attribute_package :
    (resource : Resource) (s : Subscription) (db : Db)
    → has_room resource db (package_source resource s db) ≡ true
    → attribute resource s db ≡ s.id
unfolding attribute get_assignment_sources
attribute_package resource s db h = rw h (
    benefit_source_id s.id (
      find_first (λ b. str_eq b.benefit_type (quota_resource_type resource))
        (benefits_of (sku_of s db))))

abbrev source_of : Result Assigned → ℕ
source_of (ok a) = a.attributed_subscription_id
source_of (err c status) = 0

-- Where the package itself has room, a `slot_assign` that returns counts one live slot more under the
-- package, and under no other subscription, whatever add-ons the user has, and it returns the package's
-- key; the kind of the slot must be one of the resource.
pub slot_assign_package_first :
    (token : String) (resource : Resource) (ref_type : RefType) (ref_id : ℕ) (db : Db)
    (s : Subscription) (a : Assigned)
    → Table.find (by_token token) db.subscriptions ≡ some s
    → ref_of resource ref_type ≡ true
    → has_room resource db (package_source resource s db) ≡ true
    → (slot_assign token resource ref_type ref_id db).0 ≡ ok a
    → let db' = (slot_assign token resource ref_type ref_id db).1 in
      (a.attributed_subscription_id ≡ s.id)
      × ((id : ℕ)
          → slots_of_source resource id db'
            ≡ slots_of_source resource id db + (if id == s.id then 1 else 0))
slot_assign_package_first token resource ref_type ref_id db s a found fits room =
    slot_assign-cases
      (λ r.
        r.0 ≡ ok a
        → (a.attributed_subscription_id ≡ s.id)
          × ((id : ℕ)
              → slots_of_source resource id r.1
                ≡ slots_of_source resource id db + (if id == s.id then 1 else 0)))
      token resource ref_type ref_id db (λ c status e. cc)
      λ s' q found' e' not_full e.
        let same : s' ≡ s = cc in
        let got : attribute resource s' db ≡ a.attributed_subscription_id = ap source_of e in
        let own = attribute_package resource s db room in
        let there : attribute resource s' db ≡ s.id =
          ap (λ (x : Subscription). attribute resource x db) same ∙ own in
        (
          sym got ∙ there,
          λ id. ground (
            arith,
            count_where-append (slot_of resource id) db.slot_maps.rows
                (slot_row (attribute resource s' db) ref_type ref_id db.slot_maps.next_id ∷ []),
            there,
            fits,
          ),
        )
