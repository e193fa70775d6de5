-- ===== src/Slots/Reconcile.antt =====
-- Giving back and recounting.
use subscription_be.Prelude.{
  ℕ, ◌+◌, ◌≡◌, refl, ap, String, true, false, some, List, [], ◌∷◌, ◌++◌, arith, count_where,
  find_first, find_first-append_none, find_first-update, update_many, update_many_twice,
  update_many_undo, update_many-append, count_where-append, count_where-update_many_le, ltb,
  if◌then◌else◌, any,
}
use subscription_be.Db.{Db}
use subscription_be.Db.Table
use subscription_be.Db.Schema.{Subscription, SubscriptionQuota, RefType}
use subscription_be.Subscription.Rows.{quota_at, active_addon}
use mathlib.Core.Path.{subst⁻¹}
use subscription_be.Slots.{
  Source, Resource, by_token, by_token_any_status, quota_of, full, take_one, slot_assign,
  assign_body, attribute, get_assignment_sources, ref_of, slot_row, addon_sources, addon_source,
  matching_addons, package_source, oldest_first,
}
use subscription_be.Slots.Release.{
  slot_release, release_body, reconcile_quota, recount, set_quota, owned_slot, total_capacity,
  user_slot, owner_is, give_one, decrement_quota_used, slot_at, delete_slot,
}

-- The sources hang on plans and subscriptions alone.
sources_of_quotas :
    (resource : Resource) (ss : List Subscription) (db : Db) (t : Table.Table SubscriptionQuota)
    → addon_sources resource ss (record db { quotas = t }) ≡ addon_sources resource ss db
sources_of_quotas resource [] db t = refl
sources_of_quotas resource (s ∷ ss) db t =
    ap (addon_source s.id (matching_addons resource s db)) (sources_of_quotas resource ss db t)

get_assignment_sources_of_quotas :
    (resource : Resource) (s : Subscription) (db : Db) (t : Table.Table SubscriptionQuota)
    → get_assignment_sources resource s (record db { quotas = t })
      ≡ get_assignment_sources resource s db
unfolding get_assignment_sources
get_assignment_sources_of_quotas resource s db t =
    ap (λ rest. package_source resource s db ∷ rest)
      (sources_of_quotas resource
        (oldest_first (Table.select (active_addon s.user_id) db.subscriptions)) db t)

-- A second `reconcile_quota` changes nothing.
pub reconcile_quota_idempotent :
    (s : Subscription) (resource : Resource) (db : Db)
    → reconcile_quota s resource (reconcile_quota s resource db) ≡ reconcile_quota s resource db
unfolding reconcile_quota
reconcile_quota_idempotent s resource db =
    let sources = get_assignment_sources resource s db in
    let is_unlimited = any (λ x. x.is_unlimited) sources in
    let total = if is_unlimited then 0 else total_capacity sources in
    let used = Table.count (owned_slot s.user_id resource db) db.slot_maps in
    let set = set_quota total is_unlimited used in
    let db' = recount sources s resource db in
    subst⁻¹ (λ (found : List Source). recount found s resource db' ≡ db')
      (get_assignment_sources_of_quotas resource s db
        (Table.update (quota_of s.id resource) set db.quotas))
      (ap
        (λ (rows : List SubscriptionQuota). record db { quotas = record db.quotas { rows = rows } })
        (update_many_twice (quota_of s.id resource) set db.quotas.rows (λ q. refl)))

-- A slot that was granted and is given back leaves the quotas as they were, and the user with no
-- live slot for the entity; this holds where the user had none before, the type of the entity fits
-- the resource, and the token and the slot's source lead to subscriptions of the user.
pub slot_release_undoes :
    (token : String) (resource : Resource) (ref_type : RefType) (ref_id : ℕ) (db : Db)
    (s : Subscription) (q : SubscriptionQuota)
    → Table.find (by_token token) db.subscriptions ≡ some s
    → Table.find (by_token_any_status token) db.subscriptions ≡ some s
    → Table.find (quota_of s.id resource) db.quotas ≡ some q
    → full q ≡ false
    → ref_of resource ref_type ≡ true
    → owner_is s.user_id db (attribute resource s db) ≡ true
    → count_where (user_slot s.user_id ref_id resource db) db.slot_maps.rows ≡ 0
    → let assigned = (slot_assign token resource ref_type ref_id db).1 in
      let released = (slot_release token resource ref_id assigned).1 in
      (released.quotas.rows ≡ db.quotas.rows)
      × (count_where (user_slot s.user_id ref_id resource released) released.slot_maps.rows ≡ 0)
unfolding slot_assign assign_body slot_release release_body decrement_quota_used
slot_release_undoes token resource ref_type ref_id db s q active any_status found room fits owned
      absent =
    let row = slot_row (attribute resource s db) ref_type ref_id db.slot_maps.next_id in
    let hit : user_slot s.user_id ref_id resource db row ≡ true = ground (arith, fits, owned) in
    let found_slot : find_first (user_slot s.user_id ref_id resource db)
          (db.slot_maps.rows ++ row ∷ [])
        ≡ some row =
      ground (
        arith,
        find_first-append_none (user_slot s.user_id ref_id resource db) db.slot_maps.rows (row ∷ [])
            absent,
        hit,
      ) in
    let found_quota =
      find_first-update (quota_of s.id resource) (quota_at q.id) take_one db.quotas.rows q found
        (ground arith) (λ y. refl) in
    let positive : ltb 0 (q.used_quota + 1) ≡ true = ground arith in
    let live = user_slot s.user_id ref_id resource db in
    let delete = update_many (slot_at db.slot_maps.next_id) delete_slot in
    let gone : count_where live (delete (row ∷ [])) ≡ 0 = ground arith in
    rw (active, found, room, any_status, found_slot, found_quota, positive)
      (
        update_many_undo (quota_at q.id) take_one give_one db.quotas.rows (λ x. refl)
            (λ x. ap (λ (n : ℕ). record x { used_quota = n }) (omega arith)),
        omega (
          arith,
          absent,
          ap (count_where live) (
              update_many-append (slot_at db.slot_maps.next_id) delete_slot db.slot_maps.rows
                (row ∷ [])),
          count_where-append live (delete db.slot_maps.rows) (delete (row ∷ [])),
          count_where-update_many_le live (slot_at db.slot_maps.next_id) delete_slot
              db.slot_maps.rows (λ x e l. ground arith),
          gone,
        ),
      )
