-- ===== src/Slots/Quota.antt =====
-- Slots against the limit of a quota.
use subscription_be.Prelude.{
  ℕ, ◌≤◌, ◌≡◌, refl, String, Bool, true, not, ◌&&◌, Option, none, some, arith, inl, inr,
  Option-cases, ltb, count_where, count_where-update_one,
}
use subscription_be.Db.{Db}
use subscription_be.Db.Table
use subscription_be.Db.Action.{err, quota_exceeded}
use subscription_be.Db.Schema.{Subscription, SubscriptionQuota, RefType}
use subscription_be.Subscription.Rows.{quota_at}
use subscription_be.Slots.{Resource, by_token, quota_of, full, take_one, slot_assign, assign_body}
use subscription_be.Slots.Outcome.{slot_assign-cases}

-- A finite quota with more slots used than it has
abbrev pub over_limit : SubscriptionQuota → Bool
over_limit q = not q.is_unlimited && ltb q.total_quota q.used_quota

abbrev pub quotas_over_limit : Db → ℕ
quotas_over_limit db = count_where over_limit db.quotas.rows

-- The primary key of the quotas.
abbrev pub UniqueQuotas : Db → Type 0
UniqueQuotas db = (id : ℕ) → count_where (quota_at id) db.quotas.rows ≤ 1

-- `slot_assign` takes no quota over its limit: as many quotas are over it after the call as before,
-- or fewer; this holds where no two quotas share a key.
pub slot_assign_within :
    (token : String) (resource : Resource) (ref_type : RefType) (ref_id : ℕ) (db : Db)
    → UniqueQuotas db
    → quotas_over_limit (slot_assign token resource ref_type ref_id db).1 ≤ quotas_over_limit db
slot_assign_within token resource ref_type ref_id db h =
    slot_assign-cases (λ r. quotas_over_limit r.1 ≤ quotas_over_limit db) token resource ref_type
      ref_id db (λ c status. omega arith)
      λ s q e found room.
        count_where-update_one over_limit (quota_of s.id resource) (quota_at q.id) take_one
          db.quotas.rows q found (h q.id) (ground arith) (ground (arith, room))

abbrev pub refusing : Option SubscriptionQuota → Bool
refusing none = true
refusing (some q) = full q

-- Without a quota row for the resource, and with a finite quota that is used up, `slot_assign` is
-- refused with QUOTA_EXCEEDED and writes nothing.
pub slot_assign_refuses :
    (token : String) (resource : Resource) (ref_type : RefType) (ref_id : ℕ) (db : Db)
    (s : Subscription)
    → Table.find (by_token token) db.subscriptions ≡ some s
    → refusing (Table.find (quota_of s.id resource) db.quotas) ≡ true
    → slot_assign token resource ref_type ref_id db ≡ (err quota_exceeded 409, db)
unfolding slot_assign assign_body
slot_assign_refuses token resource ref_type ref_id db s found refuses =
    rw found (elim (Option-cases (Table.find (quota_of s.id resource) db.quotas)) [
      | inl e ↦ rw e refl
      | inr (q, e) ↦
          let is_full : full q ≡ true = ground (arith, refuses, e) in rw (e, is_full) refl
    ])
