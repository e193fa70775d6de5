-- ===== src/Slots/Outcome.antt =====
-- How `slotAssign` can end.
use subscription_be.Prelude.{
  ℕ, ◌≡◌, String, false, some, inl, inr, Bool-cases, Option-cases, ◌-◌, if◌then◌else◌,
}
use subscription_be.Prelude.Int.{pos, minus_one}
use subscription_be.Db.{Db}
use subscription_be.Db.Table
use subscription_be.Db.Action.{Code, Result, ok, err, subscription_not_found, quota_exceeded}
use subscription_be.Db.Schema.{Subscription, SubscriptionQuota, RefType}
use subscription_be.Slots.{
  Resource, by_token, quota_of, full, attribute, increment_quota_used, slot_row, Assigned,
  assign_body, slot_assign,
}

-- What a grant writes.
abbrev pub granted : Resource → Subscription → SubscriptionQuota → RefType → ℕ → Db → Db
granted resource s q ref_type ref_id db =
    let taken = increment_quota_used q.id db in
    record taken {
      slot_maps = Table.create (slot_row (attribute resource s db) ref_type ref_id) db.slot_maps;
    }

abbrev pub answer_of : SubscriptionQuota → ℕ → ℕ → Assigned
answer_of q slot source = record {
  slot_id = slot;
  quota_remaining = if q.is_unlimited then minus_one else pos (q.total_quota - q.used_quota - 1);
  attributed_subscription_id = source;
}

module _ (P : Result Assigned × Db → Type 0) (token : String) (resource : Resource)
    (ref_type : RefType) (ref_id : ℕ) (db : Db) where
  -- It throws and writes nothing, or the quota has room and the slot is granted.
  pub slot_assign-cases :
      ((c : Code) (status : ℕ) → P (err c status, db))
      → ((s : Subscription) (q : SubscriptionQuota)
          → Table.find (by_token token) db.subscriptions ≡ some s
          → Table.find (quota_of s.id resource) db.quotas ≡ some q
          → full q ≡ false
          → P (
            ok (answer_of q db.slot_maps.next_id (attribute resource s db)),
            granted resource s q ref_type ref_id db,
          ))
      → P (slot_assign token resource ref_type ref_id db)
  unfolding slot_assign assign_body
  slot_assign-cases fail grant =
      elim (Option-cases (Table.find (by_token token) db.subscriptions)) [
        | inl e ↦ rw e (fail subscription_not_found 404)
        | inr (s, e) ↦ rw e (elim (Option-cases (Table.find (quota_of s.id resource) db.quotas)) [
          | inl e' ↦ rw e' (fail quota_exceeded 409)
          | inr (q, e') ↦ rw e' (elim (Bool-cases (full q)) [
            | inl y ↦ rw y (fail quota_exceeded 409)
            | inr n ↦ rw n (grant s q e e' n)
          ])
        ])
      ]
