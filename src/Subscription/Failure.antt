-- ===== src/Subscription/Failure.antt =====
-- A `subscribe` that throws.
use subscription_be.Prelude.{ℕ, ◌≡◌, refl, inl, inr, Bool-cases}
use subscription_be.Db.{Db}
use subscription_be.Db.Action.{Code, ok, err}
use subscription_be.Db.Schema.{Sku}
use subscription_be.Outbox.{Env}
use subscription_be.Subscription.Rows.{is_package}
use subscription_be.Subscription.Purchase.{subscribe, announce}
use subscription_be.Subscription.Outcome.{subscribe-cases}

-- The announcement cannot throw.
pub announce_ok :
    (env : Env) (user : ℕ) (sku : Sku) (id : ℕ) (db : Db) → (announce env user sku id db).0 ≡ ok id
unfolding announce
announce_ok env user sku id db = elim (Bool-cases (is_package sku.sku_type)) [
  | inl y ↦ simp y
  | inr n ↦ simp n
]

-- If `subscribe` throws, whatever the reason, the database is as it was.
pub subscribe_atomic :
    (env : Env) (user sku_id : ℕ) (db : Db) (c : Code) (status : ℕ)
    → (subscribe env user sku_id db).0 ≡ err c status
    → (subscribe env user sku_id db).1 ≡ db
subscribe_atomic env user sku_id db c status =
    subscribe-cases (λ r. r.0 ≡ err c status → r.1 ≡ db) env user db sku_id (λ c' status' e. refl)
      λ sku currency id db' found on fits done e. cc (announce_ok env user sku id db')
