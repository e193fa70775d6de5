-- ===== src/Subscription/Outcome.antt =====
-- How a call of `subscribe` can end: it throws and leaves the database alone, or the transaction of
-- the purchase commits and the announcement follows.
use subscription_be.Prelude.{
  ℕ, ◌≡◌, refl, Bool, true, false, not, some, inl, inr, Bool-cases, Option-cases, is_some, ◌&&◌,
}
use subscription_be.Db.{Db}
use subscription_be.Db.Table
use subscription_be.Db.Cases.{transaction-cases}
use subscription_be.Db.Action.{
  Code, Result, ok, err, continue, Action, sku_not_found, sku_inactive, active_subscription_exists,
  no_active_package, wallet_not_found,
}
use subscription_be.Db.Schema.{Sku}
use subscription_be.Wallet.{owned_by}
use subscription_be.Outbox.{Env}
use subscription_be.Subscription.Rows.{is_package, find_sku, live_package}
use subscription_be.Subscription.Purchase.{subscribe, buy, announce, purchase, check_existing}

module _ (P : Result ℕ × Db → Type 0) (env : Env) (user : ℕ) (db : Db) where
  buy-cases :
      (sku : Sku)
      → ((c : Code) (status : ℕ) → P (err c status, db))
      → ((currency id : ℕ) (db' : Db)
          → purchase env user sku currency db ≡ (ok id, db')
          → P (announce env user sku id db'))
      → P (buy env user sku db)
  unfolding buy
  buy-cases sku fail commit =
      elim (Option-cases (Table.find (λ w. owned_by user w && not w.deleted) db.wallets)) [
        | inl e ↦ rw e (fail wallet_not_found 404)
        | inr (w, e) ↦ rw e (
            transaction-cases P (purchase env user sku w.currency_id) (announce env user sku) db
              fail (commit w.currency_id))
      ]

  check-cases :
      (is_pkg existing : Bool) (k : Action Db ℕ)
      → ((c : Code) (status : ℕ) → P (err c status, db))
      → (existing ≡ not is_pkg → P (k db))
      → P (continue (check_existing is_pkg existing db) (λ (_ : Unit {0}). k))
  check-cases true true k fail pass = fail active_subscription_exists 409
  check-cases true false k fail pass = pass refl
  check-cases false true k fail pass = pass refl
  check-cases false false k fail pass = fail no_active_package 400

  pub subscribe-cases :
      (sku_id : ℕ)
      → ((c : Code) (status : ℕ) → P (err c status, db))
      → ((sku : Sku) (currency id : ℕ) (db' : Db)
          → find_sku sku_id db ≡ some sku
          → sku.is_active ≡ true
          → is_some (Table.find (live_package user) db.subscriptions)
            ≡ not (is_package sku.sku_type)
          → purchase env user sku currency db ≡ (ok id, db')
          → P (announce env user sku id db'))
      → P (subscribe env user sku_id db)
  unfolding subscribe
  subscribe-cases sku_id fail commit = elim (Option-cases (find_sku sku_id db)) [
    | inl e ↦ rw e (fail sku_not_found 404)
    | inr (sku, e) ↦ rw e (elim (Bool-cases sku.is_active) [
      | inr off ↦ simp off (fail sku_inactive 400)
      | inl on ↦ simp on (
          check-cases (is_package sku.sku_type)
            (is_some (Table.find (live_package user) db.subscriptions)) (buy env user sku) fail
            λ fits.
              buy-cases sku fail λ currency id db' done. commit sku currency id db' e on fits done)
    ])
  ]
