-- ===== src/Subscription/OnePackage.antt =====
-- The number of live packages of a user.
use mathlib.Core.Path.{subst}
use subscription_be.Prelude.{
  String, ℕ, ◌≤◌, ◌≡◌, refl, true, not, inl, inr, arith, Option-cases, ◌∷◌, [], is_some,
  count_where, count_where-append, count_where-update_found, count_where-update_many_le,
  update_many, find_first, find_first-none, find_first-sat,
}
use native.Mathlib.Decide.{ℕ_discrete}
use subscription_be.Db.{Db}
use subscription_be.Db.Table
use subscription_be.Db.Schema.{Sku, Subscription, SubscriptionStatus, PlanSwitchType}
use subscription_be.Outbox.{Env}
use subscription_be.Wallet.{debit}
use subscription_be.Subscription.Rows.{
  is_package, is_active_status, is_live, live_package, subscription_row, billing_end_of, by_id,
}
use subscription_be.Subscription.Cancel.{mark_cancelled, cancel_subscription, cancel_row, with_id}
use subscription_be.Subscription.Purchase.{subscribe, open_subscription}
use subscription_be.Subscription.Switch.{
  switch_plan, open_switched, switch_type_of, rank_of, sku_of,
}
use subscription_be.Subscription.Announce.{
  announce-frame, announce_switch-frame, cancel_subscription-frame,
}
use subscription_be.Subscription.Outcome.{subscribe-cases}
use subscription_be.Subscription.Committed.{Committed, purchase-Committed}
use subscription_be.Subscription.SwitchOutcome.{
  SwitchCommitted, execute-SwitchCommitted, switch_plan-cases, Switchable,
}

abbrev pub packages_of : ℕ → Db → ℕ
packages_of user db = count_where (live_package user) db.subscriptions.rows

abbrev pub OnePackage : Db → Type 0
OnePackage db = (user : ℕ) → packages_of user db ≤ 1

Committed-OnePackage :
    (env : Env) (user : ℕ) (sku : Sku) (currency : ℕ) (db : Db) (id : ℕ) (db' : Db)
    → OnePackage db
    → is_some (Table.find (live_package user) db.subscriptions) ≡ not (is_package sku.sku_type)
    → Committed env user sku currency db id db'
    → OnePackage db'
unfolding open_subscription debit
Committed-OnePackage env user sku currency db id db' h fits c = subst OnePackage c.state λ u.
    let row =
      subscription_row user sku.id sku.sku_type env.purchase_token env.now
        (billing_end_of env.now sku) db.subscriptions.next_id in
    elim (Option-cases (find_first (live_package user) db.subscriptions.rows)) [
      | inl e ↦ ground (
        arith,
        h u,
        e,
        fits,
        find_first-none (live_package user) db.subscriptions.rows e,
        count_where-append (live_package u) db.subscriptions.rows (row ∷ []),
      )
      | inr (s, e) ↦ ground (
        arith,
        h u,
        e,
        fits,
        count_where-append (live_package u) db.subscriptions.rows (row ∷ []),
      )
    ]

-- Where no user has two live packages, no user has two after `subscribe`, whether it returns or throws.
pub subscribe-OnePackage :
    (env : Env) (user sku_id : ℕ) (db : Db)
    → OnePackage db
    → OnePackage (subscribe env user sku_id db).1
subscribe-OnePackage env user sku_id db h =
    subscribe-cases (λ r. OnePackage r.1) env user db sku_id (λ c status. h)
      λ sku currency id db' found on fits done. announce-frame OnePackage env user sku id db' λ o.
        Committed-OnePackage env user sku currency db id db' h fits
          (purchase-Committed env user sku currency db id db' done)

-- Where no user has two live packages, no user has two after `cancel_subscription`.
pub cancel_subscription-OnePackage :
    (env : Env) (show : ℕ → String) (user id : ℕ) (db : Db)
    → OnePackage db
    → OnePackage (cancel_subscription env show user id db).1
unfolding mark_cancelled
cancel_subscription-OnePackage env show user id db h =
    cancel_subscription-frame OnePackage env show user id db h λ o u. omega (
      arith,
      h u,
      count_where-update_many_le (live_package u) (with_id id) (cancel_row env.now)
          db.subscriptions.rows (λ x hit live. ground arith),
    )

live_of_active :
    (status : SubscriptionStatus) → is_active_status status ≡ true → is_live status ≡ true
live_of_active SubscriptionStatus.active h = refl
live_of_active SubscriptionStatus.renewed h = ground arith
live_of_active SubscriptionStatus.on_hold h = ground arith
live_of_active SubscriptionStatus.cancelled h = ground arith
live_of_active SubscriptionStatus.expired h = ground arith

-- What is switched is a live package of the user.
pub Switchable-live :
    (user id new_sku_id : ℕ) (db : Db) (old : Subscription) (sku : Sku)
    → Switchable user id new_sku_id db old sku
    → live_package user old ≡ true
Switchable-live user id new_sku_id db old sku fits = ground (
  arith,
  live_of_active old.status fits.on,
  fits.own,
  fits.package_old,
  find_first-sat (by_id id) db.subscriptions.rows old fits.found,
)

SwitchCommitted-OnePackage :
    (env : Env) (user id new_sku_id : ℕ) (old : Subscription) (sku : Sku) (type : PlanSwitchType)
    (currency : ℕ) (db : Db) (new_id : ℕ) (db' : Db)
    → OnePackage db
    → Switchable user id new_sku_id db old sku
    → SwitchCommitted env user old sku type currency db new_id db'
    → OnePackage db'
unfolding open_switched debit mark_cancelled
SwitchCommitted-OnePackage env user id new_sku_id old sku type currency db new_id db' h fits c =
    subst OnePackage c.state λ u.
      let row =
        subscription_row user sku.id sku.sku_type env.purchase_token env.now
          (billing_end_of env.now sku) db.subscriptions.next_id in
      let rest = update_many (with_id old.id) (cancel_row env.now) db.subscriptions.rows in
      let found = find_first-sat (by_id id) db.subscriptions.rows old fits.found in
      elim (ℕ_discrete u user) [
        | yes same ↦ rw same (
            ground (
              arith,
              h user,
              count_where-update_found (live_package user) (by_id id) (with_id old.id)
                  (cancel_row env.now) db.subscriptions.rows old fits.found
                  (Switchable-live user id new_sku_id db old sku fits)
                  (λ y e. ground (arith, found)) (λ y e. ground arith),
              count_where-append (live_package user) rest (row ∷ []),
            ))
        | no ne ↦ ground (
          arith,
          h u,
          count_where-update_many_le (live_package u) (with_id old.id) (cancel_row env.now)
              db.subscriptions.rows (λ x hit live. ground arith),
          count_where-append (live_package u) rest (row ∷ []),
        )
      ]

-- Where no user has two live packages, no user has two after `switch_plan`, whether it returns or throws.
pub switch_plan-OnePackage :
    (env : Env) (user id new_sku_id : ℕ) (db : Db)
    → OnePackage db
    → OnePackage (switch_plan env user id new_sku_id db).1
switch_plan-OnePackage env user id new_sku_id db h =
    switch_plan-cases (λ r. OnePackage r.1) env user id new_sku_id db (λ c status. h)
      λ old sku currency new_id db' fits done.
        let type = switch_type_of (rank_of (sku_of old db)) sku.rank in
        announce_switch-frame OnePackage env user (sku_of old db) sku type new_id db' λ o.
          SwitchCommitted-OnePackage env user id new_sku_id old sku type currency db new_id db' h
            fits (execute-SwitchCommitted env user old sku type currency db new_id db' done)
