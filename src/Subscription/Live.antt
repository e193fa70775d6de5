-- ===== src/Subscription/Live.antt =====
-- Which package a user has after a purchase, a switch and a cancellation.
use mathlib.Core.Path.{subst}
use subscription_be.Prelude.{
  ℕ, ◌+◌, ◌*◌, ◌/◌, String, ◌≡◌, refl, true, false, not, Option, none, some, inl, inr, arith,
  Option-cases, ◌==◌, List, ◌∷◌, ◌++◌, [], is_some, count_where, count_where-update_found,
  find_first, find_first-none, find_first-sat, find_first_of_count, update_many,
  find_first-append_none,
}
use subscription_be.Db.{Db}
use subscription_be.Db.Table
use subscription_be.Db.Action.{ok}
use subscription_be.Db.Schema.{Sku, Subscription, SubscriptionStatus, PlanSwitchType}
use subscription_be.Outbox.{Env}
use subscription_be.Outbox.Frame.{insert_event-frame}
use subscription_be.Webhook.{WebhookEvent}
use subscription_be.Webhook.Formatters.{format_subscription_cancelled}
use subscription_be.Wallet.{debit}
use subscription_be.Subscription.Rows.{find_sku, is_package, live_package, by_id, is_live}
use subscription_be.Subscription.Cancel.{
  mark_cancelled, cancel_subscription, cancel_row, with_id, is_cancelled, external_id,
}
use subscription_be.Subscription.Purchase.{subscribe, open_subscription}
use subscription_be.Subscription.Switch.{
  switch_plan, open_switched, switch_type_of, rank_of, sku_of, announce_switch,
}
use subscription_be.Subscription.Announce.{announce-frame, announce_switch-frame}
use subscription_be.Subscription.Outcome.{subscribe-cases}
use subscription_be.Subscription.Committed.{Committed, purchase-Committed}
use subscription_be.Subscription.Failure.{announce_ok}
use subscription_be.Subscription.SwitchOutcome.{
  SwitchCommitted, execute-SwitchCommitted, switch_plan-cases, Switchable,
}
use subscription_be.Subscription.OnePackage.{OnePackage, Switchable-live}

abbrev pub package_of : ℕ → Db → Option Subscription
package_of user db = find_first (live_package user) db.subscriptions.rows

-- The subscription that a plan opens: from today, for as many days as the plan lasts
abbrev pub opened : Env → ℕ → Sku → ℕ → Subscription
opened env user sku id = record {
  id = id;
  user_id = user;
  sku_id = sku.id;
  sku_type = sku.sku_type;
  purchase_token = some env.purchase_token;
  status = SubscriptionStatus.active;
  billing_start = env.now / 86400000;
  billing_end = (env.now + sku.billing_duration_days * 86400000) / 86400000;
  created_at = env.now;
  canceled_at = none;
  expired_at = none;
  deleted = false;
}

-- The last row is the package, if it is one and no row before it is.
package-append :
    (env : Env) (user : ℕ) (sku : Sku) (id : ℕ) (rows : List Subscription)
    → count_where (live_package user) rows ≡ 0
    → is_package sku.sku_type ≡ true
    → find_first (live_package user) (rows ++ opened env user sku id ∷ [])
      ≡ some (opened env user sku id)
package-append env user sku id rows h pkg =
    ground (arith, find_first-append_none (live_package user) rows (opened env user sku id ∷ []) h)

Committed-package :
    (env : Env) (user : ℕ) (sku : Sku) (currency : ℕ) (db : Db) (id : ℕ) (db' : Db)
    → is_package sku.sku_type ≡ true
    → is_some (Table.find (live_package user) db.subscriptions) ≡ not (is_package sku.sku_type)
    → Committed env user sku currency db id db'
    → package_of user db' ≡ some (opened env user sku id)
unfolding open_subscription debit
Committed-package env user sku currency db id db' pkg fits c =
    subst (λ d. package_of user d ≡ some (opened env user sku id)) c.state
      (subst
        (λ (k : ℕ).
          find_first (live_package user)
            (db.subscriptions.rows ++ opened env user sku db.subscriptions.next_id ∷ [])
          ≡ some (opened env user sku k))
        c.key
        (package-append env user sku db.subscriptions.next_id db.subscriptions.rows
          (elim (Option-cases (find_first (live_package user) db.subscriptions.rows)) [
            | inl e ↦ find_first-none (live_package user) db.subscriptions.rows e
            | inr (s, e) ↦ ground (arith, e, fits)
          ])
          pkg))

-- After a user bought a package, it is the user's live package: active from now on, for the plan's
-- duration, under the key that the call returned.
pub subscribe_opens :
    (env : Env) (user sku_id : ℕ) (db : Db) (sku : Sku) (id : ℕ)
    → find_sku sku_id db ≡ some sku
    → is_package sku.sku_type ≡ true
    → (subscribe env user sku_id db).0 ≡ ok id
    → package_of user (subscribe env user sku_id db).1 ≡ some (opened env user sku id)
subscribe_opens env user sku_id db sku id found pkg =
    subscribe-cases (λ r. r.0 ≡ ok id → package_of user r.1 ≡ some (opened env user sku id)) env
      user db sku_id (λ c status e. cc)
      λ plan currency new_id db' found' on fits done e.
        let same : plan ≡ sku = cc in
        let same_id : new_id ≡ id = cc (announce_ok env user plan new_id db') in
        announce-frame (λ d. package_of user d ≡ some (opened env user sku id)) env user plan new_id
          db'
          λ o.
            subst (λ (k : Sku). package_of user db' ≡ some (opened env user k id)) same
              (subst (λ (k : ℕ). package_of user db' ≡ some (opened env user plan k)) same_id
                (Committed-package env user plan currency db new_id db' (cc) fits
                  (purchase-Committed env user plan currency db new_id db' done)))

SwitchCommitted-package :
    (env : Env) (user id new_sku_id : ℕ) (old : Subscription) (sku : Sku) (type : PlanSwitchType)
    (currency : ℕ) (db : Db) (new_id : ℕ) (db' : Db)
    → OnePackage db
    → Switchable user id new_sku_id db old sku
    → SwitchCommitted env user old sku type currency db new_id db'
    → package_of user db' ≡ some (opened env user sku new_id)
unfolding open_switched debit mark_cancelled
SwitchCommitted-package env user id new_sku_id old sku type currency db new_id db' h fits c =
    let rest = update_many (with_id old.id) (cancel_row env.now) db.subscriptions.rows in
    let found = find_first-sat (by_id id) db.subscriptions.rows old fits.found in
    let fewer =
      count_where-update_found (live_package user) (by_id id) (with_id old.id) (cancel_row env.now)
        db.subscriptions.rows old fits.found (Switchable-live user id new_sku_id db old sku fits)
        (λ y e. ground (arith, found)) (λ y e. ground arith) in
    subst (λ d. package_of user d ≡ some (opened env user sku new_id)) c.state
      (subst
        (λ (k : ℕ).
          find_first (live_package user) (rest ++ opened env user sku db.subscriptions.next_id ∷ [])
          ≡ some (opened env user sku k))
        c.key
        (package-append env user sku db.subscriptions.next_id rest (omega (arith, fewer, h user))
          (ground (arith, fits.offered))))

-- After a switch the user's live package is the new plan's, under the key that the call returned;
-- this holds where the user had at most one live package.
pub switch_plan_opens :
    (env : Env) (user id new_sku_id : ℕ) (db : Db) (sku : Sku) (new_id : ℕ)
    → OnePackage db
    → find_sku new_sku_id db ≡ some sku
    → (switch_plan env user id new_sku_id db).0 ≡ ok new_id
    → package_of user (switch_plan env user id new_sku_id db).1 ≡ some (opened env user sku new_id)
unfolding announce_switch
switch_plan_opens env user id new_sku_id db sku new_id h found =
    switch_plan-cases
      (λ r. r.0 ≡ ok new_id → package_of user r.1 ≡ some (opened env user sku new_id)) env user id
      new_sku_id db (λ c status e. cc)
      λ old plan currency key db' fits done e.
        let type = switch_type_of (rank_of (sku_of old db)) plan.rank in
        let same : plan ≡ sku = cc fits.found_sku in
        let same_id : key ≡ new_id = cc in
        announce_switch-frame (λ d. package_of user d ≡ some (opened env user sku new_id)) env user
          (sku_of old db) plan type key db'
          λ o.
            subst (λ (k : Sku). package_of user db' ≡ some (opened env user k new_id)) same
              (subst (λ (k : ℕ). package_of user db' ≡ some (opened env user plan k)) same_id
                (SwitchCommitted-package env user id new_sku_id old plan type currency db key db' h
                  fits (execute-SwitchCommitted env user old plan type currency db key db' done)))

not_cancelled : (status : SubscriptionStatus) → is_live status ≡ true → is_cancelled status ≡ false
not_cancelled SubscriptionStatus.active h = refl
not_cancelled SubscriptionStatus.renewed h = refl
not_cancelled SubscriptionStatus.on_hold h = refl
not_cancelled SubscriptionStatus.cancelled h = ground arith
not_cancelled SubscriptionStatus.expired h = refl

-- After a user cancelled the live package, the user has none; this holds where the user had at most
-- one.
pub cancel_subscription_ends :
    (env : Env) (show : ℕ → String) (user id : ℕ) (db : Db) (s : Subscription)
    → OnePackage db
    → Table.find (by_id id) db.subscriptions ≡ some s
    → live_package user s ≡ true
    → package_of user (cancel_subscription env show user id db).1 ≡ none
unfolding cancel_subscription mark_cancelled
cancel_subscription_ends env show user id db s h found live =
    let fewer =
      count_where-update_found (live_package user) (by_id id) (with_id id) (cancel_row env.now)
        db.subscriptions.rows s found live (λ y e. ground arith) (λ y e. ground arith) in
    let own : (s.user_id == user) ≡ true = ground (arith, live) in
    let on = not_cancelled s.status (ground (arith, live)) in
    rw found (
      simp (own, on)
        (insert_event-frame (λ d. package_of user d ≡ none) env WebhookEvent.subscription_cancelled
          user (format_subscription_cancelled env.now user (external_id show s))
          (record { label = "subscription.cancelled"; id = id; day = none })
          (mark_cancelled env.now id db)
          λ o.
            find_first_of_count (live_package user)
              (update_many (with_id id) (cancel_row env.now) db.subscriptions.rows)
              (omega (arith, fewer, h user))))
