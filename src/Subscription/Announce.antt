-- ===== src/Subscription/Announce.antt =====
-- The announcements to Domain 2 write the outbox, and nothing else.
use subscription_be.Prelude.{ℕ, String, not, ◌==◌, inl, inr, Bool-cases, Option, none}
use subscription_be.Db.Action.{Result}
use subscription_be.Db.Cases.{throw_if-cases, or_throw-cases}
use subscription_be.Db.{Db}
use subscription_be.Db.Table
use subscription_be.Db.Schema.{OutboxRow, Sku, PlanSwitchType}
use subscription_be.Outbox.{Env}
use subscription_be.Outbox.Frame.{insert_event-frame}
use subscription_be.Webhook.{WebhookEvent}
use subscription_be.Webhook.Formatters.{format_subscription_created, format_subscription_cancelled}
use subscription_be.Webhook.Mapper.{build_subscription_update}
use subscription_be.Subscription.Rows.{is_package, billing_end_of, by_id}
use subscription_be.Subscription.Cancel.{
  mark_cancelled, cancel_subscription, is_cancelled, external_id,
}
use subscription_be.Subscription.Purchase.{announce}
use subscription_be.Subscription.Switch.{
  announce_switch, switch_event, switch_label, switch_payload, removed_features, features_of,
}

pub announce-frame :
    (P : Db → Type 0) (env : Env) (user : ℕ) (sku : Sku) (id : ℕ) (db : Db)
    → ((o : Table.Table OutboxRow) → P (record db { outbox = o }))
    → P (announce env user sku id db).1
unfolding announce
announce-frame P env user sku id db h =
    let update =
      build_subscription_update env.is_trial sku "active" env.now (billing_end_of env.now sku) in
    elim (Bool-cases (is_package sku.sku_type)) [
      | inl y ↦ simp y (
          insert_event-frame P env WebhookEvent.subscription_created user
            (format_subscription_created env.now user env.purchase_token update)
            (record { label = "subscription.created"; id = id; day = none }) db h)
      | inr n ↦ simp n (h db.outbox)
    ]

pub announce_switch-frame :
    (P : Db → Type 0) (env : Env) (user : ℕ) (old : Option Sku) (sku : Sku) (type : PlanSwitchType)
    (id : ℕ) (db : Db)
    → ((o : Table.Table OutboxRow) → P (record db { outbox = o }))
    → P (announce_switch env user old sku type id db).1
unfolding announce_switch
announce_switch-frame P env user old sku type id db h =
    let update =
      build_subscription_update env.is_trial sku "active" env.now (billing_end_of env.now sku) in
    let removed = removed_features (features_of old) sku.features in
    insert_event-frame P env (switch_event type) user
      (switch_payload type env.now user env.purchase_token update removed)
      (record { label = switch_label type; id = id; day = none }) db h

-- A cancellation leaves the database alone, or marks the subscription and writes the outbox.
pub cancel_subscription-frame :
    (P : Db → Type 0) (env : Env) (show : ℕ → String) (user id : ℕ) (db : Db)
    → P db
    → ((o : Table.Table OutboxRow) → P (record (mark_cancelled env.now id db) { outbox = o }))
    → P (cancel_subscription env show user id db).1
unfolding cancel_subscription
cancel_subscription-frame P env show user id db same marked =
    let Q = λ (r : Result (Unit {0}) × Db). P r.1 in
    or_throw-cases Q (Table.find (by_id id) db.subscriptions) _ 404 _ db same λ s e.
      throw_if-cases Q (not (s.user_id == user)) _ 403 _ db same λ own.
        throw_if-cases Q (is_cancelled s.status) _ 400 _ db same λ on.
          insert_event-frame P env WebhookEvent.subscription_cancelled user
            (format_subscription_cancelled env.now user (external_id show s))
            (record { label = "subscription.cancelled"; id = id; day = none })
            (mark_cancelled env.now id db) marked
