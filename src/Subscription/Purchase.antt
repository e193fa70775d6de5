-- ===== src/Subscription/Purchase.antt =====
-- `ClientSubscriptionService.subscribe`: a package or an add-on, paid with coins.
use subscription_be.Prelude.{ℕ, Bool, true, false, not, none, some, ◌==◌, if◌then◌else◌, is_some}
use subscription_be.Db.{Db}
use subscription_be.Db.Table
use subscription_be.Db.Action.{
  Action, ok, ◌>>=◌, ◌>>◌, return, or_throw, throw_if, reads, writes, transaction, sku_not_found,
  sku_inactive, active_subscription_exists, no_active_package, wallet_not_found,
  insufficient_balance, unique_violation, invalid_column_value,
}
use subscription_be.Db.Schema.{Sku, SubscriptionQuota, SubscriptionEventType}
use subscription_be.Wallet.{owned_by, get_wallet, debit, record_spend}
use subscription_be.Outbox.{Env, DedupeKey, insert_event}
use subscription_be.Webhook.{WebhookEvent}
use subscription_be.Webhook.Formatters.{format_subscription_created}
use subscription_be.Webhook.Mapper.{build_subscription_update}
use subscription_be.Subscription.Rows.{
  find_sku, is_package, live_package, billing_end_of, subscription_row, purchase_row, cycle_row,
  event_row, mirror_benefits, is_fractional, apply_addons, keys_taken,
}

-- A package wants none active, an add-on wants one.
abbrev pub check_existing : Bool → Bool → Action Db (Unit {0})
check_existing true existing = throw_if existing active_subscription_exists 409
check_existing false existing = throw_if (not existing) no_active_package 400

-- The rows for the subscription, its order, its billing cycle and its event.
unfoldable pub open_subscription : Env → ℕ → Sku → Db → Db
open_subscription env user sku db =
    let key = db.subscriptions.next_id in
    record db {
      subscriptions =
          Table.create
            (subscription_row user sku.id sku.sku_type env.purchase_token env.now
              (billing_end_of env.now sku))
            db.subscriptions;
      orders = Table.create (purchase_row key user sku.id env.order_number sku.coin_cost) db.orders;
      billing_cycles =
          Table.create (cycle_row key db.orders.next_id env.now (billing_end_of env.now sku))
            db.billing_cycles;
      events =
          Table.create
            (event_row key (some db.billing_cycles.next_id) SubscriptionEventType.activated)
            db.events;
    }

-- "Mirror quotas from SKU benefits", or extend the user's quotas by the add-on
unfoldable pub mirrored_quotas :
    ℕ → ℕ → Sku → Table.Table SubscriptionQuota → Table.Table SubscriptionQuota
mirrored_quotas user subscription sku t =
    if is_package sku.sku_type
    then mirror_benefits user subscription sku.benefits t
    else apply_addons user sku.addons t

-- The body of the transaction; the result is the subscription's id.
unfoldable pub purchase : Env → ℕ → Sku → ℕ → Action Db ℕ
unfolding open_subscription mirrored_quotas debit
purchase env user sku currency = do
  found ← reads (λ db. Table.find (owned_by user) db.wallets)
  wallet ← or_throw found insufficient_balance 400
  taken ← reads (keys_taken env.purchase_token env.order_number)
  throw_if taken unique_violation 500
  throw_if (is_fractional sku.coin_cost) invalid_column_value 500
  id ← reads (λ db. db.subscriptions.next_id)
  writes (open_subscription env user sku)
  count ← debit user sku.coin_cost
  throw_if (count == 0) insufficient_balance 400
  writes (record_spend wallet.id user sku.coin_cost currency id)
  writes (λ db. record db { quotas = mirrored_quotas user id sku db.quotas })
  return id

-- Only a package is announced to Domain 2. `emitWebhook` swallows every error.
unfoldable pub announce : Env → ℕ → Sku → ℕ → Action Db ℕ
unfolding insert_event
announce env user sku id db =
    let update =
      build_subscription_update env.is_trial sku "active" env.now (billing_end_of env.now sku) in
    let payload = format_subscription_created env.now user env.purchase_token update in
    let key : DedupeKey = record { label = "subscription.created"; id = id; day = none } in
    let sent = insert_event env WebhookEvent.subscription_created user payload key db in
    if is_package sku.sku_type then (ok id, sent.1) else (ok id, db)

-- From the wallet on
unfoldable pub buy : Env → ℕ → Sku → Action Db ℕ
unfolding get_wallet
buy env user sku = do
  found ← get_wallet user
  wallet ← or_throw found wallet_not_found 404
  id ← transaction (purchase env user sku wallet.currency_id)
  announce env user sku id

-- `subscribe`. The plan and the existing package are read before the transaction; this is a call during
-- which no other writes. `buy` is what follows the reads, in whatever state it finds.
unfoldable pub subscribe : Env → ℕ → ℕ → Action Db ℕ
subscribe env user sku_id = do
  sku ← (reads (find_sku sku_id) >>= λ s. or_throw s sku_not_found 404)
  throw_if (not sku.is_active) sku_inactive 400
  existing ← reads (λ db. is_some (Table.find (live_package user) db.subscriptions))
  check_existing (is_package sku.sku_type) existing
  buy env user sku
