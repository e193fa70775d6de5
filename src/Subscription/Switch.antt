-- ===== src/Subscription/Switch.antt =====
-- `ClientSubscriptionService.switchPlan`, with `executePlanSwitchTransaction` of the repository.
use subscription_be.Prelude.{
  ℕ, String, Bool, not, ◌||◌, Option, none, some, List, [], ◌==◌, ltb, str_eq, if◌then◌else◌, any,
  find_many, find_first,
}
use subscription_be.Db.{Db}
use subscription_be.Db.Table
use subscription_be.Db.Action.{
  Action, ok, ◌>>=◌, ◌>>◌, return, or_throw, throw_if, reads, writes, transaction, sku_not_found,
  subscription_not_found, forbidden, subscription_not_active, invalid_switch_type, invalid_new_sku,
  already_on_plan, wallet_not_found, insufficient_balance, unique_violation, invalid_column_value,
}
use subscription_be.Db.Schema.{
  Sku, Subscription, Wallet, SubscriptionEventType, PlanSwitchType, upgrade, downgrade, crossgrade,
}
use subscription_be.Wallet.{owned_by, get_wallet, debit, record_spend}
use subscription_be.Outbox.{Env, DedupeKey, insert_event}
use subscription_be.Webhook.{WebhookEvent, SubscriptionUpdate, WebhookPayload}
use subscription_be.Webhook.Formatters.{
  format_subscription_upgraded, format_subscription_downgraded, format_subscription_sync,
}
use subscription_be.Webhook.Mapper.{build_subscription_update}
use subscription_be.Subscription.Rows.{
  find_sku, is_package, is_active_status, by_id, billing_end_of, subscription_row, purchase_row,
  cycle_row, event_row, mirror_benefits, is_fractional, keys_taken,
}
use subscription_be.Subscription.Cancel.{mark_cancelled}

-- "Determine Switch Type", from the old plan's rank and the new one's
unfoldable pub switch_type_of : ℕ → ℕ → PlanSwitchType
switch_type_of old new =
    if ltb old new then upgrade else if ltb new old then downgrade else crossgrade

-- The plan that a subscription includes (`sku`): the foreign key, deleted or not.
abbrev pub sku_of : Subscription → Db → Option Sku
sku_of s db = find_first (λ k. k.id == s.sku_id) db.skus

abbrev pub rank_of : Option Sku → ℕ
rank_of none = 0
rank_of (some k) = k.rank

-- `extractFeatures(oldSubscription.sku ?? { features: [] })`: `findById` includes deleted features
abbrev pub features_of : Option Sku → List String
features_of none = []
features_of (some k) = k.all_features

-- `features.filter((f) => !newFeatures.includes(f))`
unfoldable pub removed_features : List String → List String → List String
removed_features old new = find_many (λ f. not (any (λ g. str_eq g f) new)) old

-- Steps 3 to 8: the new subscription with its order, cycle, events and the record of the switch
unfoldable pub open_switched : Env → ℕ → Subscription → Sku → PlanSwitchType → Db → Db
open_switched env user old sku type db =
    let key = db.subscriptions.next_id in
    let end = billing_end_of env.now sku in
    let activation =
      event_row key (some db.billing_cycles.next_id) SubscriptionEventType.activated in
    let switched = event_row key none SubscriptionEventType.plan_switched in
    record db {
      subscriptions =
          Table.create (subscription_row user sku.id sku.sku_type env.purchase_token env.now end)
            db.subscriptions;
      orders = Table.create (purchase_row key user sku.id env.order_number sku.coin_cost) db.orders;
      billing_cycles = Table.create (cycle_row key db.orders.next_id env.now end) db.billing_cycles;
      events = Table.create switched (Table.create activation db.events);
      plan_switches =
          Table.create
            (λ id. record {
              id = id;
              user_id = user;
              old_subscription_id = old.id;
              new_subscription_id = key;
              old_sku_id = old.sku_id;
              new_sku_id = sku.id;
              switch_type = type;
            })
            db.plan_switches;
    }

-- `executePlanSwitchTransaction`: the debit comes first. The result is the new subscription's id.
unfoldable pub execute_plan_switch : Env → ℕ → Subscription → Sku → PlanSwitchType → ℕ → Action Db ℕ
unfolding debit mark_cancelled open_switched
execute_plan_switch env user old sku type currency = do
  found ← reads (λ db. Table.find (owned_by user) db.wallets)
  wallet ← or_throw found wallet_not_found 404
  count ← debit user sku.coin_cost
  throw_if (count == 0) insufficient_balance 400
  writes (mark_cancelled env.now old.id)
  taken ← reads (keys_taken env.purchase_token env.order_number)
  throw_if taken unique_violation 500
  throw_if (is_fractional sku.coin_cost) invalid_column_value 500
  id ← reads (λ db. db.subscriptions.next_id)
  writes (open_switched env user old sku type)
  writes (λ db. record db { quotas = mirror_benefits user id sku.benefits db.quotas })
  writes (record_spend wallet.id user sku.coin_cost currency id)
  return id

abbrev pub switch_event : PlanSwitchType → WebhookEvent
switch_event upgrade = WebhookEvent.subscription_upgraded
switch_event downgrade = WebhookEvent.subscription_downgraded
switch_event crossgrade = WebhookEvent.subscription_sync

abbrev pub switch_label : PlanSwitchType → String
switch_label upgrade = "subscription.upgraded"
switch_label downgrade = "subscription.downgraded"
switch_label crossgrade = "subscription.sync"

abbrev pub switch_payload :
    PlanSwitchType → ℕ → ℕ → String → SubscriptionUpdate → List String → WebhookPayload
switch_payload upgrade now user token update removed =
    format_subscription_upgraded now user token update
switch_payload downgrade now user token update removed =
    format_subscription_downgraded now user token update removed
switch_payload crossgrade now user token update removed =
    format_subscription_sync now user token update

-- "Tell Domain 2 about the tier change."
unfoldable pub announce_switch : Env → ℕ → Option Sku → Sku → PlanSwitchType → ℕ → Action Db ℕ
unfolding insert_event removed_features
announce_switch env user old_sku sku type id db =
    let update =
      build_subscription_update env.is_trial sku "active" env.now (billing_end_of env.now sku) in
    let removed = removed_features (features_of old_sku) sku.features in
    let payload = switch_payload type env.now user env.purchase_token update removed in
    let key : DedupeKey = record { label = switch_label type; id = id; day = none } in
    (ok id, (insert_event env (switch_event type) user payload key db).1)

abbrev pub short_of_coins : ℕ → Wallet → Bool
short_of_coins cost w = ltb w.balance cost

-- `switchPlan`. Every check stands before the transaction; this is a call during which no other writes.
unfoldable pub switch_plan : Env → ℕ → ℕ → ℕ → Action Db ℕ
unfolding get_wallet
switch_plan env user id new_sku_id = do
  found ← reads (λ db. Table.find (by_id id) db.subscriptions)
  old ← or_throw found subscription_not_found 404
  throw_if (not (old.user_id == user)) forbidden 403
  throw_if (not (is_active_status old.status)) subscription_not_active 400
  throw_if (not (is_package old.sku_type)) invalid_switch_type 400
  found_sku ← reads (find_sku new_sku_id)
  sku ← or_throw found_sku sku_not_found 404
  throw_if (not sku.is_active || not (is_package sku.sku_type)) invalid_new_sku 400
  throw_if (old.sku_id == new_sku_id) already_on_plan 400
  old_sku ← reads (sku_of old)
  found_wallet ← get_wallet user
  wallet ← or_throw found_wallet wallet_not_found 404
  throw_if (short_of_coins sku.coin_cost wallet) insufficient_balance 400
  let type = switch_type_of (rank_of old_sku) sku.rank
  new_id ← transaction (execute_plan_switch env user old sku type wallet.currency_id)
  announce_switch env user old_sku sku type new_id
