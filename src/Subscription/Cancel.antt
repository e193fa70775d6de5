-- ===== src/Subscription/Cancel.antt =====
-- `ClientSubscriptionService.cancelSubscription`.
use Prim.Native.String.{◌++◌ as text_append}
use subscription_be.Prelude.{ℕ, String, Bool, true, false, not, none, some, ◌==◌}
use subscription_be.Db.{Db}
use subscription_be.Db.Table
use subscription_be.Db.Action.{
  Action, ◌>>=◌, ◌>>◌, or_throw, throw_if, reads, writes, subscription_not_found, forbidden,
  already_cancelled,
}
use subscription_be.Db.Schema.{Subscription, SubscriptionStatus, cancelled, SubscriptionEventType}
use subscription_be.Outbox.{Env, insert_event}
use subscription_be.Webhook.{WebhookEvent}
use subscription_be.Webhook.Formatters.{format_subscription_cancelled}
use subscription_be.Subscription.Rows.{by_id, event_row}

abbrev pub is_cancelled : SubscriptionStatus → Bool
is_cancelled cancelled = true
is_cancelled _ = false

abbrev pub cancel_row : ℕ → Subscription → Subscription
cancel_row now s = record s { status = cancelled; canceled_at = some now }

-- `where: { id }`
abbrev pub with_id : ℕ → Subscription → Bool
with_id id s = s.id == id

-- `updateStatus(id, 'CANCELLED', { canceled_at })` and `createEvent`
unfoldable pub mark_cancelled : ℕ → ℕ → Db → Db
mark_cancelled now id db = record db {
  subscriptions = Table.update (with_id id) (cancel_row now) db.subscriptions;
  events = Table.create (event_row id none SubscriptionEventType.canceled) db.events;
}

-- `purchase_token ?? sub_${id}`; `show` prints a key
abbrev pub external_id : (ℕ → String) → Subscription → String
external_id show s = elim s.purchase_token [ none ↦ text_append "sub_" (show s.id) | some t ↦ t ]

unfoldable pub cancel_subscription : Env → (ℕ → String) → ℕ → ℕ → Action Db (Unit {0})
unfolding mark_cancelled insert_event
cancel_subscription env show user id = do
  found ← reads (λ db. Table.find (by_id id) db.subscriptions)
  s ← or_throw found subscription_not_found 404
  throw_if (not (s.user_id == user)) forbidden 403
  throw_if (is_cancelled s.status) already_cancelled 400
  writes (mark_cancelled env.now id)
  insert_event env WebhookEvent.subscription_cancelled user
      (format_subscription_cancelled env.now user (external_id show s))
      (record { label = "subscription.cancelled"; id = id; day = none })
