-- ===== src/Outbox/Frame.antt =====
-- What an insertion into the outbox leaves alone.
use subscription_be.Prelude.{ℕ, inl, inr, Bool-cases, is_some}
use subscription_be.Db.{Db}
use subscription_be.Db.Table
use subscription_be.Db.Schema.{OutboxRow}
use subscription_be.Outbox.{Env, DedupeKey, idempotency_key, insert_event, keyed, outbox_row}
use subscription_be.Webhook.{WebhookEvent, WebhookPayload}

-- It writes the outbox, and nothing else.
pub insert_event-frame :
    (P : Db → Type 0) (env : Env) (event : WebhookEvent) (company : ℕ) (payload : WebhookPayload)
    (key : DedupeKey) (db : Db)
    → ((o : Table.Table OutboxRow) → P (record db { outbox = o }))
    → P (insert_event env event company payload key db).1
unfolding insert_event
insert_event-frame P env event company payload key db h =
    elim (Bool-cases (is_some (Table.find (keyed (idempotency_key env event key)) db.outbox))) [
      | inl y ↦ rw y (h db.outbox)
      | inr n ↦ rw n (h (Table.create (outbox_row env event company payload key) db.outbox))
    ]
