-- ===== src/Tests/Events.antt =====
-- The outbox and its worker at concrete inputs.
use subscription_be.Prelude.{
  ◌+◌, ◌*◌, ◌≤◌, ◌<◌, ◌≡◌, refl, false, none, [], ◌∷◌, arith, count_where,
}
use subscription_be.Db.{Db}
use subscription_be.Db.Action.{ok}
use subscription_be.Db.Schema.{OutboxRow}
use subscription_be.Outbox.{
  Env, DedupeKey, insert_event, keyed, idempotency_key, pending_at, outbox_row,
}
use subscription_be.Outbox.Dedupe.{insert_event_once}
use subscription_be.Outbox.Worker.{Attempt, response, network_error, process_event, retry_delay}
use subscription_be.Outbox.Worker.Verdict.{IsHandled, process_event-IsHandled}
use subscription_be.Outbox.Worker.Retry.{attempt_all, attempt_all_gives_up}
use subscription_be.Outbox.Worker.Backoff.{retry_delay-bounds}
use subscription_be.Webhook.{WebhookEvent, WebhookPayload}
use subscription_be.Webhook.Formatters.{format_subscription_cancelled}
use subscription_be.Tests.{test_env, test_db}

abbrev cancel_key : DedupeKey
cancel_key = record { label = "subscription.cancelled"; id = 1; day = none }

abbrev cancel_payload : WebhookPayload
cancel_payload = format_subscription_cancelled 864000000 7 "token-0"

abbrev test_event : OutboxRow
test_event = outbox_row test_env WebhookEvent.subscription_cancelled 7 cancel_payload cancel_key 1

-- One event is waiting.
abbrev waiting_db : Db
waiting_db = record test_db { outbox = record { rows = test_event ∷ []; next_id = 2 } }

abbrev refused : Attempt
refused = record {
  started = 864001000;
  finished = 864002000;
  delivery = response 503;
  random = 500000;
}

abbrev unreachable : Attempt
unreachable = record refused { delivery = network_error }

-- A day later, with another random token
abbrev later_env : Env
later_env = record test_env { now = 950400000; purchase_token = "token-2"; order_number = "SUB-2" }

insert_event_once_example :
    let db' =
      (insert_event test_env WebhookEvent.subscription_cancelled 7 cancel_payload cancel_key
        test_db).1 in
    (count_where
        (keyed (idempotency_key test_env WebhookEvent.subscription_cancelled cancel_key))
        db'.outbox.rows
      ≡ 1)
    × (insert_event later_env WebhookEvent.subscription_cancelled 8 cancel_payload cancel_key db'
        ≡ (ok tt, db'))
insert_event_once_example =
    insert_event_once test_env later_env WebhookEvent.subscription_cancelled 7 8 cancel_payload
      cancel_payload cancel_key test_db refl (λ key. ground arith)

process_event-IsHandled_example :
    IsHandled refused test_event (process_event refused test_event waiting_db).1
process_event-IsHandled_example =
    process_event-IsHandled refused test_event waiting_db (ground arith) refl (ground arith)

attempt_all_gives_up_example :
    count_where
      (pending_at 1)
      (attempt_all
        (refused ∷ unreachable ∷ refused ∷ unreachable ∷ refused ∷ unreachable ∷ [])
        1
        waiting_db).outbox.rows
    ≡ 0
attempt_all_gives_up_example =
    attempt_all_gives_up
      (refused ∷ unreachable ∷ refused ∷ unreachable ∷ refused ∷ unreachable ∷ []) test_event 1
      waiting_db refl (ground arith) (ground arith) (ground arith)

retry_delay-bounds_example :
    (9 * 60000 < 10 * (retry_delay 1 false 250000 + 1))
    × (10 * retry_delay 1 false 250000 ≤ 11 * 60000)
retry_delay-bounds_example = retry_delay-bounds 1 false 250000 (ground arith)
