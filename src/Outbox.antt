-- ===== src/Outbox.antt =====
-- src/shared/services/webhook-outbox.service.ts and src/shared/repositories/webhook-outbox.repository.ts:
-- the outbox of events for Domain 2.
pub mod Frame
pub mod Worker
pub mod Dedupe
use Prim.Native.String.{◌++◌ as text_append}
use subscription_be.Prelude.{
  ℕ, ◌+◌, ◌-◌, String, Bool, true, false, not, ◌&&◌, Option, none, some, List, [], ◌∷◌, ◌==◌, ltb,
  leb, str_eq, if◌then◌else◌, is_some, take,
}
use subscription_be.Db.{Db}
use subscription_be.Db.Table
use subscription_be.Db.Action.{Action, ok, reads, writes}
use subscription_be.Db.Schema.{OutboxRow, OutboxStatus, pending, processing, completed, failed}
use subscription_be.Webhook.{WebhookEvent, WebhookPayload}

-- `eventType.replace('.', '_')`
abbrev event_short : WebhookEvent → String
event_short WebhookEvent.subscription_created = "subscription_created"
event_short WebhookEvent.subscription_sync = "subscription_sync"
event_short WebhookEvent.subscription_renewed = "subscription_renewed"
event_short WebhookEvent.subscription_upgraded = "subscription_upgraded"
event_short WebhookEvent.subscription_downgraded = "subscription_downgraded"
event_short WebhookEvent.subscription_expired = "subscription_expired"
event_short WebhookEvent.subscription_cancelled = "subscription_cancelled"
event_short WebhookEvent.addon_expired = "addon_expired"
event_short WebhookEvent.addon_renewed = "addon_renewed"

-- A dedupe key `label:id` or `label:id:day`, such as `subscription.expired:42:2026-06-25`.
pub record DedupeKey : Type 0 where
  pub label : String
  pub id : ℕ
  pub day : Option ℕ

-- What a service takes from its surroundings: the clock, the random token of the purchase, the
-- order's number, SHA-256 (the first 16 digits, of the key's text), and the text search for "trial"
-- in a plan's code.
pub record Env : Type 0 where
  pub now : ℕ
  pub purchase_token : String
  pub order_number : String
  pub digest : DedupeKey → String
  pub is_trial : String → Bool

-- `d1_${eventShort}_${digest}`
unfoldable pub idempotency_key : Env → WebhookEvent → DedupeKey → String
idempotency_key env event key =
    text_append "d1_" (text_append (event_short event) (text_append "_" (env.digest key)))

abbrev pub outbox_row : Env → WebhookEvent → ℕ → WebhookPayload → DedupeKey → ℕ → OutboxRow
outbox_row env event company payload key id = record {
  id = id;
  idempotency_key = idempotency_key env event key;
  event_type = event;
  company_id = company;
  payload = payload;
  status = pending;
  attempts = 0;
  next_attempt_at = env.now;
  created_at = env.now;
  updated_at = env.now;
}

abbrev pub keyed : String → OutboxRow → Bool
keyed key r = str_eq r.idempotency_key key

-- `insertEvent` with a dedupe key, which every modelled caller gives. The unique index on the key
-- refuses a duplicate, and that error is swallowed.
unfoldable pub insert_event :
    Env → WebhookEvent → ℕ → WebhookPayload → DedupeKey → Action Db (Unit {0})
insert_event env event company payload key db =
    if is_some (Table.find (keyed (idempotency_key env event key)) db.outbox)
    then (ok tt, db)
    else (
      ok tt,
      record db { outbox = Table.create (outbox_row env event company payload key) db.outbox },
    )

-- `orderBy: { created_at: 'asc' }`
abbrev insert_sorted : OutboxRow → List OutboxRow → List OutboxRow
insert_sorted r [] = r ∷ []
insert_sorted r (x ∷ xs) =
    let later = insert_sorted r xs in
    if leb r.created_at x.created_at then r ∷ x ∷ xs else x ∷ later

abbrev sort_by_created : List OutboxRow → List OutboxRow
sort_by_created [] = []
sort_by_created (x ∷ xs) = insert_sorted x (sort_by_created xs)

abbrev pub is_pending : OutboxStatus → Bool
is_pending pending = true
is_pending _ = false

abbrev pub is_processing : OutboxStatus → Bool
is_processing processing = true
is_processing _ = false

abbrev pub is_due : ℕ → OutboxRow → Bool
is_due now r = is_pending r.status && leb r.next_attempt_at now

-- `fetchPending`
unfoldable pub fetch_pending : ℕ → ℕ → Action Db (List OutboxRow)
fetch_pending now batch =
    reads (λ db. take batch (sort_by_created (Table.select (is_due now) db.outbox)))

abbrev pub is_stale : ℕ → ℕ → OutboxRow → Bool
is_stale now timeout r = is_processing r.status && ltb r.updated_at (now - timeout)

abbrev pub reclaim : ℕ → OutboxRow → OutboxRow
reclaim now r = record r { status = pending; next_attempt_at = now; updated_at = now }

-- `recoverStaleProcessing`, with the count that it returns
unfoldable pub recover_stale_processing : ℕ → ℕ → Action Db ℕ
recover_stale_processing now timeout db = (
  ok (Table.count (is_stale now timeout) db.outbox),
  record db { outbox = Table.update (is_stale now timeout) (reclaim now) db.outbox },
)

abbrev pub pending_at : ℕ → OutboxRow → Bool
pending_at id r = r.id == id && is_pending r.status

abbrev pub set_processing : ℕ → OutboxRow → OutboxRow
set_processing now r = record r { status = processing; updated_at = now }

-- `markProcessing`: whether a row was still pending
unfoldable pub mark_processing : ℕ → ℕ → Action Db Bool
mark_processing now id db = (
  ok (is_some (Table.find (pending_at id) db.outbox)),
  record db { outbox = Table.update (pending_at id) (set_processing now) db.outbox },
)

abbrev pub at_id : ℕ → OutboxRow → Bool
at_id id r = r.id == id

abbrev pub set_completed : ℕ → OutboxRow → OutboxRow
set_completed now r = record r { status = completed; updated_at = now }

-- `markCompleted`
unfoldable pub mark_completed : ℕ → ℕ → Action Db (Unit {0})
mark_completed now id =
    writes (λ db. record db { outbox = Table.update (at_id id) (set_completed now) db.outbox })

abbrev pub set_failed : ℕ → OutboxRow → OutboxRow
set_failed now r = record r { status = failed; updated_at = now }

-- `markFailed`
unfoldable pub mark_failed : ℕ → ℕ → Action Db (Unit {0})
mark_failed now id =
    writes (λ db. record db { outbox = Table.update (at_id id) (set_failed now) db.outbox })

abbrev pub set_retry : ℕ → ℕ → OutboxRow → OutboxRow
set_retry now next r = record r {
  status = pending;
  attempts = r.attempts + 1;
  next_attempt_at = next;
  updated_at = now;
}

-- `scheduleRetry` of the repository
unfoldable pub reschedule : ℕ → ℕ → ℕ → Action Db (Unit {0})
reschedule now id next =
    writes (λ db. record db { outbox = Table.update (at_id id) (set_retry now next) db.outbox })
