-- ===== src/Outbox/Worker.antt =====
-- src/workers/outbox.worker.ts: the worker that delivers the outbox to Domain 2.
pub mod Handling
pub mod Retry
pub mod Backoff
pub mod Verdict
use subscription_be.Prelude.{
  ℕ, zero, suc, ◌+◌, ◌*◌, ◌/◌, Bool, true, false, ◌&&◌, ◌||◌, Option, none, some, List, [], ◌∷◌,
  ◌==◌, leb, if◌then◌else◌, or_else,
}
use subscription_be.Db.{Db}
use subscription_be.Db.Table
use subscription_be.Db.Action.{Action, ok, err, ◌>>=◌, ◌>>◌, return}
use subscription_be.Db.Schema.{OutboxRow}
use subscription_be.Outbox.{
  fetch_pending, recover_stale_processing, mark_processing, mark_completed, mark_failed, reschedule,
}

-- What `fetch` gives: a response with its HTTP status, or a throw (network error, timeout).
pub data Delivery : Type 0 where
  response : ℕ → Delivery
  network_error : Delivery

-- One run of `processEvent`: the clock before and after the request, what the request gives, and
-- `Math.random()` in millionths.
pub record Attempt : Type 0 where
  pub started : ℕ
  pub finished : ℕ
  pub delivery : Delivery
  pub random : ℕ

-- `RETRY_DELAYS_MS`
abbrev pub retry_delays : List ℕ
retry_delays = 0 ∷ 60000 ∷ 300000 ∷ 1800000 ∷ 7200000 ∷ 43200000 ∷ []

abbrev pub max_retry_attempts : ℕ
max_retry_attempts = 6

abbrev nth_delay : List ℕ → ℕ → Option ℕ
nth_delay [] n = none
nth_delay (d ∷ ds) zero = some d
nth_delay (d ∷ ds) (suc n) = nth_delay ds n

abbrev last_delay : List ℕ → Option ℕ
last_delay [] = none
last_delay (d ∷ []) = some d
last_delay (d ∷ e ∷ ds) = last_delay (e ∷ ds)

-- `RETRY_DELAYS_MS[n] ?? RETRY_DELAYS_MS[RETRY_DELAYS_MS.length - 1] ?? 0`
abbrev pub base_delay : ℕ → ℕ
base_delay n = or_else (nth_delay retry_delays n) (or_else (last_delay retry_delays) 0)

-- Doubled for a 429, and with a jitter of `delayMs * 0.1 * (Math.random() * 2 - 1)`; a `Date` keeps
-- whole milliseconds.
unfoldable pub retry_delay : ℕ → Bool → ℕ → ℕ
retry_delay n is_rate_limited random =
    let delay = if is_rate_limited then base_delay n * 2 else base_delay n in
    delay * (9000000 + 2 * random) / 10000000

-- `scheduleRetry` of the worker
unfoldable pub schedule_retry : Attempt → OutboxRow → Bool → Action Db (Unit {0})
unfolding retry_delay mark_failed reschedule
schedule_retry a event is_rate_limited =
    let next = event.attempts + 1 in
    if leb max_retry_attempts next
    then mark_failed a.finished event.id
    else reschedule a.finished event.id (a.finished + retry_delay next is_rate_limited a.random)

-- `response.ok`
abbrev pub is_ok : ℕ → Bool
is_ok status = leb 200 status && leb status 299

abbrev pub is_fatal : ℕ → Bool
is_fatal status = status == 401 || status == 422

-- "Step 4: Handle response"
unfoldable pub handle_response : Attempt → OutboxRow → Delivery → Action Db (Unit {0})
unfolding schedule_retry mark_completed mark_failed
handle_response a event network_error = schedule_retry a event false
handle_response a event (response status) =
    if is_ok status
    then mark_completed a.finished event.id
    else if is_fatal status
    then mark_failed a.finished event.id
    else schedule_retry a event (status == 429)

-- `processEvent`
unfoldable pub process_event : Attempt → OutboxRow → Action Db (Unit {0})
unfolding mark_processing handle_response
process_event a event = do
  locked ← mark_processing a.started event.id
  if locked then handle_response a event a.delivery else return tt

abbrev process_events : (OutboxRow → Attempt) → List OutboxRow → Action Db (Unit {0})
process_events run [] = return tt
process_events run (e ∷ es) = process_event (run e) e >> process_events run es

-- `poll`, where no poll of this process is running; `run` is what happens to each event
unfoldable pub poll : ℕ → (OutboxRow → Attempt) → Action Db (Unit {0})
unfolding recover_stale_processing fetch_pending process_event
poll now run = do
  reclaimed ← recover_stale_processing now 120000
  events ← fetch_pending now 50
  process_events run events
