-- ===== src/Outbox/Worker/Handling.antt =====
-- What one run of `processEvent` makes of an event.
use subscription_be.Prelude.{
  ◌+◌, ◌≤◌, ◌≡◌, refl, Bool, false, none, some, inl, inr, arith, ◌==◌, leb, if◌then◌else◌,
  Bool-cases, count_where, find_first, find_first-update_found, find_first-sat, update_many,
  update_many_none, find_first-none, count_where-update_many_le,
}
use subscription_be.Db.{Db}
use subscription_be.Db.Table
use subscription_be.Db.Action.{ok}
use subscription_be.Db.Schema.{OutboxRow}
use subscription_be.Outbox.{
  pending_at, at_id, set_processing, set_completed, set_failed, set_retry, mark_processing,
  mark_completed, mark_failed, reschedule,
}
use subscription_be.Outbox.Worker.{
  Attempt, Delivery, response, network_error, retry_delay, schedule_retry, is_ok, is_fatal,
  handle_response, process_event,
}

-- A transient failure: another try after a delay, or the sixth one was the last.
abbrev pub retried : Attempt → Bool → OutboxRow → OutboxRow
retried a limited e =
    if leb 6 (e.attempts + 1)
    then set_failed a.finished e
    else set_retry a.finished (a.finished + retry_delay (e.attempts + 1) limited a.random) e

abbrev pub answered : Attempt → Delivery → OutboxRow → OutboxRow
answered a network_error e = retried a false e
answered a (response status) e =
    if is_ok status
    then set_completed a.finished e
    else if is_fatal status
    then set_failed a.finished e
    else retried a (status == 429) e

-- The row under the event's key, after an update by the key.
update-found :
    (f : OutboxRow → OutboxRow) (e : OutboxRow) (db : Db)
    → ((r : OutboxRow) → (f r).id ≡ r.id)
    → Table.find (at_id e.id) db.outbox ≡ some e
    → count_where (at_id e.id) db.outbox.rows ≤ 1
    → find_first (at_id e.id) (update_many (at_id e.id) f db.outbox.rows) ≡ some (f e)
update-found f e db same h one =
    let hit = find_first-sat (at_id e.id) db.outbox.rows e h in
    find_first-update_found (at_id e.id) (at_id e.id) (at_id e.id) f db.outbox.rows e h one hit hit
      (λ y k. ground (arith, same y)) (λ y k. ground (arith, same y))

schedule_retry_answers :
    (a : Attempt) (limited : Bool) (e : OutboxRow) (db : Db)
    → Table.find (at_id e.id) db.outbox ≡ some e
    → count_where (at_id e.id) db.outbox.rows ≤ 1
    → Table.find (at_id e.id) (schedule_retry a e limited db).1.outbox ≡ some (retried a limited e)
unfolding schedule_retry mark_failed reschedule
schedule_retry_answers a limited e db h one =
    let next = a.finished + retry_delay (e.attempts + 1) limited a.random in
    elim (Bool-cases (leb 6 (e.attempts + 1))) [
      | inl y ↦ simp y (update-found (set_failed a.finished) e db (λ r. refl) h one)
      | inr n ↦ simp n (update-found (set_retry a.finished next) e db (λ r. refl) h one)
    ]

handle_response_answers :
    (a : Attempt) (d : Delivery) (e : OutboxRow) (db : Db)
    → Table.find (at_id e.id) db.outbox ≡ some e
    → count_where (at_id e.id) db.outbox.rows ≤ 1
    → Table.find (at_id e.id) (handle_response a e d db).1.outbox ≡ some (answered a d e)
unfolding handle_response mark_completed mark_failed
handle_response_answers a network_error e db h one = schedule_retry_answers a false e db h one
handle_response_answers a (response status) e db h one = elim (Bool-cases (is_ok status)) [
  | inl y ↦ simp y (update-found (set_completed a.finished) e db (λ r. refl) h one)
  | inr n ↦ simp n (elim (Bool-cases (is_fatal status)) [
    | inl y ↦ simp y (update-found (set_failed a.finished) e db (λ r. refl) h one)
    | inr n' ↦ simp n' (schedule_retry_answers a (status == 429) e db h one)
  ])
]

-- An event that is not pending, such as one that another worker took, is left alone.
pub process_event_taken :
    (a : Attempt) (e : OutboxRow) (db : Db)
    → Table.find (pending_at e.id) db.outbox ≡ none
    → process_event a e db ≡ (ok tt, db)
unfolding process_event mark_processing
process_event_taken a e db h =
    rw
      (
        h,
        update_many_none (pending_at e.id) (set_processing a.started) db.outbox.rows
            (find_first-none (pending_at e.id) db.outbox.rows h),
      )
      refl

-- The row that one run on a pending event leaves.
pub process_event_row :
    (a : Attempt) (e : OutboxRow) (db : Db)
    → Table.find (pending_at e.id) db.outbox ≡ some e
    → count_where (at_id e.id) db.outbox.rows ≤ 1
    → Table.find (at_id e.id) (process_event a e db).1.outbox
      ≡ some (answered a a.delivery (set_processing a.started e))
unfolding process_event mark_processing
process_event_row a e db h one = rw h (
    handle_response_answers a a.delivery (set_processing a.started e)
      (record db { outbox = Table.update (pending_at e.id) (set_processing a.started) db.outbox })
      (find_first-update_found (pending_at e.id) (pending_at e.id) (at_id e.id)
        (set_processing a.started) db.outbox.rows e h one (ground arith)
        (find_first-sat (pending_at e.id) db.outbox.rows e h) (λ y k. k) (λ y k. k))
      (omega (
        arith,
        one,
        count_where-update_many_le (at_id e.id) (pending_at e.id) (set_processing a.started)
            db.outbox.rows (λ y k l. l),
      )))
