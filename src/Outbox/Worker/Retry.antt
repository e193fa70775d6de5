-- ===== src/Outbox/Worker/Retry.antt =====
-- Repeated deliveries of one event.
use mathlib.Core.Path.{subst, subst⁻¹}
use subscription_be.Prelude.{
  is_some, ◌⊎◌, ℕ, ◌+◌, ◌≤◌, ◌<◌, ◌≡◌, refl, ap, Bool, true, false, Option, none, some, List, [],
  ◌∷◌, inl, inr, arith, length, leb, Bool-cases, count_where, find_first, find_first-sat,
  find_first_of_count, count_where-update_many_le, update_many, ◌==◌, count_where_mono,
}
use subscription_be.Db.{Db}
use subscription_be.Db.Table
use subscription_be.Db.Action.{Result}
use subscription_be.Db.Schema.{OutboxRow}
use subscription_be.Outbox.{
  pending_at, at_id, is_pending, mark_processing, mark_completed, mark_failed, reschedule,
  set_processing, set_completed, set_failed, set_retry,
}
use subscription_be.Outbox.Worker.{
  Attempt, Delivery, response, network_error, process_event, handle_response, schedule_retry, is_ok,
  is_fatal, retry_delay,
}
use subscription_be.Outbox.Worker.Handling.{
  process_event_row, process_event_taken, answered, retried,
}

-- The event under a key is processed once for each attempt, as it then is.
abbrev attempt_found : Attempt → Option OutboxRow → Db → Db
attempt_found a none db = db
attempt_found a (some e) db = (process_event a e db).1

abbrev pub attempt_all : List Attempt → ℕ → Db → Db
attempt_all [] id db = db
attempt_all (a ∷ as_) id db =
    attempt_all as_ id (attempt_found a (Table.find (at_id id) db.outbox) db)

-- A row that is no longer pending, or that has one attempt more and is not at the limit.
abbrev Settles : ℕ → OutboxRow → Type 0
Settles n r = (is_pending r.status ≡ false) ⊎ ((r.attempts ≡ n + 1) × (n + 1 < 6))

retried-Settles :
    (a : Attempt) (limited : Bool) (e : OutboxRow) → Settles e.attempts (retried a limited e)
retried-Settles a limited e = elim (Bool-cases (leb 6 (e.attempts + 1))) [
  | inl y ↦ simp y (inl refl)
  | inr n ↦ simp n (inr (refl, ground arith))
]

answered-Settles :
    (a : Attempt) (d : Delivery) (e : OutboxRow) → Settles e.attempts (answered a d e)
answered-Settles a network_error e = retried-Settles a false e
answered-Settles a (response status) e = elim (Bool-cases (is_ok status)) [
  | inl y ↦ simp y (inl refl)
  | inr n ↦ simp n (elim (Bool-cases (is_fatal status)) [
    | inl y ↦ simp y (inl refl)
    | inr n' ↦ simp n' (retried-Settles a (status == 429) e)
  ])
]

-- A delivery only updates rows, and keeps their keys.
module _ (P : List OutboxRow → Type 0)
    (closed : (q : OutboxRow → Bool) (f : OutboxRow → OutboxRow) (rows : List OutboxRow)
      → ((r : OutboxRow) → (f r).id ≡ r.id)
      → P rows
      → P (update_many q f rows)) where
  schedule_retry-keeps :
      (a : Attempt) (limited : Bool) (e : OutboxRow) (db : Db)
      → P db.outbox.rows
      → P (schedule_retry a e limited db).1.outbox.rows
  unfolding schedule_retry mark_failed reschedule
  schedule_retry-keeps a limited e db h =
      let next = a.finished + retry_delay (e.attempts + 1) limited a.random in
      elim (Bool-cases (leb 6 (e.attempts + 1))) [
        | inl y ↦ simp y (closed (at_id e.id) (set_failed a.finished) db.outbox.rows (λ r. refl) h)
        | inr n ↦
            simp n (closed (at_id e.id) (set_retry a.finished next) db.outbox.rows (λ r. refl) h)
      ]

  handle_response-keeps :
      (a : Attempt) (d : Delivery) (e : OutboxRow) (db : Db)
      → P db.outbox.rows
      → P (handle_response a e d db).1.outbox.rows
  unfolding handle_response mark_completed mark_failed
  handle_response-keeps a network_error e db h = schedule_retry-keeps a false e db h
  handle_response-keeps a (response status) e db h = elim (Bool-cases (is_ok status)) [
    | inl y ↦ simp y (closed (at_id e.id) (set_completed a.finished) db.outbox.rows (λ r. refl) h)
    | inr n ↦ simp n (elim (Bool-cases (is_fatal status)) [
      | inl y ↦ simp y (closed (at_id e.id) (set_failed a.finished) db.outbox.rows (λ r. refl) h)
      | inr n' ↦ simp n' (schedule_retry-keeps a (status == 429) e db h)
    ])
  ]

  process_event-keeps :
      (a : Attempt) (e : OutboxRow) (db : Db)
      → P db.outbox.rows
      → P (process_event a e db).1.outbox.rows
  unfolding process_event mark_processing
  process_event-keeps a e db h =
      let locked =
        closed (pending_at e.id) (set_processing a.started) db.outbox.rows (λ r. refl) h in
      elim (Bool-cases (is_some (Table.find (pending_at e.id) db.outbox))) [
        | inl y ↦ rw y (
            handle_response-keeps a a.delivery e
              (record db {
                outbox = Table.update (pending_at e.id) (set_processing a.started) db.outbox;
              })
              locked)
        | inr n ↦ rw n locked
      ]

one_row-process_event :
    (a : Attempt) (e : OutboxRow) (db : Db) (id : ℕ)
    → count_where (at_id id) db.outbox.rows ≤ 1
    → count_where (at_id id) (process_event a e db).1.outbox.rows ≤ 1
one_row-process_event a e db id h =
    process_event-keeps (λ rows. count_where (at_id id) rows ≤ 1)
      (λ q f rows same k. omega (
        arith,
        k,
        count_where-update_many_le (at_id id) q f rows (λ r hit l. ground (arith, same r)),
      ))
      a e db h

-- An event that is not pending stays as it is.
attempt_all_settled :
    (as_ : List Attempt) (e : OutboxRow) (id : ℕ) (db : Db)
    → Table.find (at_id id) db.outbox ≡ some e
    → count_where (pending_at id) db.outbox.rows ≡ 0
    → attempt_all as_ id db ≡ db
attempt_all_settled [] e id db h none_pending = refl
attempt_all_settled (a ∷ as_) e id db h none_pending =
    let same : id ≡ e.id = ground (arith, find_first-sat (at_id id) db.outbox.rows e h) in
    let taken =
      find_first_of_count (pending_at e.id) db.outbox.rows
        (subst (λ (k : ℕ). count_where (pending_at k) db.outbox.rows ≡ 0) same none_pending) in
    rw (h, ap (λ (r : Result (Unit {0}) × Db). r.1) (process_event_taken a e db taken))
      (attempt_all_settled as_ e id db h none_pending)

-- With one row under the key, and that not pending, no row under it is pending.
none_pending :
    (rows : List OutboxRow) (e : OutboxRow) (id : ℕ)
    → find_first (at_id id) rows ≡ some e
    → count_where (at_id id) rows ≤ 1
    → is_pending e.status ≡ false
    → count_where (pending_at id) rows ≡ 0
none_pending [] e id h one final = refl
none_pending (r ∷ rows) e id h one final = ground (
  arith,
  none_pending rows e id,
  count_where_mono (at_id id) (pending_at id) rows (λ x hit. ground arith),
)

attempt_all_step :
    (a : Attempt) (as_ : List Attempt) (e : OutboxRow) (id : ℕ) (db : Db)
    → Table.find (at_id id) db.outbox ≡ some e
    → attempt_all (a ∷ as_) id db ≡ attempt_all as_ id (process_event a e db).1
attempt_all_step a as_ e id db h =
    ap (λ (o : Option OutboxRow). attempt_all as_ id (attempt_found a o db)) h

find_pending :
    (rows : List OutboxRow) (e : OutboxRow) (id : ℕ)
    → find_first (at_id id) rows ≡ some e
    → is_pending e.status ≡ true
    → find_first (pending_at id) rows ≡ some e
find_pending [] e id h on = ground arith
find_pending (r ∷ rows) e id h on = ground (arith, find_pending rows e id)

-- What one attempt makes of a pending event.
answer :
    (a : Attempt) (e : OutboxRow) (id : ℕ) (db : Db)
    → Table.find (at_id id) db.outbox ≡ some e
    → count_where (at_id id) db.outbox.rows ≤ 1
    → is_pending e.status ≡ true
    → Table.find (at_id id) (process_event a e db).1.outbox
      ≡ some (answered a a.delivery (set_processing a.started e))
answer a e id db h one on =
    let same : e.id ≡ id = ground (arith, find_first-sat (at_id id) db.outbox.rows e h) in
    let p : id ≡ e.id = ground arith in
    let found =
      subst (λ (k : ℕ). find_first (pending_at k) db.outbox.rows ≡ some e) p
        (find_pending db.outbox.rows e id h on) in
    subst
      (λ (k : ℕ).
        Table.find (at_id k) (process_event a e db).1.outbox
        ≡ some (answered a a.delivery (set_processing a.started e)))
      same
      (process_event_row a e db found
        (subst (λ (k : ℕ). count_where (at_id k) db.outbox.rows ≤ 1) p one))

-- An event that is tried six times, counting the attempts it has had, is pending no longer,
-- whatever the deliveries give; this holds where one row has its key and is not at the limit.
pub attempt_all_gives_up :
    (as_ : List Attempt) (e : OutboxRow) (id : ℕ) (db : Db)
    → Table.find (at_id id) db.outbox ≡ some e
    → count_where (at_id id) db.outbox.rows ≤ 1
    → e.attempts < 6
    → 6 ≤ e.attempts + length as_
    → count_where (pending_at id) (attempt_all as_ id db).outbox.rows ≡ 0
attempt_all_gives_up [] e id db h one below enough = ground arith
attempt_all_gives_up (a ∷ as_) e id db h one below enough =
    let e' = answered a a.delivery (set_processing a.started e) in
    let db' = (process_event a e db).1 in
    subst⁻¹ (λ (d : Db). count_where (pending_at id) d.outbox.rows ≡ 0)
      (attempt_all_step a as_ e id db h)
      (elim (Bool-cases (is_pending e.status)) [
        | inl on ↦
            let found' = answer a e id db h one on in
            let one' = one_row-process_event a e db id one in
            elim (answered-Settles a a.delivery (set_processing a.started e)) [
              | inl final ↦
                  let none' = none_pending db'.outbox.rows e' id found' one' final in
                  subst⁻¹ (λ (d : Db). count_where (pending_at id) d.outbox.rows ≡ 0)
                    (attempt_all_settled as_ e' id db' found' none') none'
              | inr (more, fits) ↦
                  attempt_all_gives_up as_ e' id db' found' one' (omega (arith, more, fits))
                    (ground (arith, more, enough))
            ]
        | inr off ↦
            let none' = none_pending db.outbox.rows e id h one off in
            subst (λ (d : Db). count_where (pending_at id) d.outbox.rows ≡ 0)
              (attempt_all_step a as_ e id db h)
              (subst⁻¹ (λ (d : Db). count_where (pending_at id) d.outbox.rows ≡ 0)
                (attempt_all_settled (a ∷ as_) e id db h none') none')
      ])
