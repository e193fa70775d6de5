-- ===== src/Outbox/Worker/Verdict.antt =====
-- What the answer of Domain 2 means for an event, in numbers.
use subscription_be.Prelude.{
  ℕ, zero, suc, ◌+◌, ◌*◌, ◌/◌, ◌≤◌, ◌<◌, ◌≡◌, refl, ◌⊎◌, inl, inr, Bool, true, false, some, arith,
  ◌==◌, leb, count_where, if◌then◌else◌, Bool-cases,
}
use subscription_be.Db.{Db}
use subscription_be.Db.Table
use subscription_be.Db.Schema.{OutboxRow, pending, completed, failed}
use subscription_be.Outbox.{pending_at, at_id, set_processing}
use subscription_be.Outbox.Worker.{Attempt, Delivery, response, network_error, process_event, is_ok}
use subscription_be.Outbox.Worker.Handling.{answered, retried, process_event_row}
use subscription_be.Outbox.Worker.Backoff.{nominal_delay, retry_delay-bounds}

pub data Verdict : Type 0 where
  delivered rejected : Verdict
  later : Bool → Verdict

-- The statuses in numbers: any 2xx, then 401, 422 and 429, then the rest
abbrev pub verdict : Delivery → Verdict
verdict network_error = later false
verdict (response status) =
    if status / 100 == 2
    then delivered
    else if status == 401
    then rejected
    else if status == 422
    then rejected
    else later (status == 429)

-- The nominal wait after a failure, by the number of failures before: 1 min, 5 min, 30 min, 2 h, 12 h
abbrev pub wait_after : ℕ → ℕ
wait_after zero = 60000
wait_after (suc zero) = 300000
wait_after (suc (suc zero)) = 1800000
wait_after (suc (suc (suc zero))) = 7200000
wait_after (suc (suc (suc (suc n)))) = 43200000

abbrev pub doubled : Bool → ℕ → ℕ
doubled true n = 2 * n
doubled false n = n

-- Another try, after the nominal wait give or take a tenth, doubled for a 429
pub record IsPostponed (a : Attempt) (limited : Bool) (e r : OutboxRow) : Type 0 where
  pub few : e.attempts < 5
  pub status : r.status ≡ pending
  pub counted : r.attempts ≡ e.attempts + 1
  pub not_before :
      10 * a.finished + 9 * doubled limited (wait_after e.attempts) < 10 * (r.next_attempt_at + 1)
  pub not_after :
      10 * r.next_attempt_at ≤ 10 * a.finished + 11 * doubled limited (wait_after e.attempts)

abbrev pub IsSettled : Attempt → Verdict → OutboxRow → OutboxRow → Type 0
IsSettled a delivered e r = (r.status ≡ completed) × (r.attempts ≡ e.attempts)
IsSettled a rejected e r = (r.status ≡ failed) × (r.attempts ≡ e.attempts)
IsSettled a (later limited) e r =
    ((5 ≤ e.attempts) × (r.status ≡ failed)) ⊎ IsPostponed a limited e r

-- The event's row after a run
pub record IsHandled (a : Attempt) (e : OutboxRow) (db : Db) : Type 0 where
  pub row : OutboxRow
  pub found : Table.find (at_id e.id) db.outbox ≡ some row
  pub settled : IsSettled a (verdict a.delivery) e row

nominal_wait :
    (n : ℕ) (limited : Bool)
    → n < 5
    → nominal_delay (n + 1) limited ≡ doubled limited (wait_after n)
nominal_wait zero true few = refl
nominal_wait (suc zero) true few = refl
nominal_wait (suc (suc zero)) true few = refl
nominal_wait (suc (suc (suc zero))) true few = refl
nominal_wait (suc (suc (suc (suc zero)))) true few = refl
nominal_wait zero false few = refl
nominal_wait (suc zero) false few = refl
nominal_wait (suc (suc zero)) false few = refl
nominal_wait (suc (suc (suc zero))) false few = refl
nominal_wait (suc (suc (suc (suc zero)))) false few = refl
nominal_wait (suc (suc (suc (suc (suc n))))) limited few = ground (arith, few)

module _ (a : Attempt) (limited : Bool) (e : OutboxRow) where
  retried-IsSettled :
      a.random < 1000000
      → IsSettled a (later limited) e (retried a limited (set_processing a.started e))
  retried-IsSettled drawn = elim (Bool-cases (leb 6 (e.attempts + 1))) [
    | inl last ↦ rw last (inl (ground (arith, last), refl))
    | inr more ↦
        let few : e.attempts < 5 = ground (arith, more) in
        let bounds = retry_delay-bounds (e.attempts + 1) limited a.random drawn in
        let nominal = nominal_wait e.attempts limited few in
        rw more (
          inr (record {
            few = few;
            status = refl;
            counted = refl;
            not_before = omega (arith, bounds.0, nominal);
            not_after = omega (arith, bounds.1, nominal);
          }))
  ]

module _ (a : Attempt) (e : OutboxRow) (drawn : a.random < 1000000) where
  answered-IsSettled :
      (d : Delivery) → IsSettled a (verdict d) e (answered a d (set_processing a.started e))
  answered-IsSettled network_error = retried-IsSettled a false e drawn
  answered-IsSettled (response status) = elim (Bool-cases (is_ok status)) [
    | inl good ↦
        let two : (status / 100 == 2) ≡ true = ground (arith, good) in rw (good, two) (refl, refl)
    | inr bad ↦
        let two : (status / 100 == 2) ≡ false = ground (arith, bad) in
        rw (bad, two)
          (elim (Bool-cases (status == 401)) [
            | inl unauthorized ↦ rw unauthorized (refl, refl)
            | inr not_401 ↦ rw not_401 (elim (Bool-cases (status == 422)) [
              | inl unprocessable ↦ rw unprocessable (refl, refl)
              | inr not_422 ↦ rw not_422 (retried-IsSettled a (status == 429) e drawn)
            ])
          ])
  ]

-- One run on a pending event: a 2xx completes it, a 401 or 422 fails it, and anything else puts it
-- back with one more attempt after 1 min, 5 min, 30 min, 2 h or 12 h give or take a tenth, twice that for
-- a 429, or fails it when this was the sixth. The event's key must be its own, and Math.random below 1.
pub process_event-IsHandled :
    (a : Attempt) (e : OutboxRow) (db : Db)
    → a.random < 1000000
    → Table.find (pending_at e.id) db.outbox ≡ some e
    → count_where (at_id e.id) db.outbox.rows ≤ 1
    → IsHandled a e (process_event a e db).1
process_event-IsHandled a e db drawn found one = record {
  row = answered a a.delivery (set_processing a.started e);
  found = process_event_row a e db found one;
  settled = answered-IsSettled a e drawn a.delivery;
}
