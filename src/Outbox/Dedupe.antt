-- ===== src/Outbox/Dedupe.antt =====
-- The idempotency keys of the outbox.
use mathlib.Core.Path.{subst}
use subscription_be.Prelude.{
  Bool-cases, ℕ, ◌≤◌, ◌≡◌, refl, String, true, List, [], ◌∷◌, inl, inr, arith, is_some,
  Option-cases, count_where, find_first, find_first-none, find_first-some, count_where-append,
  str_eq, str_eq_iff,
}
use subscription_be.Db.{Db}
use subscription_be.Db.Table
use subscription_be.Db.Action.{ok}
use subscription_be.Db.Schema.{OutboxRow}
use subscription_be.Outbox.{Env, DedupeKey, idempotency_key, insert_event, keyed, outbox_row}
use subscription_be.Webhook.{WebhookEvent, WebhookPayload}

-- The unique index on the idempotency key.
abbrev pub UniqueKeys : Db → Type 0
UniqueKeys db = (key : String) → count_where (keyed key) db.outbox.rows ≤ 1

-- Where the key is in the outbox, nothing is written.
insert_event_present :
    (env : Env) (event : WebhookEvent) (company : ℕ) (payload : WebhookPayload) (key : DedupeKey)
    (db : Db)
    → is_some (Table.find (keyed (idempotency_key env event key)) db.outbox) ≡ true
    → insert_event env event company payload key db ≡ (ok tt, db)
unfolding insert_event
insert_event_present env event company payload key db h = rw h refl

keyed_own : (text : String) → str_eq text text ≡ true
keyed_own text = (str_eq_iff text text).1 refl

-- Where no two rows share a key, none do after an insertion.
pub insert_event-UniqueKeys :
    (env : Env) (event : WebhookEvent) (company : ℕ) (payload : WebhookPayload) (key : DedupeKey)
    (db : Db)
    → UniqueKeys db
    → UniqueKeys (insert_event env event company payload key db).1
unfolding insert_event
insert_event-UniqueKeys env event company payload key db h text =
    let own = idempotency_key env event key in
    let row = outbox_row env event company payload key db.outbox.next_id in
    elim (Option-cases (find_first (keyed own) db.outbox.rows)) [
      | inr (r, e) ↦ rw e (h text)
      | inl e ↦ rw e (elim (Bool-cases (str_eq own text)) [
        | inl same ↦ ground (
          arith,
          subst (λ (k : String). count_where (keyed k) db.outbox.rows ≡ 0)
              ((str_eq_iff own text).0 same) (find_first-none (keyed own) db.outbox.rows e),
          count_where-append (keyed text) db.outbox.rows (row ∷ []),
        )
        | inr other ↦
            ground (arith, h text, other, count_where-append (keyed text) db.outbox.rows (row ∷ []))
      ])
    ]

insert_event_count :
    (env : Env) (event : WebhookEvent) (company : ℕ) (payload : WebhookPayload) (key : DedupeKey)
    (db : Db)
    → UniqueKeys db
    → count_where
        (keyed (idempotency_key env event key))
        (insert_event env event company payload key db).1.outbox.rows
      ≡ 1
unfolding insert_event
insert_event_count env event company payload key db h =
    let own = idempotency_key env event key in
    let row = outbox_row env event company payload key db.outbox.next_id in
    let self : keyed own row ≡ true = keyed_own own in
    elim (Option-cases (find_first (keyed own) db.outbox.rows)) [
      | inr (r, e) ↦
          let some_row = find_first-some (keyed own) db.outbox.rows r e in
          rw e (omega (arith, h own, some_row))
      | inl e ↦
          let no_row = find_first-none (keyed own) db.outbox.rows e in
          rw e
            (ground (arith, no_row, self, count_where-append (keyed own) db.outbox.rows (row ∷ [])))
    ]

present_of_count :
    (text : String) (rows : List OutboxRow)
    → count_where (keyed text) rows ≡ 1
    → is_some (find_first (keyed text) rows) ≡ true
present_of_count text rows h = elim (Option-cases (find_first (keyed text) rows)) [
  | inl e ↦ ground (arith, h, find_first-none (keyed text) rows e)
  | inr (r, e) ↦ rw e refl
]

-- SHA-256 gives the same digest at any time.
same_key :
    (env env' : Env) (event : WebhookEvent) (key : DedupeKey)
    → env'.digest key ≡ env.digest key
    → idempotency_key env event key ≡ idempotency_key env' event key
unfolding idempotency_key
same_key env env' event key same = rw same refl

-- After an insertion the outbox has exactly one event with the key, and a second insertion under
-- that dedupe key, at whatever time, with whatever random token, company and payload, changes nothing;
-- this holds where no two rows share a key and SHA-256 gives both times the same digest.
pub insert_event_once :
    (env env' : Env) (event : WebhookEvent) (company company' : ℕ)
    (payload payload' : WebhookPayload) (key : DedupeKey) (db : Db)
    → env'.digest key ≡ env.digest key
    → UniqueKeys db
    → let db' = (insert_event env event company payload key db).1 in
      (count_where (keyed (idempotency_key env event key)) db'.outbox.rows ≡ 1)
      × (insert_event env' event company' payload' key db' ≡ (ok tt, db'))
insert_event_once env env' event company company' payload payload' key db same h =
    let db' = (insert_event env event company payload key db).1 in
    let one = insert_event_count env event company payload key db h in
    (
      one,
      insert_event_present env' event company' payload' key db' (
          subst (λ (k : String). is_some (find_first (keyed k) db'.outbox.rows) ≡ true)
            (same_key env env' event key same)
            (present_of_count (idempotency_key env event key) db'.outbox.rows one)),
    )
