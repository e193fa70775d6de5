-- ===== src/Expiry/Grace.antt =====
-- The grace period.
use subscription_be.Prelude.{
  ℕ, ◌-◌, ◌≤◌, ◌≡◌, refl, Bool, not, ◌&&◌, List, [], ◌∷◌, ◌==◌, arith, any, count_where, find_many,
  update_many, count_where-update_many_le, count_where_mono, inl, inr, Bool-cases,
}
use subscription_be.Db.{Db}
use subscription_be.Db.Table
use subscription_be.Db.Schema.{Subscription}
use subscription_be.Subscription.Rows.{live_package}
use subscription_be.Subscription.Cancel.{with_id}
use subscription_be.Subscription.OnePackage.{OnePackage}
use subscription_be.Expiry.{process_grace_period_starts, for_each, hold, hold_row, just_expired}

abbrev listed : Subscription → List Subscription → Bool
listed x ss = any (λ s. x.id == s.id) ss

-- What is due and not listed.
abbrev left_over : ℕ → List Subscription → Subscription → Bool
left_over day ss x = just_expired day x && not (listed x ss)

left_over-hold :
    (day : ℕ) (s : Subscription) (ss rows : List Subscription)
    → count_where (left_over day ss) (update_many (with_id s.id) hold_row rows)
      ≤ count_where (left_over day (s ∷ ss)) rows
left_over-hold day s ss [] = omega arith
left_over-hold day s ss (x ∷ rows) = ground (arith, left_over-hold day s ss rows)

-- Holding the listed rows leaves only what is not listed.
held_rows :
    (day : ℕ) (ss : List Subscription) (db : Db)
    → count_where (just_expired day) (for_each hold ss db).subscriptions.rows
      ≤ count_where (left_over day ss) db.subscriptions.rows
held_rows day [] db =
    count_where_mono (left_over day []) (just_expired day) db.subscriptions.rows
      (λ x h. ground arith)
held_rows day (s ∷ ss) db =
    omega (arith, held_rows day ss (hold s db), left_over-hold day s ss db.subscriptions.rows)

all_listed :
    (day : ℕ) (rows : List Subscription)
    → count_where (left_over day (find_many (just_expired day) rows)) rows ≡ 0
all_listed day [] = refl
all_listed day (x ∷ rows) =
    let found = find_many (just_expired day) rows in
    elim (Bool-cases (just_expired day x)) [
      | inl y ↦ simp y (
          ground (
            arith,
            all_listed day rows,
            count_where_mono (left_over day found) (left_over day (x ∷ found)) rows
                (λ z h. ground arith),
          ))
      | inr n ↦ simp n (ground (arith, n, all_listed day rows))
    ]

-- After the first step of the sweep no subscription that ended the day before, and is not deleted,
-- is active any more.
pub process_grace_period_starts_holds :
    (today : ℕ) (db : Db)
    → count_where
        (just_expired (today - 1))
        (process_grace_period_starts today db).subscriptions.rows
      ≡ 0
unfolding process_grace_period_starts
process_grace_period_starts_holds today db =
    let day = today - 1 in
    omega (
      arith,
      held_rows day (find_many (just_expired day) db.subscriptions.rows) db,
      all_listed day db.subscriptions.rows,
    )

for_each-OnePackage :
    (ss : List Subscription) (db : Db) → OnePackage db → OnePackage (for_each hold ss db)
for_each-OnePackage [] db h = h
for_each-OnePackage (s ∷ ss) db h = for_each-OnePackage ss (hold s db) λ u. omega (
  arith,
  h u,
  count_where-update_many_le (live_package u) (with_id s.id) hold_row db.subscriptions.rows
      (λ x hit live. ground arith),
)

-- Where no user has two live packages, no user has two after the first step of the sweep.
pub process_grace_period_starts-OnePackage :
    (today : ℕ) (db : Db) → OnePackage db → OnePackage (process_grace_period_starts today db)
unfolding process_grace_period_starts
process_grace_period_starts-OnePackage today db h =
    for_each-OnePackage (Table.select (just_expired (today - 1)) db.subscriptions) db h
