-- ===== src/Masters/CurrencyLaws.antt =====
-- At most one currency is active: the requests of src/subscription/services/currency.service.ts.
use subscription_be.Prelude.{
  ℕ, ◌≤◌, ◌≡◌, refl, Bool, true, false, List, [], ◌∷◌, or_else, is_some, inl, inr, if◌then◌else◌,
  Bool-cases, Option-cases, count_where, count_where-update_many, find_first, find_first-none,
  arith,
}
use subscription_be.Db.Table
use subscription_be.Db.Action.{err, currency_not_found, duplicate_currency}
use subscription_be.Db.Cases.{or_throw-cases}
use subscription_be.Db.Catalog.{CoinCurrency}
use subscription_be.Masters.{live, present, create_row, update_row, switch_off, switch_others_off}
use subscription_be.Masters.Exclusive.{
  IsExclusive, create_row-IsExclusive, update_row-IsExclusive, activate_row-IsExclusive,
  remove_row-IsExclusive, switch_off-IsExclusive, flag_kept,
}
use subscription_be.Masters.Currencies.{
  set_active, currencies, CurrencyData, currency_row, coded, coded_other, create_currency,
  get_currency_by_id, CurrencyUpdate, change_currency, update_currency, activate_currency,
  deactivate_all, remove_currency, CurrencyRequest, create, update, activate, remove, deactivate,
  run, run_all,
}

-- A currency whose code is taken leaves the table as it was; otherwise it is added.
create-frame :
    (P : Table.Table CoinCurrency → Type 0) (form : CurrencyData) (t : Table.Table CoinCurrency)
    → P t
    → P (create_row currencies (or_else form.is_active true) (currency_row form) t)
    → P (create_currency form t).1
unfolding create_currency
create-frame P form t same added =
    let off = if or_else form.is_active true then switch_off currencies t else t in
    elim (Bool-cases (is_some (Table.find (coded form.currency_code) off))) [
      | inl taken ↦ rw taken same
      | inr free ↦ rw free added
    ]

update-frame :
    (P : Table.Table CoinCurrency → Type 0) (id : ℕ) (form : CurrencyUpdate)
    (t : Table.Table CoinCurrency)
    → P t
    → P (update_row currencies id (or_else form.is_active false) (change_currency form) t)
    → P (update_currency id form t).1
unfolding update_currency get_currency_by_id
update-frame P id form t same changed =
    or_throw-cases (λ r. P r.1) (Table.find (present currencies id) t) currency_not_found 404 _ t
      same
      λ c found.
        let off = if or_else form.is_active false then switch_others_off currencies id t else t in
        elim (Bool-cases (is_some (Table.find (coded_other id form.currency_code) off))) [
          | inl taken ↦ rw taken same
          | inr free ↦ rw free changed
        ]

run-IsExclusive :
    (request : CurrencyRequest) (t : Table.Table CoinCurrency)
    → IsExclusive currencies t
    → IsExclusive currencies (run request t)
unfolding activate_currency remove_currency deactivate_all get_currency_by_id
run-IsExclusive (create form) t h = create-frame (IsExclusive currencies) form t h (
    create_row-IsExclusive currencies (or_else form.is_active true) (currency_row form) t refl refl
      h)
run-IsExclusive (update id form) t h = update-frame (IsExclusive currencies) id form t h (
    update_row-IsExclusive currencies id (or_else form.is_active false) (change_currency form) t
      (λ c. refl) (λ c. refl) (λ off c. flag_kept form.is_active c.is_active off) h)
run-IsExclusive (activate id) t h =
    or_throw-cases (λ r. IsExclusive currencies r.1) (Table.find (present currencies id) t)
      currency_not_found 404 _ t h λ c found. activate_row-IsExclusive currencies id t h
run-IsExclusive (remove id) t h =
    or_throw-cases (λ r. IsExclusive currencies r.1) (Table.find (present currencies id) t)
      currency_not_found 404 _ t h λ c found. remove_row-IsExclusive currencies id t h
run-IsExclusive deactivate t h = switch_off-IsExclusive currencies t h

-- Whatever administrators do to the currencies, in any order, at most one currency is active and not
-- deleted, and the keys stay unique and below the next one, if it was so before.
pub run_all-currencies-IsExclusive :
    (requests : List CurrencyRequest) (t : Table.Table CoinCurrency)
    → IsExclusive currencies t
    → IsExclusive currencies (run_all requests t)
run_all-currencies-IsExclusive [] t h = h
run_all-currencies-IsExclusive (request ∷ requests) t h =
    run_all-currencies-IsExclusive requests (run request t) (run-IsExclusive request t h)

counted_found :
    (p : CoinCurrency → Bool) (rows : List CoinCurrency)
    → 1 ≤ count_where p rows
    → is_some (find_first p rows) ≡ true
counted_found p rows h = elim (Option-cases (find_first p rows)) [
  | inl none_found ↦ ground (arith, find_first-none p rows, none_found, h)
  | inr (c, found) ↦ rw found
]

-- A currency whose code is taken is refused (DUPLICATE_CURRENCY, 409), and the active currency, which
-- the transaction had switched off, is active again: the table is as it was.
pub create_currency_duplicate :
    (form : CurrencyData) (t : Table.Table CoinCurrency)
    → 1 ≤ count_where (coded form.currency_code) t.rows
    → create_currency form t ≡ (err duplicate_currency 409, t)
unfolding create_currency
create_currency_duplicate form t taken =
    let p = coded form.currency_code in
    elim (Bool-cases (or_else form.is_active true)) [
      | inl on ↦
          let still : 1 ≤ count_where p (switch_off currencies t).rows = omega (
            arith,
            count_where-update_many p (live currencies) (set_active false) t.rows (λ c. refl),
            taken,
          ) in
          rw (on, counted_found p (switch_off currencies t).rows still)
      | inr off ↦ rw (off, counted_found p t.rows taken)
    ]
