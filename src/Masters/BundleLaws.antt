-- ===== src/Masters/BundleLaws.antt =====
-- Discounts of bundles, whatever the administrators ask for.
use subscription_be.Prelude.{
  ℕ, refl, true, false, not, ◌&&◌, Option, none, some, List, [], ◌∷◌, ◌==◌, or_else,
}
use subscription_be.Db.Table
use subscription_be.Db.Action.{
  Action, Result, ok, err, continue, return, bundle_not_found, currency_inactive,
  invalid_discount_price,
}
use subscription_be.Db.Cases.{or_throw-cases, throw_if-cases}
use subscription_be.Db.Catalog.{CoinCurrency}
use subscription_be.Masters.Currencies.{get_currency_by_id}
use subscription_be.Masters.Bundles.{
  create, update, remove, edit_currencies, run, BundleStore, BundleForm, BundleUpdate, too_dear,
  BundleRequest, run_all, create_bundle, currency_of, remove_bundle, get_bundle_by_id,
  update_bundle, change_bundle, bundle_row, updated_currency,
}
use subscription_be.Masters.BundleRows.{
  IsPriced, IsDiscount, too_dear-IsDiscount, update-IsPriced, create-IsPriced, All-update-each,
  All-update-one,
}

abbrev Priced : BundleStore → Type 0
Priced s = IsPriced s.bundles

module _ {A : Type 0} where
  read-Priced :
      (r : Result A) (s : BundleStore) (k : A → Action BundleStore (Unit {0}))
      → Priced s
      → ((a : A) → Priced (k a s).1)
      → Priced (continue (r, s) k).1
  read-Priced (ok a) s k h next = next a
  read-Priced (err c status) s k h next = h

currency_then :
    (r : Result CoinCurrency) (s : BundleStore) (k : Action BundleStore (Unit {0}))
    → Priced s
    → Priced (k s).1
    → Priced (continue (continue (r, s) (λ c. return tt)) (λ (_ : Unit {0}). k)).1
currency_then (ok c) s k h next = next
currency_then (err c status) s k h next = h

updated_currency-Priced :
    (id : Option ℕ) (s : BundleStore) (k : Action BundleStore (Unit {0}))
    → Priced s
    → Priced (k s).1
    → Priced (continue (updated_currency id s) (λ (_ : Unit {0}). k)).1
unfolding currency_of
updated_currency-Priced none s k h next = next
updated_currency-Priced (some id) s k h next =
    currency_then (get_currency_by_id id s.currencies).0 s k h next

create_bundle-Priced :
    (form : BundleForm) (s : BundleStore) → Priced s → Priced (create_bundle form s).1
unfolding create_bundle currency_of
create_bundle-Priced form s h =
    read-Priced (get_currency_by_id form.currency_id s.currencies).0 s _ h λ currency.
      throw_if-cases (λ r. Priced r.1) (not currency.is_active) currency_inactive 404 _ s h
        λ active.
          throw_if-cases (λ r. Priced r.1)
            (too_dear (or_else form.discounted_price none) form.coin_amount
              currency.conversion_rate)
            invalid_discount_price 400 _ s h
            λ cheap. read-Priced (get_currency_by_id form.currency_id s.currencies).0 s _ h λ again.
              create-IsPriced (bundle_row form currency.conversion_rate) s.bundles (λ id. refl)
                (too_dear-IsDiscount (or_else form.discounted_price none) form.coin_amount
                  currency.conversion_rate cheap)
                h

remove_bundle-Priced : (id : ℕ) (s : BundleStore) → Priced s → Priced (remove_bundle id s).1
unfolding remove_bundle get_bundle_by_id
remove_bundle-Priced id s h =
    or_throw-cases (λ r. Priced r.1) (Table.find (λ b. b.id == id && not b.deleted) s.bundles)
      bundle_not_found 404 _ s h
      λ existing found.
        update-IsPriced (λ b. b.id == id) (λ b. record b { is_active = false; deleted = true })
          s.bundles (λ b. refl)
          (All-update-each (λ b. IsDiscount b.discounted_price b.price) (λ b. b.id == id)
            (λ b. record b { is_active = false; deleted = true }) s.bundles.rows (λ b fair. fair)
            h.fair)
          h

update_bundle-Priced :
    (id : ℕ) (form : BundleUpdate) (s : BundleStore) → Priced s → Priced (update_bundle id form s).1
unfolding update_bundle currency_of get_bundle_by_id
update_bundle-Priced id form s h =
    or_throw-cases (λ r. Priced r.1) (Table.find (λ b. b.id == id && not b.deleted) s.bundles)
      bundle_not_found 404 _ s h
      λ existing found.
        let coins = or_else form.coin_amount existing.coin_amount in
        let discount = or_else form.discounted_price existing.discounted_price in
        read-Priced
          (get_currency_by_id (or_else form.currency_id existing.currency_id) s.currencies).0 s _ h
          λ currency.
            let rate = currency.conversion_rate in
            throw_if-cases (λ r. Priced r.1) (not currency.is_active) currency_inactive 404 _ s h
              λ active.
                throw_if-cases (λ r. Priced r.1) (too_dear discount coins rate)
                  invalid_discount_price 400 _ s h
                  λ cheap.
                    or_throw-cases (λ r. Priced r.1)
                      (Table.find (λ b. b.id == id && not b.deleted) s.bundles) bundle_not_found 404
                      _ s h
                      λ again there. updated_currency-Priced form.currency_id s _ h (
                        update-IsPriced (λ b. b.id == id) (change_bundle form coins rate) s.bundles
                          (λ b. refl)
                          (All-update-one (λ b. IsDiscount b.discounted_price b.price)
                            (λ b. b.id == id) (λ b. not b.deleted) (change_bundle form coins rate)
                            existing s.bundles.rows (h.one_row id) found
                            (too_dear-IsDiscount discount coins rate cheap) h.fair)
                          h)

run-Priced : (request : BundleRequest) (s : BundleStore) → Priced s → Priced (run request s)
run-Priced (create form) s h = create_bundle-Priced form s h
run-Priced (update id form) s h = update_bundle-Priced id form s h
run-Priced (remove id) s h = remove_bundle-Priced id s h
run-Priced (edit_currencies t) s h = h

-- However the administrators edit the bundles and the currencies, keys stay unique and no bundle's
-- discounted price is above the price that is kept beside it.
pub run_all-IsPriced :
    (requests : List BundleRequest) (s : BundleStore)
    → IsPriced s.bundles
    → IsPriced (run_all requests s).bundles
run_all-IsPriced [] s h = h
run_all-IsPriced (request ∷ requests) s h =
    run_all-IsPriced requests (run request s) (run-Priced request s h)
