-- ===== src/Masters/Bundles.antt =====
-- src/subscription/controllers/bundle.controller.ts with the service and repository of bundles. Prices are
-- hundredths, as the column keeps them, and a conversion rate is in ten-thousandths. The columns of the
-- audit are left out.
use subscription_be.Prelude.{
  ℕ, ◌+◌, ◌*◌, ◌/◌, String, Bool, true, false, not, ◌&&◌, Option, none, some, List, [], ◌∷◌, ◌==◌,
  or_else, leb,
}
use subscription_be.Db.Table
use subscription_be.Db.Action.{
  Action, ◌>>=◌, ◌>>◌, return, or_throw, throw_if, reads, writes, bundle_not_found,
  currency_inactive, invalid_discount_price,
}
use subscription_be.Db.Catalog.{CoinCurrency}
use subscription_be.Masters.Currencies.{get_currency_by_id}

-- `CoinBundle`
pub record BundleRow : Type 0 where
  pub id : ℕ
  pub bundle_name : String
  pub coin_amount : ℕ
  pub currency_id : ℕ
  pub price : ℕ
  pub discounted_price : Option ℕ
  pub is_active : Bool
  pub deleted : Bool

pub record BundleStore : Type 0 where
  pub bundles : Table.Table BundleRow
  pub currencies : Table.Table CoinCurrency

-- `createBundleSchema` and `updateBundleSchema`: a discount that is left out, `null` or a number
pub record BundleForm : Type 0 where
  pub bundle_name : String
  pub coin_amount : ℕ
  pub currency_id : ℕ
  pub discounted_price : Option (Option ℕ)
  pub is_active : Bool

pub record BundleUpdate : Type 0 where
  pub bundle_name : Option String
  pub coin_amount : Option ℕ
  pub currency_id : Option ℕ
  pub discounted_price : Option (Option ℕ)
  pub is_active : Option Bool

-- `getCurrencyById` on this store
unfoldable pub currency_of : ℕ → Action BundleStore CoinCurrency
unfolding get_currency_by_id
currency_of id s = ((get_currency_by_id id s.currencies).0, s)

-- `getBundleById`
unfoldable pub get_bundle_by_id : ℕ → Action BundleStore BundleRow
get_bundle_by_id id = do
  found ← reads (λ s. Table.find (λ b. b.id == id && not b.deleted) s.bundles)
  or_throw found bundle_not_found 404

-- Whether the discount is `>= calculatedPrice`, the exact product
abbrev pub too_dear : Option ℕ → ℕ → ℕ → Bool
too_dear none coins rate = false
too_dear (some d) coins rate = leb (coins * rate) (d * 100)

-- `calculatedPrice`, as the column with two decimals rounds it
abbrev pub stored_price : ℕ → ℕ → ℕ
stored_price coins rate = (coins * rate + 50) / 100

abbrev pub bundle_row : BundleForm → ℕ → ℕ → BundleRow
bundle_row form rate id = record {
  id = id;
  bundle_name = form.bundle_name;
  coin_amount = form.coin_amount;
  currency_id = form.currency_id;
  price = stored_price form.coin_amount rate;
  discounted_price = or_else form.discounted_price none;
  is_active = form.is_active;
  deleted = false;
}

-- `createBundle` of the controller; the service looks the currency up again
unfoldable pub create_bundle : BundleForm → Action BundleStore (Unit {0})
unfolding currency_of
create_bundle form = do
  currency ← currency_of form.currency_id
  throw_if (not currency.is_active) currency_inactive 404
  throw_if (too_dear (or_else form.discounted_price none) form.coin_amount currency.conversion_rate)
      invalid_discount_price 400
  again ← currency_of form.currency_id
  writes (λ s. record s {
    bundles = Table.create (bundle_row form currency.conversion_rate) s.bundles;
  })

abbrev pub change_bundle : BundleUpdate → ℕ → ℕ → BundleRow → BundleRow
change_bundle form coins rate b = record b {
  bundle_name = or_else form.bundle_name b.bundle_name;
  coin_amount = or_else form.coin_amount b.coin_amount;
  currency_id = or_else form.currency_id b.currency_id;
  price = stored_price coins rate;
  discounted_price = or_else form.discounted_price b.discounted_price;
  is_active = or_else form.is_active b.is_active;
}

abbrev pub updated_currency : Option ℕ → Action BundleStore (Unit {0})
updated_currency none = return tt
updated_currency (some id) = currency_of id >>= λ c. return tt

-- `updateBundle` of the controller, with the checks that the service makes again
unfoldable pub update_bundle : ℕ → BundleUpdate → Action BundleStore (Unit {0})
unfolding get_bundle_by_id currency_of
update_bundle id form = do
  existing ← get_bundle_by_id id
  currency ← currency_of (or_else form.currency_id existing.currency_id)
  throw_if (not currency.is_active) currency_inactive 404
  throw_if
      (too_dear (or_else form.discounted_price existing.discounted_price)
        (or_else form.coin_amount existing.coin_amount) currency.conversion_rate)
      invalid_discount_price 400
  again ← get_bundle_by_id id
  updated_currency form.currency_id
  writes (λ s. record s {
    bundles =
        Table.update (λ b. b.id == id)
          (change_bundle form (or_else form.coin_amount existing.coin_amount)
            currency.conversion_rate)
          s.bundles;
  })

-- `removeBundle`, with `removeSoft`
unfoldable pub remove_bundle : ℕ → Action BundleStore (Unit {0})
unfolding get_bundle_by_id
remove_bundle id = do
  existing ← get_bundle_by_id id
  writes (λ s. record s {
    bundles =
        Table.update (λ b. b.id == id) (λ b. record b { is_active = false; deleted = true })
          s.bundles;
  })

-- A request of an administrator; the editor of the currencies may leave them as it likes.
pub data BundleRequest : Type 0 where
  create : BundleForm → BundleRequest
  update : ℕ → BundleUpdate → BundleRequest
  remove : ℕ → BundleRequest
  edit_currencies : Table.Table CoinCurrency → BundleRequest

abbrev pub run : BundleRequest → BundleStore → BundleStore
run (create form) s = (create_bundle form s).1
run (update id form) s = (update_bundle id form s).1
run (remove id) s = (remove_bundle id s).1
run (edit_currencies t) s = record s { currencies = t }

abbrev pub run_all : List BundleRequest → BundleStore → BundleStore
run_all [] s = s
run_all (request ∷ requests) s = run_all requests (run request s)
