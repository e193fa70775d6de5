-- ===== src/Masters/Currencies.antt =====
-- src/subscription/services/currency.service.ts with src/subscription/repositories/currency.repository.ts. The
-- columns of the audit are left out, and dates are day numbers, so `formatDates` and `parseInputDates`
-- have nothing to do.
use subscription_be.Prelude.{
  ℕ, refl, String, Bool, true, false, not, ◌&&◌, Option, none, some, List, [], ◌∷◌, ◌==◌, or_else,
  is_some, str_eq, if◌then◌else◌,
}
use subscription_be.Db.Table
use subscription_be.Db.Action.{
  Action, ◌>>=◌, ◌>>◌, or_throw, throw_if, reads, writes, transaction, currency_not_found,
  duplicate_currency,
}
use subscription_be.Db.Catalog.{CoinCurrency}
use subscription_be.Masters.{
  Switched, live, has_key, present, activate_row, remove_row, switch_off, switch_others_off,
}

abbrev pub set_active : Bool → CoinCurrency → CoinCurrency
set_active active c = record c { is_active = active }

abbrev discard : CoinCurrency → CoinCurrency
discard c = record c { is_active = false; deleted = true }

abbrev pub currencies : Switched CoinCurrency
currencies = record {
  key = λ c. c.id;
  active = λ c. c.is_active;
  gone = λ c. c.deleted;
  set_active = set_active;
  discard = discard;
  key_set = λ b c. refl;
  active_set = λ b c. refl;
  gone_set = λ b c. refl;
  set_set = λ b e c. refl;
  key_discard = λ c. refl;
  active_discard = λ c. refl;
}

pub record CurrencyData : Type 0 where
  pub currency_name : String
  pub currency_code : String
  pub symbol : String
  pub effective_from : ℕ
  pub effective_until : Option ℕ
  pub conversion_rate : ℕ
  pub is_active : Option Bool

abbrev pub currency_row : CurrencyData → ℕ → CoinCurrency
currency_row form id = record {
  id = id;
  currency_name = form.currency_name;
  currency_code = form.currency_code;
  symbol = form.symbol;
  effective_from = form.effective_from;
  effective_until = form.effective_until;
  conversion_rate = form.conversion_rate;
  is_active = or_else form.is_active true;
  deleted = false;
}

abbrev pub coded : String → CoinCurrency → Bool
coded code c = str_eq c.currency_code code

abbrev pub coded_other : ℕ → Option String → CoinCurrency → Bool
coded_other id none c = false
coded_other id (some code) c = coded code c && not (c.id == id)

-- `createCurrency` with `create`: the column `currency_code` is unique, deleted rows included, and the
-- service turns P2002 into DUPLICATE_CURRENCY
unfoldable pub create_currency : CurrencyData → Action (Table.Table CoinCurrency) (Unit {0})
create_currency form = transaction (do
  writes (λ t. if or_else form.is_active true then switch_off currencies t else t)
  taken ← reads (λ t. is_some (Table.find (coded form.currency_code) t))
  throw_if taken duplicate_currency 409
  writes (Table.create (currency_row form)))

-- `findActive`, which is also `getActiveCurrency`
unfoldable pub find_active : Action (Table.Table CoinCurrency) (Option CoinCurrency)
find_active = reads (Table.find (live currencies))

-- `getCurrencyById`
unfoldable pub get_currency_by_id : ℕ → Action (Table.Table CoinCurrency) CoinCurrency
get_currency_by_id id = do
  found ← reads (Table.find (present currencies id))
  or_throw found currency_not_found 404

pub record CurrencyUpdate : Type 0 where
  pub currency_name : Option String
  pub currency_code : Option String
  pub symbol : Option String
  pub effective_from : Option ℕ
  pub effective_until : Option (Option ℕ)
  pub conversion_rate : Option ℕ
  pub is_active : Option Bool

abbrev pub change_currency : CurrencyUpdate → CoinCurrency → CoinCurrency
change_currency form c = record c {
  currency_name = or_else form.currency_name c.currency_name;
  currency_code = or_else form.currency_code c.currency_code;
  symbol = or_else form.symbol c.symbol;
  effective_from = or_else form.effective_from c.effective_from;
  effective_until = or_else form.effective_until c.effective_until;
  conversion_rate = or_else form.conversion_rate c.conversion_rate;
  is_active = or_else form.is_active c.is_active;
}

-- `updateCurrency` with `update`
unfoldable pub update_currency : ℕ → CurrencyUpdate → Action (Table.Table CoinCurrency) (Unit {0})
unfolding get_currency_by_id
update_currency id form = do
  c ← get_currency_by_id id
  transaction (do
    writes (λ t. if or_else form.is_active false then switch_others_off currencies id t else t)
    taken ← reads (λ t. is_some (Table.find (coded_other id form.currency_code) t))
    throw_if taken duplicate_currency 409
    writes (Table.update (has_key currencies id) (change_currency form)))

-- `activateCurrency` with `activate`
unfoldable pub activate_currency : ℕ → Action (Table.Table CoinCurrency) (Unit {0})
unfolding get_currency_by_id
activate_currency id = do
  c ← get_currency_by_id id
  transaction (writes (activate_row currencies id))

-- `deactivateAll`
unfoldable pub deactivate_all : Action (Table.Table CoinCurrency) (Unit {0})
deactivate_all = writes (switch_off currencies)

-- `removeCurrency` with `removeSoft`
unfoldable pub remove_currency : ℕ → Action (Table.Table CoinCurrency) (Unit {0})
unfolding get_currency_by_id
remove_currency id = do c ← get_currency_by_id id; writes (remove_row currencies id)

pub data CurrencyRequest : Type 0 where
  create : CurrencyData → CurrencyRequest
  update : ℕ → CurrencyUpdate → CurrencyRequest
  activate : ℕ → CurrencyRequest
  remove : ℕ → CurrencyRequest
  deactivate : CurrencyRequest

abbrev pub run : CurrencyRequest → Table.Table CoinCurrency → Table.Table CoinCurrency
run (create form) t = (create_currency form t).1
run (update id form) t = (update_currency id form t).1
run (activate id) t = (activate_currency id t).1
run (remove id) t = (remove_currency id t).1
run deactivate t = (deactivate_all t).1

abbrev pub run_all : List CurrencyRequest → Table.Table CoinCurrency → Table.Table CoinCurrency
run_all [] t = t
run_all (request ∷ requests) t = run_all requests (run request t)
