-- ===== src/Masters/Taxes.antt =====
-- src/shared/services/tax.service.ts with src/shared/repositories/tax.repository.ts. The columns of the
-- audit are left out. No column but the key is unique, so DUPLICATE_TAX is never thrown.
use subscription_be.Prelude.{
  ℕ, ◌≡◌, refl, ap, String, Bool, true, false, Option, some, List, [], ◌∷◌, or_else,
}
use subscription_be.Db.Table
use subscription_be.Db.Action.{
  Action, ok, ◌>>=◌, or_throw, reads, writes, transaction, tax_not_found,
}
use subscription_be.Db.Cases.{or_throw-cases}
use subscription_be.Db.Catalog.{TaxConfig, FeeType}
use subscription_be.Masters.{
  Switched, live, present, create_row, update_row, activate_row, remove_row, switch_off,
}
use subscription_be.Masters.Exclusive.{
  IsExclusive, create_row-IsExclusive, update_row-IsExclusive, activate_row-IsExclusive,
  remove_row-IsExclusive, switch_off-IsExclusive, activate_row_found, flag_kept,
}

abbrev pub set_active : Bool → TaxConfig → TaxConfig
set_active active tax = record tax { is_active = active }

-- `data: { is_active: false, deleted_at: new Date() }`
abbrev discard : TaxConfig → TaxConfig
discard tax = record tax { is_active = false; deleted = true }

abbrev pub taxes : Switched TaxConfig
taxes = record {
  key = λ tax. tax.id;
  active = λ tax. tax.is_active;
  gone = λ tax. tax.deleted;
  set_active = set_active;
  discard = discard;
  key_set = λ b tax. refl;
  active_set = λ b tax. refl;
  gone_set = λ b tax. refl;
  set_set = λ b c tax. refl;
  key_discard = λ tax. refl;
  active_discard = λ tax. refl;
}

pub record TaxData : Type 0 where
  pub tax_name : String
  pub tax_value : ℕ
  pub tax_type : FeeType
  pub is_active : Option Bool

abbrev pub tax_row : TaxData → ℕ → TaxConfig
tax_row form id = record {
  id = id;
  tax_name = form.tax_name;
  tax_value = form.tax_value;
  tax_type = form.tax_type;
  is_active = or_else form.is_active true;
  deleted = false;
}

-- `createTax`: active unless the form says otherwise
unfoldable pub create_tax : TaxData → Action (Table.Table TaxConfig) (Unit {0})
create_tax form =
    transaction (writes (create_row taxes (or_else form.is_active true) (tax_row form)))

-- `findActiveTax`, which is also `getActiveTax`
unfoldable pub find_active_tax : Action (Table.Table TaxConfig) (Option TaxConfig)
find_active_tax = reads (Table.find (live taxes))

-- `getTaxById`
unfoldable pub get_tax_by_id : ℕ → Action (Table.Table TaxConfig) TaxConfig
get_tax_by_id id = do
  found ← reads (Table.find (present taxes id))
  or_throw found tax_not_found 404

-- What an update gives; a field that it leaves out is kept.
pub record TaxUpdate : Type 0 where
  pub tax_name : Option String
  pub tax_value : Option ℕ
  pub tax_type : Option FeeType
  pub is_active : Option Bool

abbrev change_tax : TaxUpdate → TaxConfig → TaxConfig
change_tax form tax = record tax {
  tax_name = or_else form.tax_name tax.tax_name;
  tax_value = or_else form.tax_value tax.tax_value;
  tax_type = or_else form.tax_type tax.tax_type;
  is_active = or_else form.is_active tax.is_active;
}

-- `updateTax`
unfoldable pub update_tax : ℕ → TaxUpdate → Action (Table.Table TaxConfig) (Unit {0})
unfolding get_tax_by_id
update_tax id form = do
  tax ← get_tax_by_id id
  transaction (writes (update_row taxes id (or_else form.is_active false) (change_tax form)))

-- `activateTax`
unfoldable pub activate_tax : ℕ → Action (Table.Table TaxConfig) (Unit {0})
unfolding get_tax_by_id
activate_tax id = do tax ← get_tax_by_id id; transaction (writes (activate_row taxes id))

-- `deactivateAll`
unfoldable pub deactivate_all : Action (Table.Table TaxConfig) (Unit {0})
deactivate_all = writes (switch_off taxes)

-- `removeTax`
unfoldable pub remove_tax : ℕ → Action (Table.Table TaxConfig) (Unit {0})
unfolding get_tax_by_id
remove_tax id = do tax ← get_tax_by_id id; writes (remove_row taxes id)

-- A request of an administrator
pub data TaxRequest : Type 0 where
  create : TaxData → TaxRequest
  update : ℕ → TaxUpdate → TaxRequest
  activate : ℕ → TaxRequest
  remove : ℕ → TaxRequest
  deactivate : TaxRequest

abbrev pub run : TaxRequest → Table.Table TaxConfig → Table.Table TaxConfig
run (create form) t = (create_tax form t).1
run (update id form) t = (update_tax id form t).1
run (activate id) t = (activate_tax id t).1
run (remove id) t = (remove_tax id t).1
run deactivate t = (deactivate_all t).1

abbrev pub run_all : List TaxRequest → Table.Table TaxConfig → Table.Table TaxConfig
run_all [] t = t
run_all (request ∷ requests) t = run_all requests (run request t)

run-IsExclusive :
    (request : TaxRequest) (t : Table.Table TaxConfig)
    → IsExclusive taxes t
    → IsExclusive taxes (run request t)
unfolding create_tax update_tax activate_tax remove_tax deactivate_all get_tax_by_id
run-IsExclusive (create form) t h =
    create_row-IsExclusive taxes (or_else form.is_active true) (tax_row form) t refl refl h
run-IsExclusive (update id form) t h =
    or_throw-cases (λ r. IsExclusive taxes r.1) (Table.find (present taxes id) t) tax_not_found 404
      _ t h
      λ tax found.
        update_row-IsExclusive taxes id (or_else form.is_active false) (change_tax form) t
          (λ tax. refl) (λ tax. refl) (λ off tax. flag_kept form.is_active tax.is_active off) h
run-IsExclusive (activate id) t h =
    or_throw-cases (λ r. IsExclusive taxes r.1) (Table.find (present taxes id) t) tax_not_found 404
      _ t h λ tax found. activate_row-IsExclusive taxes id t h
run-IsExclusive (remove id) t h =
    or_throw-cases (λ r. IsExclusive taxes r.1) (Table.find (present taxes id) t) tax_not_found 404
      _ t h λ tax found. remove_row-IsExclusive taxes id t h
run-IsExclusive deactivate t h = switch_off-IsExclusive taxes t h

-- Whatever administrators do to the taxes, in any order, at most one tax is active and not deleted, and
-- the keys stay unique and below the next one, if it was so before.
pub run_all-taxes-IsExclusive :
    (requests : List TaxRequest) (t : Table.Table TaxConfig)
    → IsExclusive taxes t
    → IsExclusive taxes (run_all requests t)
run_all-taxes-IsExclusive [] t h = h
run_all-taxes-IsExclusive (request ∷ requests) t h =
    run_all-taxes-IsExclusive requests (run request t) (run-IsExclusive request t h)

-- A tax that exists and is activated is from then on the active one, where the table was well-formed
-- before, whichever tax was active.
pub activate_tax_found :
    (id : ℕ) (tax : TaxConfig) (t : Table.Table TaxConfig)
    → IsExclusive taxes t
    → Table.find (present taxes id) t ≡ some tax
    → let (r, t') = activate_tax id t in
      (r ≡ ok tt) × ((find_active_tax t').0 ≡ ok (some (set_active true tax)))
unfolding activate_tax get_tax_by_id find_active_tax
activate_tax_found id tax t h found =
    rw found (refl, ap ok (activate_row_found taxes id tax t found h))
