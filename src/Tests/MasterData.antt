-- ===== src/Tests/MasterData.antt =====
-- Taxes and currencies at concrete inputs.
use subscription_be.Prelude.{true, false, none, some, List, [], ◌∷◌, arith}
use subscription_be.Db.Table
use subscription_be.Db.Catalog.{TaxConfig, percentage, CoinCurrency}
use subscription_be.Masters.Exclusive.{IsExclusive}
use subscription_be.Masters.Taxes
use subscription_be.Masters.Currencies
use subscription_be.Masters.Bundles
use subscription_be.Masters.BundleRows.{IsPriced}
use subscription_be.Masters.BundleLaws.{run_all-IsPriced}

abbrev vat : TaxConfig
vat = record {
  id = 1;
  tax_name = "VAT";
  tax_value = 1100;
  tax_type = percentage;
  is_active = true;
  deleted = false;
}

abbrev luxury : TaxConfig
luxury = record vat { id = 2; tax_name = "Luxury"; is_active = false }

abbrev tax_table : Table.Table TaxConfig
tax_table = record { rows = vat ∷ luxury ∷ []; next_id = 3 }

tax_table-IsExclusive : IsExclusive Taxes.taxes tax_table
tax_table-IsExclusive = record {
  one_row = λ id. ground arith;
  unused = λ id le. ground arith;
  one_live = ground arith;
}

abbrev tax_requests : List Taxes.TaxRequest
tax_requests =
    Taxes.create
      (record { tax_name = "Service"; tax_value = 500; tax_type = percentage; is_active = none })
    ∷ Taxes.activate 2
    ∷ Taxes.update 1
        (record { tax_name = none; tax_value = none; tax_type = none; is_active = some true })
    ∷ Taxes.remove 3
    ∷ Taxes.deactivate
    ∷ []

run_all-taxes-IsExclusive_example : IsExclusive Taxes.taxes (Taxes.run_all tax_requests tax_table)
run_all-taxes-IsExclusive_example =
    Taxes.run_all-taxes-IsExclusive tax_requests tax_table tax_table-IsExclusive

abbrev rupiah_form : Currencies.CurrencyData
rupiah_form = record {
  currency_name = "Rupiah";
  currency_code = "IDR";
  symbol = "Rp";
  effective_from = 0;
  effective_until = none;
  conversion_rate = 10000000;
  is_active = none;
}

abbrev currency_table : Table.Table CoinCurrency
currency_table = record { rows = Currencies.currency_row rupiah_form 1 ∷ []; next_id = 2 }

currency_table-IsExclusive : IsExclusive Currencies.currencies currency_table
currency_table-IsExclusive = record {
  one_row = λ id. ground arith;
  unused = λ id le. ground arith;
  one_live = ground arith;
}

abbrev currency_requests : List Currencies.CurrencyRequest
currency_requests =
    Currencies.create (record rupiah_form { currency_code = "USD" })
    ∷ Currencies.activate 1
    ∷ Currencies.remove 2
    ∷ []

abbrev starter : Bundles.BundleForm
starter = record {
  bundle_name = "Starter";
  coin_amount = 10;
  currency_id = 1;
  discounted_price = some (some 900000);
  is_active = true;
}

abbrev bundle_store : Bundles.BundleStore
bundle_store = record {
  bundles = record { rows = Bundles.bundle_row starter 10000000 1 ∷ []; next_id = 2 };
  currencies = record {
    rows = record (Currencies.currency_row rupiah_form 1) { is_active = true } ∷ [];
    next_id = 2;
  };
}

bundle_store-IsPriced : IsPriced bundle_store.bundles
bundle_store-IsPriced = record {
  one_row = λ id. ground arith;
  unused = λ id le. ground arith;
  fair = (ground arith, tt);
}

-- A second bundle, one that is too dear, and a smaller first one
abbrev bundle_requests : List Bundles.BundleRequest
bundle_requests =
    Bundles.create starter
    ∷ Bundles.create (record starter { coin_amount = 1 })
    ∷ Bundles.update 1 (record {
      bundle_name = none;
      coin_amount = some 20;
      currency_id = none;
      discounted_price = none;
      is_active = none;
    })
    ∷ Bundles.remove 2
    ∷ []

run_all-IsPriced_example : IsPriced (Bundles.run_all bundle_requests bundle_store).bundles
run_all-IsPriced_example = run_all-IsPriced bundle_requests bundle_store bundle_store-IsPriced
