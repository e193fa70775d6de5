-- ===== src/CoinOrder/Pricing.antt =====
-- The price of a coin order: `prepareBundleOrder` and `prepareCustomOrder` of
-- src/client/services/coin-order.service.ts. JavaScript computes with floats; here the same sums are
-- exact, in the scales below, so the last place of a float is not modelled.
--   rupiahs: whole; hundredths: 1/100; micros: 1/10^6 (a price times a percentage).
use subscription_be.Prelude.{ℕ, ◌+◌, ◌*◌, ◌/◌, Option, none, some, if◌then◌else◌, or_else}
use subscription_be.Db.{Db}
use subscription_be.Db.Action.{
  Action, ◌>>=◌, ◌>>◌, return, or_throw, bundle_not_found, invalid_payment_method,
  inactive_currency,
}
use subscription_be.Db.Catalog.{
  FeeType, fixed, percentage, TaxConfig, PaymentMethod, CoinBundle, CoinCurrency, Catalog,
  find_bundle, find_active_currency, find_payment_method,
}
use subscription_be.CoinOrder.{assert_no_active_pending_order}

-- `base_price` in hundredths, `tax_amount` in micros, the others in rupiahs
pub record Quote : Type 0 where
  pub base_price : ℕ
  pub tax_amount : ℕ
  pub gateway_fee : ℕ
  pub total_price : ℕ

-- The price before fees, in micros.
abbrev pub subtotal : ℕ → ℕ → ℕ
subtotal base tax = base * 10000 + tax

abbrev fee_by_type : FeeType → ℕ → ℕ → ℕ
fee_by_type percentage value before = (before * value + 5000000000) / 10000000000
fee_by_type fixed value before = (value + 50) / 100

-- "Calculate gateway fee", rounded
unfoldable pub gateway_fee_of : PaymentMethod → ℕ → ℕ → ℕ
gateway_fee_of m base tax = fee_by_type m.fee_type m.fee_value (subtotal base tax)

-- `Math.round(basePrice + taxAmount + gatewayFee)`
unfoldable pub total_of : ℕ → ℕ → ℕ → ℕ
total_of base tax fee = (subtotal base tax + fee * 1000000 + 500000) / 1000000

-- The tax of a bundle order: `basePrice * (tax_value / 100)`
unfoldable pub bundle_tax : Option TaxConfig → ℕ → ℕ
bundle_tax none base = 0
bundle_tax (some tax) base = base * tax.tax_value

abbrev pub tax_by_type : FeeType → ℕ → ℕ → ℕ
tax_by_type percentage value base = base * value
tax_by_type fixed value base = value * 10000

-- The tax of a custom order, by its type
unfoldable pub custom_tax : Option TaxConfig → ℕ → ℕ
custom_tax none base = 0
custom_tax (some tax) base = tax_by_type tax.tax_type tax.tax_value base

unfoldable pub quote_of : PaymentMethod → ℕ → ℕ → Quote
unfolding gateway_fee_of total_of
quote_of m base tax =
    let fee = gateway_fee_of m base tax in
    record {
      base_price = base;
      tax_amount = tax;
      gateway_fee = fee;
      total_price = total_of base tax fee;
    }

-- `discounted_price ? discounted_price : price`: a `Decimal` object is true, also when it is 0.
abbrev pub bundle_price : CoinBundle → ℕ
bundle_price b = or_else b.discounted_price b.price

-- `Math.round(coinAmount * conversion_rate)`, as hundredths
unfoldable pub custom_price : ℕ → CoinCurrency → ℕ
custom_price coins c = (coins * c.conversion_rate + 5000) / 10000 * 100

-- `!paymentMethod || !paymentMethod.is_active`
abbrev usable_method : Option PaymentMethod → Option PaymentMethod
usable_method none = none
usable_method (some m) = if m.is_active then some m else none

-- `prepareBundleOrder`
unfoldable pub prepare_bundle_order :
    Catalog
    → ℕ
    → ℕ
    → ℕ
    → ℕ
    → Option TaxConfig
    → Action Db (record { bundle : CoinBundle; method : PaymentMethod; quote : Quote })
unfolding assert_no_active_pending_order bundle_tax quote_of
prepare_bundle_order catalog now user bundle_id method_id tax = do
  assert_no_active_pending_order now user
  bundle ← or_throw (find_bundle bundle_id catalog) bundle_not_found 404
  m ← or_throw (usable_method (find_payment_method method_id catalog)) invalid_payment_method 400
  let base = bundle_price bundle
  return (record { bundle = bundle; method = m; quote = quote_of m base (bundle_tax tax base) })

-- `prepareCustomOrder`
unfoldable pub prepare_custom_order :
    Catalog
    → ℕ
    → ℕ
    → ℕ
    → Option TaxConfig
    → ℕ
    → Action Db (record { currency : CoinCurrency; method : PaymentMethod; quote : Quote })
unfolding assert_no_active_pending_order custom_price custom_tax quote_of
prepare_custom_order catalog now user coins tax method_id = do
  assert_no_active_pending_order now user
  currency ← or_throw (find_active_currency catalog) inactive_currency 404
  m ← or_throw (usable_method (find_payment_method method_id catalog)) invalid_payment_method 400
  let base = custom_price coins currency
  return (record { currency = currency; method = m; quote = quote_of m base (custom_tax tax base) })
