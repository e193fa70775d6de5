-- ===== src/CoinOrder/Prices.antt =====
-- Properties of the quotes: rounding, the two tax rules, and the amount that a callback accepts.
use subscription_be.Prelude.{
  ℕ, ◌*◌, ◌≡◌, refl, ◌≢◌, String, Option, some, false, ◌↔◌, ◌⊎◌, inl, inr, arith,
}
use native.Mathlib.Decide.{ℕ_discrete}
use subscription_be.Db.Catalog.{FeeType, fixed, percentage, TaxConfig, PaymentMethod}
use subscription_be.CoinOrder.{order_row}
use subscription_be.CoinOrder.Payment.{mismatched}
use subscription_be.CoinOrder.Pricing.{tax_by_type, quote_of, bundle_tax, custom_tax}
use subscription_be.CoinOrder.Checkout.{order_of}

-- A callback that reports the total of the quote passes the amount check of the order made from it.
pub quote_of_accepted :
    (m : PaymentMethod) (base tax now user coins currency id : ℕ) (bundle : Option ℕ) (pg : String)
    → let q = quote_of m base tax in
      mismatched
        (some (q.total_price * 100))
        (order_row now (order_of user bundle coins currency m.id pg q) id)
      ≡ false
unfolding mismatched
quote_of_accepted m base tax now user coins currency id bundle pg = ground arith

cancel_value : (base value : ℕ) → value ≢ 0 → base * value ≡ value * 10000 → base ≡ 10000
cancel_value base value ne e = grind arith

tax_agree_back :
    (value base : ℕ)
    → (fixed ≡ percentage) ⊎ (value ≡ 0) ⊎ (base ≡ 10000)
    → base * value ≡ value * 10000
tax_agree_back value base (inl e) = cc
tax_agree_back value base (inr (inl e)) = rw e (omega arith)
tax_agree_back value base (inr (inr e)) = rw e (omega arith)

tax_agree_by_type :
    (t : FeeType) (value base : ℕ)
    → (base * value ≡ tax_by_type t value base) ↔ ((t ≡ percentage) ⊎ (value ≡ 0) ⊎ (base ≡ 10000))
tax_agree_by_type percentage value base = (λ e. inl refl, λ h. refl)
tax_agree_by_type fixed value base = (
  λ e. elim (ℕ_discrete value 0) [
    | yes zero_value ↦ inr (inl zero_value)
    | no ne ↦ inr (inr (cancel_value base value ne e))
  ],
  λ h. tax_agree_back value base h,
)

-- The two flows charge the same tax exactly if it is a percentage, or it is zero, or the price is
-- 100 rupiahs: a bundle order takes the value of a FIXED tax for a percentage.
pub tax_agree_iff :
    (tax : TaxConfig) (base : ℕ)
    → (bundle_tax (some tax) base ≡ custom_tax (some tax) base)
      ↔ ((tax.tax_type ≡ percentage) ⊎ (tax.tax_value ≡ 0) ⊎ (base ≡ 10000))
unfolding bundle_tax custom_tax
tax_agree_iff tax base = tax_agree_by_type tax.tax_type tax.tax_value base
