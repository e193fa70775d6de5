-- ===== src/Db/Catalog.antt =====
-- Master data of the checkout (prisma/schema.prisma), which no modelled operation of the checkout
-- writes. Amounts (`Decimal(15, 2)`) are in hundredths; a percentage, too, is in hundredths, and a
-- conversion rate (`Decimal(10, 4)`) in ten-thousandths.
use subscription_be.Prelude.{ℕ, String, Bool, not, ◌&&◌, Option, List, ◌==◌, find_first}

pub data FeeType : Type 0 where
  fixed percentage : FeeType

pub record TaxConfig : Type 0 where
  pub id : ℕ
  pub tax_name : String
  pub tax_value : ℕ
  pub tax_type : FeeType
  pub is_active : Bool
  pub deleted : Bool

pub record PaymentMethod : Type 0 where
  pub id : ℕ
  pub fee_type : FeeType
  pub fee_value : ℕ
  pub is_active : Bool
  pub deleted : Bool

pub record CoinBundle : Type 0 where
  pub id : ℕ
  pub coin_amount : ℕ
  pub currency_id : ℕ
  pub price : ℕ
  pub discounted_price : Option ℕ
  pub deleted : Bool

-- `effective_from` and `effective_until` are day numbers.
pub record CoinCurrency : Type 0 where
  pub id : ℕ
  pub currency_name : String
  pub currency_code : String
  pub symbol : String
  pub effective_from : ℕ
  pub effective_until : Option ℕ
  pub conversion_rate : ℕ
  pub is_active : Bool
  pub deleted : Bool

pub record Catalog : Type 0 where
  pub bundles : List CoinBundle
  pub currencies : List CoinCurrency
  pub payment_methods : List PaymentMethod

-- `bundleRepo.findById`
abbrev pub find_bundle : ℕ → Catalog → Option CoinBundle
find_bundle id c = find_first (λ b. b.id == id && not b.deleted) c.bundles

-- `currencyRepo.findActive`
abbrev pub find_active_currency : Catalog → Option CoinCurrency
find_active_currency c = find_first (λ x. not x.deleted && x.is_active) c.currencies

-- `paymentMethodRepo.findById`
abbrev pub find_payment_method : ℕ → Catalog → Option PaymentMethod
find_payment_method id c = find_first (λ m. m.id == id && not m.deleted) c.payment_methods
