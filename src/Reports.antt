-- ===== src/Reports.antt =====
-- The CSV files of src/subscription/services/report.service.ts and the interval of its charts.
pub mod Csv
pub mod Fields
pub mod RoundTrip
use Prim.Native.Char.{Char, code}
use Prim.Native.String.{[], ◌∷◌, ◌++◌ as text_append}
use native.Mathlib.Decide.{ℕ_discrete}
use subscription_be.Prelude.{
  ℕ, ◌+◌, ◌-◌, ◌/◌, String, Bool, true, false, Option, none, some, List, [], ◌∷◌, map, ◌==◌, ltb,
  if◌then◌else◌,
}

-- `.replace(/"/g, '""')`
abbrev pub is_quote : Char → Bool
is_quote c = code c == 34

abbrev pub escape : String → String
escape [] = []
escape (c ∷ s) = let rest = escape s in if is_quote c then c ∷ c ∷ rest else c ∷ rest

-- `"${escaped}"`
abbrev pub quoted_field : String → String
quoted_field v = text_append "\"" (text_append (escape v) "\"")

-- `Array.prototype.join`
abbrev pub join : String → List String → String
join sep [] = ""
join sep (x ∷ []) = x
join sep (x ∷ y ∷ ys) = text_append x (text_append sep (join sep (y ∷ ys)))

abbrev pub line : List String → String
line values = join "," (map quoted_field values)

-- What both generators do: the headers, then a line for each row
unfoldable pub csv : List String → List (List String) → String
csv headers rows = join "\n" (join "," headers ∷ map line rows)

-- `FormattedReportRow` without the key, which no file shows. Amounts are hundredths.
pub record FormattedReportRow : Type 0 where
  pub date : String
  pub pg_order_id : String
  pub client_name : String
  pub client_email : String
  pub coin_amount : ℕ
  pub coin_price : ℕ
  pub tax_amount : ℕ
  pub gateway_fee : ℕ
  pub price_paid : ℕ
  pub payment_method : String
  pub status : String

-- `CoinPaymentReportRow`, in the same way
pub record CoinPaymentReportRow : Type 0 where
  pub date : String
  pub pg_order_id : String
  pub client_name : String
  pub client_email : String
  pub coin_amount : ℕ
  pub coin_price : ℕ
  pub tax_amount : ℕ
  pub gateway_fee : ℕ
  pub price_paid : ℕ
  pub payment_method : String
  pub payment_channel : String

-- JavaScript's texts of a whole number and of a number of hundredths
pub record Texts : Type 0 where
  pub of_count : ℕ → String
  pub of_amount : ℕ → String

abbrev pub report_headers : List String
report_headers =
    "Date" ∷ "PG Order ID" ∷ "Client Name" ∷ "Client Email" ∷ "Coin Amount" ∷ "Coin Price (Base)"
    ∷ "Tax Amount" ∷ "Gateway Fee" ∷ "Total Paid" ∷ "Payment Method" ∷ "Status" ∷ []

abbrev pub payment_headers : List String
payment_headers =
    "Date" ∷ "PG Order ID" ∷ "Client Name" ∷ "Client Email" ∷ "Coin Amount" ∷ "Coin Price (Base)"
    ∷ "Tax Amount" ∷ "Gateway Fee" ∷ "Total Paid" ∷ "Payment Method" ∷ "Payment Channel" ∷ []

module _ (texts : Texts) where
  -- The values of the keys, as texts
  abbrev pub report_values : FormattedReportRow → List String
  report_values r =
      r.date
      ∷ r.pg_order_id
      ∷ r.client_name
      ∷ r.client_email
      ∷ texts.of_count r.coin_amount
      ∷ texts.of_amount r.coin_price
      ∷ texts.of_amount r.tax_amount
      ∷ texts.of_amount r.gateway_fee
      ∷ texts.of_amount r.price_paid
      ∷ r.payment_method
      ∷ r.status
      ∷ []

  abbrev pub payment_values : CoinPaymentReportRow → List String
  payment_values r =
      r.date
      ∷ r.pg_order_id
      ∷ r.client_name
      ∷ r.client_email
      ∷ texts.of_count r.coin_amount
      ∷ texts.of_amount r.coin_price
      ∷ texts.of_amount r.tax_amount
      ∷ texts.of_amount r.gateway_fee
      ∷ texts.of_amount r.price_paid
      ∷ r.payment_method
      ∷ r.payment_channel
      ∷ []

  -- `generateCSV`
  unfoldable pub generate_csv : List FormattedReportRow → String
  unfolding csv
  generate_csv rows = csv report_headers (map report_values rows)

  -- `generateCoinPaymentCSV`
  unfoldable pub generate_coin_payment_csv : List CoinPaymentReportRow → String
  unfolding csv
  generate_coin_payment_csv rows = csv payment_headers (map payment_values rows)
