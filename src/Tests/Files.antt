-- ===== src/Tests/Files.antt =====
-- A file of a report and the pages of a listing at concrete inputs.
use subscription_be.Prelude.{ℕ, String, List, [], ◌∷◌, map, ◌≡◌, refl, arith}
use subscription_be.Http.Pages.{list_page, browse, browse_all}
use subscription_be.Http.Sorted.{IsSorted}
use subscription_be.Reports.{
  FormattedReportRow, Texts, report_headers, report_values, generate_csv, line,
}
use subscription_be.Reports.Csv.{read_csv}
use subscription_be.Reports.RoundTrip.{read_csv-generate_csv}

abbrev constant : ℕ → String
constant n = "10"

abbrev test_texts : Texts
test_texts = record { of_count = constant; of_amount = constant }

abbrev report_row : FormattedReportRow
report_row = record {
  date = "2025-01-31T00:00:00.000Z";
  pg_order_id = "ORDER-1";
  client_name = "Ann \"A\", Ltd";
  client_email = "ann@example.org";
  coin_amount = 10;
  coin_price = 1000;
  tax_amount = 110;
  gateway_fee = 40;
  price_paid = 1150;
  payment_method = "QRIS";
  status = "PAID";
}

quotes-double : line ("Ann \"A\", Ltd" ∷ "x" ∷ []) ≡ "\"Ann \"\"A\"\", Ltd\",\"x\""
quotes-double = refl

read_csv-generate_csv_example :
    read_csv (generate_csv test_texts (report_row ∷ report_row ∷ []))
    ≡ report_headers ∷ map (report_values test_texts) (report_row ∷ report_row ∷ [])
read_csv-generate_csv_example = read_csv-generate_csv test_texts (report_row ∷ report_row ∷ [])

abbrev three : List ℕ
three = 5 ∷ 6 ∷ 7 ∷ []

second_page : (list_page three 2 2).rows ≡ 7 ∷ []
unfolding list_page
second_page = refl

three-IsSorted : IsSorted (λ (n : ℕ). n) three
three-IsSorted = ((ground arith, (ground arith, tt)), ((ground arith, tt), (tt, tt)))

browse_all_example : browse (λ page. three) 2 1 (list_page three 1 2).total_pages ≡ three
browse_all_example =
    browse_all (λ n. n) (λ page. three) three 2 (ground arith) three-IsSorted
      (λ page. three-IsSorted) (λ page a found. found) (λ page a found. found)
