-- ===== src/Reports/RoundTrip.antt =====
-- What a file of a report reads back as.
use Prim.Native.String.{[], ◌∷◌, ◌++◌ as text_append}
use text.Mathlib.TextLemmas.{append-nil, append_assoc}
use subscription_be.Prelude.{
  String, Bool, true, ◌&&◌, List, [], ◌∷◌, map, ◌≡◌, refl, sym, ap, ◌∙◌, All,
}
use subscription_be.Reports.{
  quoted_field, join, line, Texts, FormattedReportRow, CoinPaymentReportRow, report_headers,
  payment_headers, report_values, payment_values, generate_csv, generate_coin_payment_csv,
}
use subscription_be.Reports.Csv.{start, pending, bare, next_field, next_row, read, read_csv}
use subscription_be.Reports.Fields.{
  Renders, quoted_field-Renders, word-Renders, is_word, both, comma_then, newline_then,
}

module _ (text : String → String) where
  -- A row whose fields are written so, before a line end or nothing
  read-join :
      (v : String) (vs : List String) (tail : String) (rows : List (List String))
      → Renders (text v) v
      → All (λ v. Renders (text v) v) vs
      → read pending tail ≡ ("" ∷ []) ∷ rows
      → read bare tail ≡ ("" ∷ []) ∷ rows
      → read start (text_append (join "," (map text (v ∷ vs))) tail) ≡ (v ∷ vs) ∷ rows
  read-join v [] tail rows good goods closed ended = good tail [] rows closed ended
  read-join v (w ∷ ws) tail rows good (next, goods) closed ended =
      let more = text_append (join "," (map text (w ∷ ws))) tail in
      let rest = read-join w ws tail rows next goods closed ended in
      ap (read start) (append_assoc (text v) (text_append "," (join "," (map text (w ∷ ws)))) tail)
      ∙ ap (λ (e : String). read start (text_append (text v) e))
          (append_assoc "," (join "," (map text (w ∷ ws))) tail)
      ∙ good (text_append "," more) (w ∷ ws) rows
          (ap (read pending) (comma_then more) ∙ ap next_field rest)
          (ap (read bare) (comma_then more) ∙ ap next_field rest)

-- A row with a field at least
abbrev IsFull : List String → Type 0
IsFull [] = ⊥
IsFull (v ∷ vs) = Unit

quoted_field-All : (vs : List String) → All (λ v. Renders (quoted_field v) v) vs
quoted_field-All [] = tt
quoted_field-All (v ∷ vs) = (quoted_field-Renders v, quoted_field-All vs)

read-line :
    (row : List String) (tail : String) (rows : List (List String))
    → IsFull row
    → read pending tail ≡ ("" ∷ []) ∷ rows
    → read bare tail ≡ ("" ∷ []) ∷ rows
    → read start (text_append (line row) tail) ≡ row ∷ rows
read-line [] tail rows full closed ended = elim full [ ]
read-line (v ∷ vs) tail rows full closed ended =
    read-join quoted_field v vs tail rows (quoted_field-Renders v) (quoted_field-All vs) closed
      ended

-- What stands before the rows, and reads as one row
abbrev Leads : (first : String) (row : List String) → Type 0
Leads first row =
    (tail : String) (rows : List (List String))
    → read pending tail ≡ ("" ∷ []) ∷ rows
    → read bare tail ≡ ("" ∷ []) ∷ rows
    → read start (text_append first tail) ≡ row ∷ rows

read_lines :
    (first : String) (row : List String) (rows : List (List String))
    → Leads first row
    → All IsFull rows
    → read start (join "\n" (first ∷ map line rows)) ≡ row ∷ rows
read_lines first row [] leads full =
    ap (read start) (sym (append-nil first)) ∙ leads "" [] refl refl
read_lines first row (next ∷ rows) leads (one, full) =
    let more = join "\n" (map line (next ∷ rows)) in
    let rest = read_lines (line next) next rows (λ tail rs. read-line next tail rs one) full in
    leads (text_append "\n" more) (next ∷ rows)
      (ap (read pending) (newline_then more) ∙ ap next_row rest)
      (ap (read bare) (newline_then more) ∙ ap next_row rest)

abbrev are_words : List String → Bool
are_words [] = true
are_words (v ∷ vs) = is_word v && are_words vs

words-All : (vs : List String) → are_words vs ≡ true → All (λ v. Renders v v) vs
words-All [] words = tt
words-All (v ∷ vs) words =
    let (here, later) = both (is_word v) (are_words vs) words in
    (word-Renders v here, words-All vs later)

headers-Leads :
    (v : String) (vs : List String)
    → are_words (v ∷ vs) ≡ true
    → Leads (join "," (map (λ w. w) (v ∷ vs))) (v ∷ vs)
headers-Leads v vs words = λ tail rows closed ended.
    let (here, later) = both (is_word v) (are_words vs) words in
    read-join (λ w. w) v vs tail rows (word-Renders v here) (words-All vs later) closed ended

module _ (texts : Texts) where
  report-IsFull : (rows : List FormattedReportRow) → All IsFull (map (report_values texts) rows)
  report-IsFull [] = tt
  report-IsFull (r ∷ rows) = (tt, report-IsFull rows)

  payment-IsFull : (rows : List CoinPaymentReportRow) → All IsFull (map (payment_values texts) rows)
  payment-IsFull [] = tt
  payment-IsFull (r ∷ rows) = (tt, payment-IsFull rows)

  -- The file of the transaction report reads as the headers and, for each row, the values of its keys,
  -- whatever characters they hold.
  pub read_csv-generate_csv :
      (rows : List FormattedReportRow)
      → read_csv (generate_csv texts rows) ≡ report_headers ∷ map (report_values texts) rows
  unfolding read_csv generate_csv
  read_csv-generate_csv rows =
      read_lines (join "," report_headers) report_headers (map (report_values texts) rows)
        (headers-Leads _ _ refl) (report-IsFull rows)

  -- So does the file of the coin payments.
  pub read_csv-generate_coin_payment_csv :
      (rows : List CoinPaymentReportRow)
      → read_csv (generate_coin_payment_csv texts rows)
        ≡ payment_headers ∷ map (payment_values texts) rows
  unfolding read_csv generate_coin_payment_csv
  read_csv-generate_coin_payment_csv rows =
      read_lines (join "," payment_headers) payment_headers (map (payment_values texts) rows)
        (headers-Leads _ _ refl) (payment-IsFull rows)
