-- ===== src/Http/Pages.antt =====
-- `paginate` of src/shared/utils/pagination.util.ts, and the pages that a listing takes with
-- `skip: (page - 1) * limit` and `take: limit`. Pages count from 1, and a limit is positive.
use mathlib.Core.List.{append_assoc, append-nil}
use native.Mathlib.Nat.{mod-lt, div-add-mod'}
use subscription_be.Http.Sorted.{Among, IsSorted, sorted_unique}
use subscription_be.Prelude.{
  ℕ, zero, suc, ◌+◌, ◌-◌, ◌*◌, ◌/◌, ◌≤◌, ◌<◌, ◌≡◌, refl, sym, ap, ◌∙◌, Bool, List, [], ◌∷◌, ◌++◌,
  ltb, arith, length, take,
}

-- `PaginatedResult`
pub record Paginated (A : Type 0) : Type 0 where
  pub rows : List A
  pub total : ℕ
  pub page : ℕ
  pub limit : ℕ
  pub total_pages : ℕ
  pub has_prev_page : Bool
  pub has_next_page : Bool

-- `Math.ceil(total / limit)`
abbrev pub total_pages : ℕ → ℕ → ℕ
total_pages total limit = (total + (limit - 1)) / limit

enough_pages : (total limit : ℕ) → 0 < limit → total ≤ total_pages total limit * limit
enough_pages total limit positive =
    let small = mod-lt (total + (limit - 1)) positive in
    let split = div-add-mod' (total + (limit - 1)) limit in omega (arith, small, split, positive)

module _ {A : Type 0} where
  unfoldable pub paginate : List A → ℕ → ℕ → ℕ → Paginated A
  paginate rows total page limit = record {
    rows = rows;
    total = total;
    page = page;
    limit = limit;
    total_pages = total_pages total limit;
    has_prev_page = ltb 1 page;
    has_next_page = ltb page (total_pages total limit);
  }

  -- `skip: n`
  abbrev pub drop : ℕ → List A → List A
  drop zero xs = xs
  drop (suc n) [] = []
  drop (suc n) (x ∷ xs) = drop n xs

  -- A listing of the rows as its query returns them
  unfoldable pub list_page : List A → ℕ → ℕ → Paginated A
  unfolding paginate
  list_page found page limit =
      paginate (take limit (drop ((page - 1) * limit) found)) (length found) page limit

  -- The rows of a number of pages, from a page on
  unfoldable pub pages_from : List A → ℕ → ℕ → ℕ → List A
  unfolding list_page
  pages_from found limit page zero = []
  pages_from found limit page (suc n) =
      (list_page found page limit).rows ++ pages_from found limit (page + 1) n

  take-drop : (n : ℕ) (xs : List A) → take n xs ++ drop n xs ≡ xs
  take-drop zero xs = refl
  take-drop (suc n) [] = refl
  take-drop (suc n) (x ∷ xs) = ap (λ (l : List A). x ∷ l) (take-drop n xs)

  at : (xs : List A) {n m : ℕ} → n ≡ m → drop n xs ≡ drop m xs
  at xs e = ap (λ (n : ℕ). drop n xs) e

  drop-none : (n : ℕ) → drop n [] ≡ []
  drop-none zero = refl
  drop-none (suc n) = refl

  drop-drop : (n m : ℕ) (xs : List A) → drop m (drop n xs) ≡ drop (n + m) xs
  drop-drop zero m xs = at xs (omega arith)
  drop-drop (suc n) m [] = drop-none m ∙ sym (drop-none (suc n + m))
  drop-drop (suc n) m (x ∷ xs) =
      drop-drop n m xs ∙ at (x ∷ xs) {n = suc (n + m)} {m = suc n + m} (omega arith)

  drop-length : (n : ℕ) (xs : List A) → length xs ≤ n → drop n xs ≡ []
  drop-length zero [] le = refl
  drop-length zero (x ∷ xs) le = ground arith
  drop-length (suc n) [] le = refl
  drop-length (suc n) (x ∷ xs) le = drop-length n xs (omega (arith, le))

  pages_from_rest :
      (found : List A) (limit k n : ℕ)
      → pages_from found limit (k + 1) n ++ drop ((k + n) * limit) found ≡ drop (k * limit) found
  unfolding pages_from
  pages_from_rest found limit k zero = at found (ap (λ (n : ℕ). n * limit) (omega arith))
  pages_from_rest found limit k (suc n) =
      let here : (k + 1 - 1) * limit ≡ k * limit = ap (λ (n : ℕ). n * limit) (omega arith) in
      let there : (k + suc n) * limit ≡ (k + 1 + n) * limit =
        ap (λ (n : ℕ). n * limit) (omega arith) in
      let next : (k + 1) * limit ≡ k * limit + limit = omega arith in
      let page = take limit (drop ((k + 1 - 1) * limit) found) in
      let later = pages_from found limit (k + 1 + 1) n in
      append_assoc page later (drop ((k + suc n) * limit) found)
      ∙ ap (λ (l : List A). page ++ (later ++ l)) (at found there)
      ∙ ap (λ (l : List A). page ++ l) (pages_from_rest found limit (k + 1) n)
      ∙ ap (λ (l : List A). page ++ l) (at found next ∙ sym (drop-drop (k * limit) limit found))
      ∙ ap (λ (l : List A). take limit l ++ drop limit (drop (k * limit) found)) (at found here)
      ∙ take-drop limit (drop (k * limit) found)

  pages_from_all :
      (found : List A) (limit : ℕ)
      → 0 < limit
      → pages_from found limit 1 (list_page found 1 limit).total_pages ≡ found
  unfolding list_page pages_from
  pages_from_all found limit positive =
      let n = total_pages (length found) limit in
      let gone : drop (n * limit) found ≡ [] =
        drop-length (n * limit) found (enough_pages (length found) limit positive) in
      sym (append-nil (pages_from found limit 1 n))
      ∙ ap (λ (l : List A). pages_from found limit 1 n ++ l) (sym gone)
      ∙ ap (λ (l : List A). pages_from found limit 1 n ++ l)
          (at found (ap (λ (m : ℕ). m * limit) (omega arith)))
      ∙ pages_from_rest found limit 0 n
      ∙ at found {n = 0 * limit} {m = 0} (omega arith)

  -- Pages that are asked for one after the other, each from its own query
  unfoldable pub browse : (ℕ → List A) → ℕ → ℕ → ℕ → List A
  unfolding list_page
  browse found limit page zero = []
  browse found limit page (suc n) =
      (list_page (found page) page limit).rows ++ browse found limit (page + 1) n

  browse_same :
      (found : ℕ → List A) (rows : List A) (limit page n : ℕ)
      → ((p : ℕ) → found p ≡ rows)
      → browse found limit page n ≡ pages_from rows limit page n
  unfolding browse pages_from
  browse_same found rows limit page zero same = refl
  browse_same found rows limit page (suc n) same =
      ap
        (λ (l : List A).
          take limit (drop ((page - 1) * limit) l) ++ browse found limit (page + 1) n)
        (same page)
      ∙ ap (λ (l : List A). take limit (drop ((page - 1) * limit) rows) ++ l)
          (browse_same found rows limit (page + 1) n same)

  -- Where no two rows have the same sort key, and the rows stay as they are while the pages are asked for,
  -- the pages of a listing, each from its own sorted query, show every row once and in order.
  pub browse_all :
      (key : A → ℕ) (found : ℕ → List A) (rows : List A) (limit : ℕ)
      → 0 < limit
      → IsSorted key rows
      → ((p : ℕ) → IsSorted key (found p))
      → ((p : ℕ) (a : A) → Among a (found p) → Among a rows)
      → ((p : ℕ) (a : A) → Among a rows → Among a (found p))
      → browse found limit 1 (list_page (found 1) 1 limit).total_pages ≡ rows
  browse_all key found rows limit positive ordered sorted into back =
      let same : (p : ℕ) → found p ≡ rows =
        λ p. sorted_unique key (found p) rows (sorted p) ordered (into p) (back p) in
      ap (λ (l : List A). browse found limit 1 (list_page l 1 limit).total_pages) (same 1)
      ∙ browse_same found rows limit 1 (list_page rows 1 limit).total_pages same
      ∙ pages_from_all rows limit positive
