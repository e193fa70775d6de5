-- ===== src/Prelude/Rows.antt =====
-- Queries over the rows of a table: Prisma's `findFirst`, `findMany`, `updateMany`, `count`, and
-- the array methods `some`, `filter` and `reduce` that the services call on what they return.
use Prim.Native.Nat.{ℕ, zero, suc, ◌+◌, ◌*◌, ◌≤◌, ◌<◌}
use mathlib.Core.Path.{◌≡◌, refl}
use mathlib.Core.Bool.{Bool, true, false, ◌||◌}
use mathlib.Core.Option.{Option, none, some}
use mathlib.Core.List.{List, [], ◌∷◌, ◌++◌}
use native.Mathlib.Omega.{arith}
use subscription_be.Prelude.Tests.{if◌then◌else◌}

module _ {ℓ} {A : Type ℓ} where
  abbrev pub length : List A → ℕ
  length [] = 0
  length (x ∷ xs) = suc (length xs)

  -- `take: n`
  abbrev pub take : ℕ → List A → List A
  take zero xs = []
  take (suc n) [] = []
  take (suc n) (x ∷ xs) = x ∷ take n xs

  -- `findFirst({ where })`, and `findUnique` on a unique column
  abbrev pub find_first : (A → Bool) → List A → Option A
  find_first p [] = none
  find_first p (x ∷ xs) = if p x then some x else find_first p xs

  -- `findMany({ where })`, and `filter`
  abbrev pub find_many : (A → Bool) → List A → List A
  find_many p [] = []
  find_many p (x ∷ xs) = let rest = find_many p xs in if p x then x ∷ rest else rest

  -- `updateMany({ where, data })`, and `update` on a unique column
  abbrev pub update_many : (A → Bool) → (A → A) → List A → List A
  update_many p f [] = []
  update_many p f (x ∷ xs) = (if p x then f x else x) ∷ update_many p f xs

  -- the number of rows that match: `count`, and the `count` that `updateMany` returns
  abbrev pub count_where : (A → Bool) → List A → ℕ
  count_where p [] = 0
  count_where p (x ∷ xs) = (if p x then 1 else 0) + count_where p xs

  -- the sum of a column over the rows that match
  abbrev pub sum_where : (A → Bool) → (A → ℕ) → List A → ℕ
  sum_where p v [] = 0
  sum_where p v (x ∷ xs) = (if p x then v x else 0) + sum_where p v xs

  -- `rows.some(p)`
  abbrev pub any : (A → Bool) → List A → Bool
  any p [] = false
  any p (x ∷ xs) = p x || any p xs

  abbrev pub All {κ} : (A → Type κ) → List A → Type κ
  All P [] = Unit
  All P (x ∷ xs) = P x × All P xs

module _ {ℓ} {A : Type ℓ} (p : A → Bool) where
  pub count_where-append :
      (xs ys : List A) → count_where p (xs ++ ys) ≡ count_where p xs + count_where p ys
  count_where-append [] ys = omega arith
  count_where-append (x ∷ xs) ys = omega (arith, count_where-append xs ys)

  pub sum_where-append :
      (v : A → ℕ) (xs ys : List A) → sum_where p v (xs ++ ys) ≡ sum_where p v xs + sum_where p v ys
  sum_where-append v [] ys = omega arith
  sum_where-append v (x ∷ xs) ys = omega (arith, sum_where-append v xs ys)

  pub find_first-sat : (xs : List A) (x : A) → find_first p xs ≡ some x → p x ≡ true
  find_first-sat [] x e = ground arith
  find_first-sat (y ∷ xs) x e = ground (arith, find_first-sat xs x)

  pub find_first-none : (xs : List A) → find_first p xs ≡ none → count_where p xs ≡ 0
  find_first-none [] e = refl
  find_first-none (y ∷ xs) e = ground (arith, find_first-none xs)

  pub find_first-some : (xs : List A) (x : A) → find_first p xs ≡ some x → 0 < count_where p xs
  find_first-some [] x e = ground arith
  find_first-some (y ∷ xs) x e = ground (arith, find_first-some xs x)

  -- An update that changes neither the test nor the column changes no sum.
  pub sum_where-update_many_ne :
      (v : A → ℕ) (q : A → Bool) (f : A → A) (xs : List A)
      → ((x : A) → p x ≡ true → q x ≡ false)
      → ((x : A) → q x ≡ true → p (f x) ≡ false)
      → sum_where p v (update_many q f xs) ≡ sum_where p v xs
  sum_where-update_many_ne v q f [] h k = refl
  sum_where-update_many_ne v q f (x ∷ xs) h k =
      ground (arith, sum_where-update_many_ne v q f xs h k, h x, k x)

  pub count_where-update_many :
      (q : A → Bool) (f : A → A) (xs : List A)
      → ((x : A) → p (f x) ≡ p x)
      → count_where p (update_many q f xs) ≡ count_where p xs
  count_where-update_many q f [] h = refl
  count_where-update_many q f (x ∷ xs) h = ground (arith, count_where-update_many q f xs h, h x)

  -- Adding `c` to the column of every row that matches `q`, a part of the rows summed.
  pub sum_where-update_many_add :
      (v : A → ℕ) (q : A → Bool) (f : A → A) (c : ℕ) (xs : List A)
      → ((x : A) → p (f x) ≡ p x)
      → ((x : A) → q x ≡ true → p x ≡ true)
      → ((x : A) → v (f x) ≡ v x + c)
      → sum_where p v (update_many q f xs) ≡ sum_where p v xs + count_where q xs * c
  sum_where-update_many_add v q f c [] hp hq hv = omega arith
  sum_where-update_many_add v q f c (x ∷ xs) hp hq hv =
      grind (arith, sum_where-update_many_add v q f c xs hp hq hv, hp x, hq x, hv x)

  -- Taking `c` from the column of every row that matches `q`, which all hold as much.
  pub sum_where-update_many_sub :
      (v : A → ℕ) (q : A → Bool) (f : A → A) (c : ℕ) (xs : List A)
      → ((x : A) → p (f x) ≡ p x)
      → ((x : A) → q x ≡ true → p x ≡ true)
      → ((x : A) → q x ≡ true → v (f x) + c ≡ v x)
      → sum_where p v (update_many q f xs) + count_where q xs * c ≡ sum_where p v xs
  sum_where-update_many_sub v q f c [] hp hq hv = omega arith
  sum_where-update_many_sub v q f c (x ∷ xs) hp hq hv =
      grind (arith, sum_where-update_many_sub v q f c xs hp hq hv, hp x, hq x, hv x)

  pub count_where_mono :
      (q : A → Bool) (xs : List A)
      → ((x : A) → q x ≡ true → p x ≡ true)
      → count_where q xs ≤ count_where p xs
  count_where_mono q [] h = omega arith
  count_where_mono q (x ∷ xs) h = ground (arith, count_where_mono q xs h, h x)

  -- An update that no row matches changes nothing.
  pub update_many_none : (f : A → A) (xs : List A) → count_where p xs ≡ 0 → update_many p f xs ≡ xs
  update_many_none f [] h = refl
  update_many_none f (x ∷ xs) h = ground (arith, update_many_none f xs)

  -- An update after which no row matches any more.
  pub count_where-update_many_clear :
      (f : A → A) (xs : List A)
      → ((x : A) → p x ≡ true → p (f x) ≡ false)
      → count_where p (update_many p f xs) ≡ 0
  count_where-update_many_clear f [] h = refl
  count_where-update_many_clear f (x ∷ xs) h =
      ground (arith, count_where-update_many_clear f xs h, h x)

  -- An update that makes no new row match.
  pub count_where-update_many_le :
      (q : A → Bool) (f : A → A) (xs : List A)
      → ((x : A) → q x ≡ true → p (f x) ≡ true → p x ≡ true)
      → count_where p (update_many q f xs) ≤ count_where p xs
  count_where-update_many_le q f [] h = omega arith
  count_where-update_many_le q f (x ∷ xs) h =
      ground (arith, count_where-update_many_le q f xs h, h x)

  -- The same, where no row that matched is touched either.
  pub count_where-update_many_ne :
      (q : A → Bool) (f : A → A) (xs : List A)
      → ((x : A) → q x ≡ true → p x ≡ false)
      → ((x : A) → q x ≡ true → p (f x) ≡ false)
      → count_where p (update_many q f xs) ≡ count_where p xs
  count_where-update_many_ne q f [] h k = refl
  count_where-update_many_ne q f (x ∷ xs) h k =
      ground (arith, count_where-update_many_ne q f xs h k, h x, k x)

  pub find_first_of_count : (xs : List A) → count_where p xs ≡ 0 → find_first p xs ≡ none
  find_first_of_count [] h = refl
  find_first_of_count (x ∷ xs) h = ground (arith, find_first_of_count xs)

  -- An update that takes the first match out, among others.
  pub count_where-update_first :
      (q : A → Bool) (f : A → A) (xs : List A) (x : A)
      → find_first p xs ≡ some x
      → q x ≡ true
      → ((y : A) → q y ≡ true → p (f y) ≡ false)
      → count_where p (update_many q f xs) + 1 ≤ count_where p xs
  count_where-update_first q f [] x found hit h = ground arith
  count_where-update_first q f (y ∷ xs) x found hit h = ground (
    arith,
    count_where-update_first q f xs x,
    count_where-update_many_le q f xs (λ z e k. ground (arith, h z e)),
    h y,
    hit,
  )

  pub update_many-append :
      (f : A → A) (xs ys : List A)
      → update_many p f (xs ++ ys) ≡ update_many p f xs ++ update_many p f ys
  update_many-append f [] ys = refl
  update_many-append f (x ∷ xs) ys = ground (arith, update_many-append f xs ys)

  -- An update that takes a row out, which another query has found.
  pub count_where-update_found :
      (r q : A → Bool) (f : A → A) (xs : List A) (x : A)
      → find_first r xs ≡ some x
      → p x ≡ true
      → ((y : A) → r y ≡ true → q y ≡ true)
      → ((y : A) → q y ≡ true → p (f y) ≡ false)
      → count_where p (update_many q f xs) + 1 ≤ count_where p xs
  count_where-update_found r q f [] x found hit hits out = ground arith
  count_where-update_found r q f (y ∷ xs) x found hit hits out = ground (
    arith,
    count_where-update_found r q f xs x,
    count_where-update_many_le q f xs (λ z e k. ground (arith, out z e)),
    hits y,
    out y,
    hit,
  )

  -- The rows after those that hold no match.
  pub find_first-append_none :
      (xs ys : List A) → count_where p xs ≡ 0 → find_first p (xs ++ ys) ≡ find_first p ys
  find_first-append_none [] ys h = refl
  find_first-append_none (x ∷ xs) ys h = ground (arith, find_first-append_none xs ys)

  -- What is found is counted.
  pub count_where-found :
      (r : A → Bool) (xs : List A) (x : A)
      → find_first p xs ≡ some x
      → r x ≡ true
      → 1 ≤ count_where r xs
  count_where-found r [] x found hit = ground arith
  count_where-found r (y ∷ xs) x found hit = ground (arith, count_where-found r xs x, hit)

  -- The row that was found, after an update that reaches it; `r` matches no other row.
  pub find_first-update_found :
      (q r : A → Bool) (f : A → A) (xs : List A) (x : A)
      → find_first p xs ≡ some x
      → count_where r xs ≤ 1
      → r x ≡ true
      → q x ≡ true
      → ((y : A) → r y ≡ true → r (f y) ≡ true)
      → ((y : A) → r y ≡ false → r (f y) ≡ false)
      → find_first r (update_many q f xs) ≡ some (f x)
  find_first-update_found q r f [] x found one hit hits same same' = ground arith
  find_first-update_found q r f (y ∷ xs) x found one hit hits same same' = ground (
    arith,
    find_first-update_found q r f xs x,
    count_where-found r xs x,
    hit,
    hits,
    same y,
    same' y,
    same,
    same',
  )

  -- The first match, after an update that keeps who matches.
  pub find_first-update :
      (q : A → Bool) (f : A → A) (xs : List A) (x : A)
      → find_first p xs ≡ some x
      → q x ≡ true
      → ((y : A) → p (f y) ≡ p y)
      → find_first p (update_many q f xs) ≡ some (f x)
  find_first-update q f [] x found hit same = ground arith
  find_first-update q f (y ∷ xs) x found hit same =
      ground (arith, find_first-update q f xs x, same y, hit)
