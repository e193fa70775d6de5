-- ===== src/Db/Table.antt =====
-- A table with an autoincrement key (`@id @default(autoincrement())` in prisma/schema.prisma).
use subscription_be.Prelude.{
  ℕ, ◌+◌, Bool, Option, List, [], ◌∷◌, ◌++◌, find_first, find_many, update_many, count_where,
}

pub record Table (A : Type 0) : Type 0 where
  pub rows : List A
  pub next_id : ℕ

module _ {A : Type 0} where
  -- `create({ data })`: the new row takes the next key, which is `t.next_id`
  abbrev pub create : (ℕ → A) → Table A → Table A
  create row t = record { rows = t.rows ++ row t.next_id ∷ []; next_id = t.next_id + 1 }

  abbrev pub find : (A → Bool) → Table A → Option A
  find p t = find_first p t.rows

  abbrev pub select : (A → Bool) → Table A → List A
  select p t = find_many p t.rows

  abbrev pub update : (A → Bool) → (A → A) → Table A → Table A
  update p f t = record t { rows = update_many p f t.rows }

  abbrev pub count : (A → Bool) → Table A → ℕ
  count p t = count_where p t.rows
