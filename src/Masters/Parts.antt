-- ===== src/Masters/Parts.antt =====
-- What src/subscription/repositories/benefit.repository.ts, feature.repository.ts and addon.repository.ts
-- have in common: the rows of a plan, upserted and removed by lists.
use subscription_be.Prelude.{
  ℕ, zero, suc, ◌<◌, ◌≡◌, refl, ◌∙◌, Bool, false, ◌&&◌, Option, none, some, List, [], ◌∷◌, ◌++◌,
  ◌==◌, arith, inl, inr, Bool-cases, any, is_some, find_first, update_many, if◌then◌else◌,
}
use native.Mathlib.Decide.{ℕ_discrete}
use subscription_be.Db.Table
use subscription_be.Db.Action.{
  Action, Result, continue, ok, err, ◌>>◌, return, writes, record_not_found,
}

-- A row of a plan: its key, the plan's key, what an update with `{ ...rest, sku_id }` writes, what
-- `create` inserts, and the soft delete
pub record Part (A Rest : Type 0) : Type 0 where
  pub key : A → ℕ
  pub sku : A → ℕ
  pub write : ℕ → Rest → A → A
  pub make : ℕ → Rest → ℕ → A
  pub discard : A → A
  pub key_write : (plan : ℕ) (rest : Rest) (a : A) → key (write plan rest a) ≡ key a
  pub key_make : (plan : ℕ) (rest : Rest) (id : ℕ) → key (make plan rest id) ≡ id
  pub key_discard : (a : A) → key (discard a) ≡ key a

module _ {A Rest : Type 0} (I : Part A Rest) where
  abbrev pub has_key : ℕ → A → Bool
  has_key id a = I.key a == id

  -- One element of the list: an update where it has a key, else a new row. An update of a key that is not
  -- there throws Prisma's P2025.
  abbrev pub upsert_part : ℕ → Option ℕ → Rest → Action (Table.Table A) (Unit {0})
  upsert_part plan none rest t = (ok tt, Table.create (I.make plan rest) t)
  upsert_part plan (some zero) rest t = (ok tt, Table.create (I.make plan rest) t)
  upsert_part plan (some (suc n)) rest t =
      if is_some (Table.find (has_key (suc n)) t)
      then (ok tt, Table.update (has_key (suc n)) (I.write plan rest) t)
      else (err record_not_found 500, t)

  -- `upsertBenefits`, `upsertFeatures` and `upsertAddons`
  abbrev pub upsert_parts : ℕ → List (Option ℕ × Rest) → Action (Table.Table A) (Unit {0})
  upsert_parts plan [] = return tt
  upsert_parts plan ((id, rest) ∷ parts) = do upsert_part plan id rest; upsert_parts plan parts

  -- `where: { id: { in: ids }, sku_id }`
  abbrev pub listed : ℕ → List ℕ → A → Bool
  listed plan ids a = any (λ id. I.key a == id) ids && I.sku a == plan

  -- `removeBenefits`, `removeFeatures` and `removeAddons`
  abbrev pub remove_parts : ℕ → List ℕ → Action (Table.Table A) (Unit {0})
  remove_parts plan ids = writes (Table.update (listed plan ids) I.discard)

  -- Whether the list has an element with this key
  abbrev pub names : ℕ → List (Option ℕ × Rest) → Bool
  names k parts = any (λ p. elim p.0 [ none ↦ false | some id ↦ id == k ]) parts

  find-create :
      (k : ℕ) (a : A) (rows : List A)
      → (I.key a == k) ≡ false
      → find_first (has_key k) (rows ++ a ∷ []) ≡ find_first (has_key k) rows
  find-create k a [] other = rw other
  find-create k a (x ∷ rows) other = ground (arith, find-create k a rows, other)

  find-update :
      (k id : ℕ) (f : A → A) (rows : List A)
      → ((a : A) → I.key (f a) ≡ I.key a)
      → (id == k) ≡ false
      → find_first (has_key k) (update_many (has_key id) f rows) ≡ find_first (has_key k) rows
  find-update k id f [] same other = refl
  find-update k id f (x ∷ rows) same other =
      ground (arith, find-update k id f rows same, same x, other)

  upsert_part_other :
      (plan k : ℕ) (id : Option ℕ) (rest : Rest) (t : Table.Table A)
      → k < t.next_id
      → elim id [ none ↦ false | some i ↦ i == k ] ≡ false
      → (Table.find (has_key k) (upsert_part plan id rest t).1 ≡ Table.find (has_key k) t)
        × (k < (upsert_part plan id rest t).1.next_id)
  upsert_part_other plan k none rest t old other = (
    find-create k (I.make plan rest t.next_id) t.rows
        (ground (arith, I.key_make plan rest t.next_id, old)),
    omega (arith, old),
  )
  upsert_part_other plan k (some zero) rest t old other = (
    find-create k (I.make plan rest t.next_id) t.rows
        (ground (arith, I.key_make plan rest t.next_id, old)),
    omega (arith, old),
  )
  upsert_part_other plan k (some (suc n)) rest t old other =
      elim (Bool-cases (is_some (Table.find (has_key (suc n)) t))) [
        | inl there ↦ rw there (
          find-update k (suc n) (I.write plan rest) t.rows (λ a. I.key_write plan rest a) other,
          old,
        )
        | inr missing ↦ rw missing (refl, old)
      ]

  after-other :
      (k : ℕ) (row : Option A) (r : Result (Unit {0}) × Table.Table A)
      (next : Action (Table.Table A) (Unit {0}))
      → Table.find (has_key k) r.1 ≡ row
      → (Table.find (has_key k) r.1 ≡ row → Table.find (has_key k) (next r.1).1 ≡ row)
      → Table.find (has_key k) (continue r (λ _. next)).1 ≡ row
  after-other k row (ok done, t) next same rest = rest same
  after-other k row (err c status, t) next same rest = same

  -- A list of parts leaves every row that it does not name as it was, of this plan or another.
  pub upsert_parts_others :
      (plan k : ℕ) (parts : List (Option ℕ × Rest)) (t : Table.Table A)
      → k < t.next_id
      → names k parts ≡ false
      → Table.find (has_key k) (upsert_parts plan parts t).1 ≡ Table.find (has_key k) t
  upsert_parts_others plan k [] t old other = refl
  upsert_parts_others plan k ((id, rest) ∷ parts) t old other =
      let first : elim id [ none ↦ false | some i ↦ i == k ] ≡ false = ground (arith, other) in
      let later : names k parts ≡ false = ground (arith, other) in
      let (same, kept) = upsert_part_other plan k id rest t old first in
      after-other k (Table.find (has_key k) t) (upsert_part plan id rest t)
        (upsert_parts plan parts) same
        (λ e. upsert_parts_others plan k parts (upsert_part plan id rest t).1 kept later ∙ e)

  find-remove :
      (plan k : ℕ) (ids : List ℕ) (rows : List A)
      → any (λ (id : ℕ). k == id) ids ≡ false
      → find_first (has_key k) (update_many (listed plan ids) I.discard rows)
        ≡ find_first (has_key k) rows
  find-remove plan k ids [] other = refl
  find-remove plan k ids (x ∷ rows) other = elim (ℕ_discrete (I.key x) k) [
    | yes same ↦
        let kept : listed plan ids x ≡ false = rw same (rw other) in
        rw kept (ground (arith, find-remove plan k ids rows other))
    | no ne ↦ ground (arith, find-remove plan k ids rows other, I.key_discard x)
  ]

  -- A removal leaves every row that it does not name as it was.
  pub remove_parts_others :
      (plan k : ℕ) (ids : List ℕ) (t : Table.Table A)
      → any (λ (id : ℕ). k == id) ids ≡ false
      → Table.find (has_key k) (remove_parts plan ids t).1 ≡ Table.find (has_key k) t
  remove_parts_others plan k ids t other = find-remove plan k ids t.rows other
