-- ===== src/Masters/BundleRows.antt =====
-- Rows of bundles with a discount that is not above their price, and what creates and updates do to them.
use subscription_be.Prelude.{
  ℕ, ◌*◌, ◌≤◌, ◌<◌, ◌≡◌, refl, Bool, false, ◌&&◌, Option, none, some, List, [], ◌∷◌, ◌==◌, arith,
  All, update_many, find_first, count_where, ◌++◌, Bool-cases, inl, inr, ◌∙◌, count_where-append,
}
use mathlib.Core.Path.{subst}
use subscription_be.Db.Table
use subscription_be.Masters.Bundles.{BundleRow, too_dear, stored_price}

-- The discount is not above the regular price.
abbrev pub IsDiscount : Option ℕ → ℕ → Type 0
IsDiscount none price = Unit
IsDiscount (some d) price = d ≤ price

pub too_dear-IsDiscount :
    (discount : Option ℕ) (coins rate : ℕ)
    → too_dear discount coins rate ≡ false
    → IsDiscount discount (stored_price coins rate)
too_dear-IsDiscount none coins rate cheap = tt
too_dear-IsDiscount (some d) coins rate cheap =
    let less : d * 100 < coins * rate = ground (arith, cheap) in omega (arith, less)

module _ (P : BundleRow → Type 0) where
  All-create : (b : BundleRow) (rows : List BundleRow) → All P rows → P b → All P (rows ++ b ∷ [])
  All-create b [] all one = (one, tt)
  All-create b (x ∷ rows) all one = (all.0, All-create b rows all.1 one)

  pub All-update-each :
      (p : BundleRow → Bool) (f : BundleRow → BundleRow) (rows : List BundleRow)
      → ((b : BundleRow) → P b → P (f b))
      → All P rows
      → All P (update_many p f rows)
  All-update-each p f [] keep all = tt
  All-update-each p f (x ∷ rows) keep all = elim (Bool-cases (p x)) [
    | inl is ↦ rw is (keep x all.0, All-update-each p f rows keep all.1)
    | inr other ↦ rw other (all.0, All-update-each p f rows keep all.1)
  ]

  module _ (p q : BundleRow → Bool) (f : BundleRow → BundleRow) (e : BundleRow) where
    All-update-none :
        (rows : List BundleRow) → count_where p rows ≡ 0 → All P rows → All P (update_many p f rows)
    All-update-none [] absent all = tt
    All-update-none (x ∷ rows) absent all = elim (Bool-cases (p x)) [
      | inl is ↦ ground (arith, absent, is)
      | inr other ↦ rw other (all.0, All-update-none rows (ground (arith, absent, other)) all.1)
    ]

    found-counts :
        (rows : List BundleRow)
        → find_first (λ b. p b && q b) rows ≡ some e
        → 0 < count_where p rows
    found-counts [] found = ground (arith, found)
    found-counts (x ∷ rows) found = ground (arith, found, found-counts rows)

    -- An update of the one row with a key keeps what the new row has and all rows had.
    pub All-update-one :
        (rows : List BundleRow)
        → count_where p rows ≤ 1
        → find_first (λ b. p b && q b) rows ≡ some e
        → P (f e)
        → All P rows
        → All P (update_many p f rows)
    All-update-one [] one found new all = tt
    All-update-one (x ∷ rows) one found new all = elim (Bool-cases (p x)) [
      | inl is ↦
          let alone : count_where p rows ≡ 0 = ground (arith, one, is) in
          elim (Bool-cases (q x)) [
            | inl live ↦
                let same : e ≡ x = ground (arith, found, is, live) in
                rw is
                  (subst (λ (b : BundleRow). P (f b)) same new, All-update-none rows alone all.1)
            | inr dead ↦
                let more : find_first (λ b. p b && q b) rows ≡ some e =
                  ground (arith, found, is, dead) in
                ground (arith, found-counts rows more, alone)
          ]
      | inr other ↦ rw other (
        all.0,
        All-update-one rows (ground (arith, one, other)) (ground (arith, found, other)) new all.1,
      )
    ]

-- Keys are unique and below the next one, and no discount is above its price.
pub record IsPriced (t : Table.Table BundleRow) : Type 0 where
  pub one_row : (id : ℕ) → count_where (λ b. b.id == id) t.rows ≤ 1
  pub unused : (id : ℕ) → t.next_id ≤ id → count_where (λ b. b.id == id) t.rows ≡ 0
  pub fair : All (λ b. IsDiscount b.discounted_price b.price) t.rows

count_kept :
    (p : BundleRow → Bool) (f : BundleRow → BundleRow) (id : ℕ) (rows : List BundleRow)
    → ((b : BundleRow) → (f b).id ≡ b.id)
    → count_where (λ b. b.id == id) (update_many p f rows) ≡ count_where (λ b. b.id == id) rows
count_kept p f id [] keyed = refl
count_kept p f id (x ∷ rows) keyed = ground (arith, count_kept p f id rows keyed, keyed x)

pub update-IsPriced :
    (p : BundleRow → Bool) (f : BundleRow → BundleRow) (t : Table.Table BundleRow)
    → ((b : BundleRow) → (f b).id ≡ b.id)
    → All (λ b. IsDiscount b.discounted_price b.price) (update_many p f t.rows)
    → IsPriced t
    → IsPriced (Table.update p f t)
update-IsPriced p f t keyed fair h = record {
  one_row = λ id. omega (arith, count_kept p f id t.rows keyed, h.one_row id);
  unused = λ id le. count_kept p f id t.rows keyed ∙ h.unused id le;
  fair = fair;
}

pub create-IsPriced :
    (row : ℕ → BundleRow) (t : Table.Table BundleRow)
    → ((id : ℕ) → (row id).id ≡ id)
    → IsDiscount (row t.next_id).discounted_price (row t.next_id).price
    → IsPriced t
    → IsPriced (Table.create row t)
create-IsPriced row t keyed fair h = record {
  one_row = λ id.
      let added = count_where-append (λ b. b.id == id) t.rows (row t.next_id ∷ []) in
      ground (arith, added, h.one_row id, h.unused id, keyed t.next_id);
  unused = λ id le.
      let added = count_where-append (λ b. b.id == id) t.rows (row t.next_id ∷ []) in
      ground (arith, added, h.unused id, keyed t.next_id, le);
  fair = All-create (λ b. IsDiscount b.discounted_price b.price) (row t.next_id) t.rows h.fair fair;
}
