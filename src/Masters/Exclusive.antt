-- ===== src/Masters/Exclusive.antt =====
-- What the writes of an interface of `Masters` keep: at most one row is active.
use subscription_be.Prelude.{
  ℕ, ◌≤◌, ◌≡◌, refl, Bool, true, false, Option, some, none, List, [], ◌∷◌, ◌++◌, or_else, arith,
  count_where, find_first, update_many, count_where-append, count_where-update_many,
  count_where-update_many_le, count_where-update_many_clear, count_where-found, find_first-sat,
}
use subscription_be.Db.Table
use subscription_be.Masters.{
  Switched, live, has_key, present, live_other, switch_off, switch_others_off, create_row,
  update_row, activate_row, remove_row,
}

-- Keys are unique and below the next one, and at most one row is active and not deleted.
pub record IsExclusive {A : Type 0} (I : Switched A) (t : Table.Table A) : Type 0 where
  pub one_row : (id : ℕ) → count_where (has_key I id) t.rows ≤ 1
  pub unused : (id : ℕ) → t.next_id ≤ id → count_where (has_key I id) t.rows ≡ 0
  pub one_live : count_where (live I) t.rows ≤ 1

-- A flag that is left out, or false, activates nothing.
pub flag_kept :
    (flag : Option Bool) (before : Bool)
    → or_else flag false ≡ false
    → or_else flag before ≡ true
    → before ≡ true
flag_kept none before off on = on
flag_kept (some b) before off on = ground (arith, off, on)

module _ {A : Type 0} (I : Switched A) where
  -- An update that keeps every key, and leaves at most one active row.
  same_keys :
      (p : A → Bool) (f : A → A) (t : Table.Table A)
      → ((a : A) → I.key (f a) ≡ I.key a)
      → IsExclusive I t
      → count_where (live I) (update_many p f t.rows) ≤ 1
      → IsExclusive I (Table.update p f t)
  same_keys p f t same h one = record {
    one_row = λ id. omega (
      arith,
      count_where-update_many (has_key I id) p f t.rows (λ a. ground (arith, same a)),
      h.one_row id,
    );
    unused = λ id le. omega (
      arith,
      count_where-update_many (has_key I id) p f t.rows (λ a. ground (arith, same a)),
      h.unused id le,
    );
    one_live = one;
  }

  off_all : (t : Table.Table A) → count_where (live I) (switch_off I t).rows ≡ 0
  off_all t =
      count_where-update_many_clear (live I) (I.set_active false) t.rows
        (λ a e. ground (arith, I.active_set false a))

  pub switch_off-IsExclusive :
      (t : Table.Table A) → IsExclusive I t → IsExclusive I (switch_off I t)
  switch_off-IsExclusive t h =
      same_keys (live I) (I.set_active false) t (λ a. I.key_set false a) h
        (omega (arith, off_all t))

  appended :
      (t : Table.Table A) (row : ℕ → A)
      → I.key (row t.next_id) ≡ t.next_id
      → IsExclusive I t
      → count_where (live I) (t.rows ++ row t.next_id ∷ []) ≤ 1
      → IsExclusive I (Table.create row t)
  appended t row keyed h one =
      let added = λ (id : ℕ). count_where-append (has_key I id) t.rows (row t.next_id ∷ []) in
      record {
        one_row = λ id. ground (arith, added id, h.one_row id, h.unused id, keyed);
        unused = λ id le. ground (arith, added id, h.unused id, keyed);
        one_live = one;
      }

  -- A new row is active only if it was asked to be.
  pub create_row-IsExclusive :
      (active : Bool) (row : ℕ → A) (t : Table.Table A)
      → I.key (row t.next_id) ≡ t.next_id
      → I.active (row t.next_id) ≡ active
      → IsExclusive I t
      → IsExclusive I (create_row I active row t)
  create_row-IsExclusive true row t keyed is_active h =
      appended (switch_off I t) row keyed (switch_off-IsExclusive t h) (
        ground (
          arith,
          count_where-append (live I) (switch_off I t).rows (row t.next_id ∷ []),
          off_all t,
        ))
  create_row-IsExclusive false row t keyed is_active h = appended t row keyed h (
      ground
        (arith, count_where-append (live I) t.rows (row t.next_id ∷ []), h.one_live, is_active))

  -- After the others are off, only the updated row can be active.
  only_updated :
      (id : ℕ) (change : A → A) (rows : List A)
      → ((a : A) → I.key (change a) ≡ I.key a)
      → count_where (live I) (
          update_many
            (has_key I id)
            change
            (update_many (live_other I id) (I.set_active false) rows))
        ≤ count_where (has_key I id) rows
  only_updated id change [] same = omega arith
  only_updated id change (a ∷ rows) same =
      ground (arith, only_updated id change rows same, I.key_set false a, I.active_set false a)

  pub update_row-IsExclusive :
      (id : ℕ) (active : Bool) (change : A → A) (t : Table.Table A)
      → ((a : A) → I.key (change a) ≡ I.key a)
      → ((a : A) → I.gone (change a) ≡ I.gone a)
      → (active ≡ false → (a : A) → I.active (change a) ≡ true → I.active a ≡ true)
      → IsExclusive I t
      → IsExclusive I (update_row I id active change t)
  update_row-IsExclusive id true change t same same_gone keeps h =
      same_keys (has_key I id) change (switch_others_off I id t) same
        (same_keys (live_other I id) (I.set_active false) t (λ a. I.key_set false a) h
          (omega (
            arith,
            count_where-update_many_le (live I) (live_other I id) (I.set_active false) t.rows
                (λ a e k. ground (arith, e)),
            h.one_live,
          )))
        (omega (arith, only_updated id change t.rows same, h.one_row id))
  update_row-IsExclusive id false change t same same_gone keeps h =
      same_keys (has_key I id) change t same h (
        omega (
          arith,
          count_where-update_many_le (live I) (has_key I id) change t.rows
              (λ a e k. ground (arith, same_gone a, keeps refl a, k)),
          h.one_live,
        ))

  only_activated :
      (id : ℕ) (rows : List A)
      → count_where (live I) (
          update_many
            (has_key I id)
            (I.set_active true)
            (update_many (live I) (I.set_active false) rows))
        ≤ count_where (has_key I id) rows
  only_activated id [] = omega arith
  only_activated id (a ∷ rows) =
      ground (arith, only_activated id rows, I.key_set false a, I.active_set false a)

  pub activate_row-IsExclusive :
      (id : ℕ) (t : Table.Table A) → IsExclusive I t → IsExclusive I (activate_row I id t)
  activate_row-IsExclusive id t h =
      same_keys (has_key I id) (I.set_active true) (switch_off I t) (λ a. I.key_set true a)
        (switch_off-IsExclusive t h) (omega (arith, only_activated id t.rows, h.one_row id))

  pub remove_row-IsExclusive :
      (id : ℕ) (t : Table.Table A) → IsExclusive I t → IsExclusive I (remove_row I id t)
  remove_row-IsExclusive id t h = same_keys (has_key I id) I.discard t I.key_discard h (
      omega (
        arith,
        count_where-update_many_le (live I) (has_key I id) I.discard t.rows
            (λ a e k. ground (arith, I.active_discard a, k)),
        h.one_live,
      ))

  activated_found :
      (id : ℕ) (a : A) (rows : List A)
      → find_first (present I id) rows ≡ some a
      → count_where (has_key I id) rows ≤ 1
      → find_first (live I) (
          update_many
            (has_key I id)
            (I.set_active true)
            (update_many (live I) (I.set_active false) rows))
        ≡ some (I.set_active true a)
  activated_found id a [] found one = ground arith
  activated_found id a (x ∷ rows) found one = ground (
    arith,
    activated_found id a rows,
    count_where-found (present I id) (has_key I id) rows a,
    find_first-sat (present I id) rows a,
    found,
    I.key_set false x,
    I.active_set false x,
    I.gone_set false x,
    I.active_set true x,
    I.gone_set true x,
    I.active_set true (I.set_active false x),
    I.gone_set true (I.set_active false x),
    I.set_set true false x,
  )

  -- The row that is activated is the active one.
  pub activate_row_found :
      (id : ℕ) (a : A) (t : Table.Table A)
      → Table.find (present I id) t ≡ some a
      → IsExclusive I t
      → Table.find (live I) (activate_row I id t) ≡ some (I.set_active true a)
  activate_row_found id a t found h = activated_found id a t.rows found (h.one_row id)
