-- ===== src/Http/Sorted.antt =====
-- What PostgreSQL promises of ORDER BY: sorted rows, which are one list only where no two rows have the
-- same key.
use subscription_be.Prelude.{
  ℕ, ◌<◌, ◌≡◌, refl, sym, ap, ◌∙◌, ◌⊎◌, inl, inr, List, [], ◌∷◌, arith, All,
}
use mathlib.Core.Path.{subst}

module _ {A : Type 0} where
  abbrev pub Among : A → List A → Type 0
  Among a [] = ⊥
  Among a (x ∷ xs) = (a ≡ x) ⊎ Among a xs

  All-among : (P : A → Type 0) (a : A) (xs : List A) → All P xs → Among a xs → P a
  All-among P a [] all among = elim among [ ]
  All-among P a (x ∷ xs) all (inl same) = subst P (sym same) all.0
  All-among P a (x ∷ xs) all (inr among) = All-among P a xs all.1 among

module _ {A : Type 0} (key : A → ℕ) where
  -- Every row before the ones with greater keys
  abbrev pub IsSorted : List A → Type 0
  IsSorted [] = Unit
  IsSorted (x ∷ xs) = All (λ y. key x < key y) xs × IsSorted xs

  first_same :
      (x y : A) (xs ys : List A)
      → All (λ z. key x < key z) xs
      → All (λ z. key y < key z) ys
      → Among x (y ∷ ys)
      → Among y (x ∷ xs)
      → x ≡ y
  first_same x y xs ys below above (inl same) back = same
  first_same x y xs ys below above (inr later) (inl same) = sym same
  first_same x y xs ys below above (inr later) (inr earlier) =
      let less = All-among (λ z. key y < key z) x ys above later in
      let more = All-among (λ z. key x < key z) y xs below earlier in ground (arith, less, more)

  Among-rest : (a x : A) (ys : List A) → key x < key a → Among a (x ∷ ys) → Among a ys
  Among-rest a x ys more (inl same) =
      let level : key a ≡ key x = ap key same in ground (arith, more, level)
  Among-rest a x ys more (inr later) = later

  -- Two sorted lists with the same rows are one list.
  pub sorted_unique :
      (xs ys : List A)
      → IsSorted xs
      → IsSorted ys
      → ((a : A) → Among a xs → Among a ys)
      → ((a : A) → Among a ys → Among a xs)
      → xs ≡ ys
  sorted_unique [] [] sx sy into back = refl
  sorted_unique [] (y ∷ ys) sx sy into back = elim (back y (inl refl)) [ ]
  sorted_unique (x ∷ xs) [] sx sy into back = elim (into x (inl refl)) [ ]
  sorted_unique (x ∷ xs) (y ∷ ys) sx sy into back =
      let same = first_same x y xs ys sx.0 sy.0 (into x (inl refl)) (back y (inl refl)) in
      let rest =
        sorted_unique xs ys sx.1 sy.1
          (λ a among.
            Among-rest a y ys
              (subst (λ (z : A). key z < key a) same
                (All-among (λ z. key x < key z) a xs sx.0 among))
              (into a (inr among)))
          (λ a among.
            Among-rest a x xs
              (subst (λ (z : A). key z < key a) (sym same)
                (All-among (λ z. key y < key z) a ys sy.0 among))
              (back a (inr among))) in
      ap (λ (z : A). z ∷ xs) same ∙ ap (λ (l : List A). y ∷ l) rest
