-- ===== src/Prelude/Updates.antt =====
-- More lemmas on `update_many`: twice, undone, and of a single row.
use Prim.Native.Nat.{◌≤◌}
use mathlib.Core.Path.{◌≡◌, refl, ap}
use mathlib.Core.Bool.{Bool, true, false}
use mathlib.Core.Option.{some}
use mathlib.Core.List.{List, [], ◌∷◌}
use native.Mathlib.Omega.{arith}
use mathlib.Core.Logic.{inl, inr}
use subscription_be.Prelude.Tests.{Bool-cases}
use subscription_be.Prelude.Rows.{
  update_many, count_where, find_first, update_many_none, count_where-found,
}

module _ {ℓ} {A : Type ℓ} (p : A → Bool) (f : A → A) where
  -- A second update with the same data changes nothing.
  pub update_many_twice :
      (xs : List A)
      → ((x : A) → f (f x) ≡ f x)
      → update_many p f (update_many p f xs) ≡ update_many p f xs
  update_many_twice [] h = refl
  update_many_twice (x ∷ xs) h = ground (arith, update_many_twice xs h, h x)

  -- An update and its inverse.
  pub update_many_undo :
      (g : A → A) (xs : List A)
      → ((x : A) → p (f x) ≡ p x)
      → ((x : A) → g (f x) ≡ x)
      → update_many p g (update_many p f xs) ≡ xs
  update_many_undo g [] same back = refl
  update_many_undo g (x ∷ xs) same back =
      ground (arith, update_many_undo g xs same back, same x, back x)

module _ {ℓ} {A : Type ℓ} (p r q : A → Bool) (f : A → A) where
  -- One row changes, and does not match after it.
  pub count_where-update_one :
      (xs : List A) (x : A)
      → find_first r xs ≡ some x
      → count_where q xs ≤ 1
      → q x ≡ true
      → p (f x) ≡ false
      → count_where p (update_many q f xs) ≤ count_where p xs
  count_where-update_one [] x found one hit out = omega arith
  count_where-update_one (y ∷ xs) x found one hit out = elim (Bool-cases (r y)) [
    | inl here ↦
        let same : y ≡ x = ground (arith, found, here) in
        let rest : update_many q f xs ≡ xs =
          update_many_none q f xs (ground (arith, one, hit, same)) in
        ground (arith, ap (λ zs. count_where p zs) rest, same, out)
    | inr there ↦
        let found' : find_first r xs ≡ some x = ground (arith, found, there) in
        ground (
          arith,
          count_where-update_one xs x found',
          count_where-found r q xs x found' hit,
          one,
          hit,
          out,
        )
  ]
