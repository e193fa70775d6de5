-- ===== src/Masters.antt =====
-- Master data of which at most one row is active: what src/shared/repositories/tax.repository.ts and
-- src/subscription/repositories/currency.repository.ts have in common, as an interface.
pub mod Exclusive
pub mod Parts
pub mod Plans
pub mod PlanParts
pub mod Bundles
pub mod BundleRows
pub mod BundleLaws
pub mod Taxes
pub mod Currencies
pub mod CurrencyLaws
use subscription_be.Prelude.{ℕ, Bool, true, false, ◌≡◌, ◌==◌, ◌&&◌, not, Option, if◌then◌else◌}
use subscription_be.Db.Table

-- The columns `id`, `is_active` and `deleted_at` of a row, and what is written to the last two
pub record Switched (A : Type 0) : Type 0 where
  pub key : A → ℕ
  pub active : A → Bool
  pub gone : A → Bool
  pub set_active : Bool → A → A
  pub discard : A → A
  pub key_set : (b : Bool) (a : A) → key (set_active b a) ≡ key a
  pub active_set : (b : Bool) (a : A) → active (set_active b a) ≡ b
  pub gone_set : (b : Bool) (a : A) → gone (set_active b a) ≡ gone a
  pub set_set : (b c : Bool) (a : A) → set_active b (set_active c a) ≡ set_active b a
  pub key_discard : (a : A) → key (discard a) ≡ key a
  pub active_discard : (a : A) → active (discard a) ≡ false

module _ {A : Type 0} (I : Switched A) where
  -- `where: { deleted_at: null, is_active: true }`
  abbrev pub live : A → Bool
  live a = I.active a && not (I.gone a)

  abbrev pub has_key : ℕ → A → Bool
  has_key id a = I.key a == id

  -- `where: { id, deleted_at: null }`
  abbrev pub present : ℕ → A → Bool
  present id a = has_key id a && not (I.gone a)

  abbrev pub live_other : ℕ → A → Bool
  live_other id a = live a && not (has_key id a)

  -- `updateMany` over all active rows, and over all but one
  abbrev pub switch_off : Table.Table A → Table.Table A
  switch_off t = Table.update live (I.set_active false) t

  abbrev pub switch_others_off : ℕ → Table.Table A → Table.Table A
  switch_others_off id t = Table.update (live_other id) (I.set_active false) t

  -- The body of the transaction that creates a row, which is to be active or not
  abbrev pub create_row : Bool → (ℕ → A) → Table.Table A → Table.Table A
  create_row active row t = Table.create row (if active then switch_off t else t)

  -- The body of the transaction that updates a row, and activates it or not
  abbrev pub update_row : ℕ → Bool → (A → A) → Table.Table A → Table.Table A
  update_row id active change t =
      Table.update (has_key id) change (if active then switch_others_off id t else t)

  -- The body of the transaction that activates a row
  abbrev pub activate_row : ℕ → Table.Table A → Table.Table A
  activate_row id t = Table.update (has_key id) (I.set_active true) (switch_off t)

  -- A soft delete
  abbrev pub remove_row : ℕ → Table.Table A → Table.Table A
  remove_row id t = Table.update (has_key id) I.discard t
