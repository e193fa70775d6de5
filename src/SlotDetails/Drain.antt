-- ===== src/SlotDetails/Drain.antt =====
-- What `drainSources` attributes.
use mathlib.Core.Path.{subst⁻¹}
use subscription_be.Prelude.{
  leb, ℕ, ◌-◌, ◌≡◌, refl, Bool, true, false, List, [], ◌∷◌, arith, any, sum_where, min, Bool-cases,
  inl, inr, ◌<◌,
}
use subscription_be.SlotDetails.{
  SlotSourceInput, SlotSource, drain_sources, absorbed, finite_capacity,
}

abbrev pub total_used : List SlotSource → ℕ
total_used sources = sum_where (λ s. true) (λ (s : SlotSource). s.used) sources

abbrev pub any_unlimited : List SlotSourceInput → Bool
any_unlimited sources = any (λ s. s.is_unlimited) sources

-- With finite sources only, the slots shown are those in use, up to the capacity of all sources.
pub drain_sources_finite :
    (sources : List SlotSourceInput) (used : ℕ)
    → any_unlimited sources ≡ false
    → total_used (drain_sources sources used) ≡ min (finite_capacity sources) used
unfolding drain_sources
drain_sources_finite [] used h = ground arith
drain_sources_finite (s ∷ ss) used h =
    ground (arith, drain_sources_finite ss (used - min s.capacity used))

drain_sources_zero : (sources : List SlotSourceInput) → total_used (drain_sources sources 0) ≡ 0
unfolding drain_sources
drain_sources_zero [] = refl
drain_sources_zero (s ∷ ss) = ground (arith, drain_sources_zero ss)

drain_sources_nothing :
    (sources : List SlotSourceInput) (left : ℕ)
    → left ≡ 0
    → total_used (drain_sources sources left) ≡ 0
drain_sources_nothing sources left h =
    subst⁻¹ (λ (n : ℕ). total_used (drain_sources sources n) ≡ 0) h (drain_sources_zero sources)

-- With an unlimited source among them, every slot in use is shown under some source.
pub drain_sources_unlimited :
    (sources : List SlotSourceInput) (used : ℕ)
    → any_unlimited sources ≡ true
    → total_used (drain_sources sources used) ≡ used
unfolding drain_sources
drain_sources_unlimited [] used h = ground arith
drain_sources_unlimited (s ∷ ss) used h = elim (Bool-cases s.is_unlimited) [
  | inl y ↦ ground (arith, y, drain_sources_nothing ss (used - absorbed s used) (ground (arith, y)))
  | inr n ↦ simp n (ground (arith, n, h, drain_sources_unlimited ss (used - min s.capacity used)))
]

-- A later source shows slots in use only if the first source, the package, is finite and shows as
-- many as its capacity.
pub drain_sources_in_order :
    (s : SlotSourceInput) (ss : List SlotSourceInput) (used : ℕ)
    → absorbed s used < total_used (drain_sources (s ∷ ss) used)
    → (s.is_unlimited ≡ false) × (absorbed s used ≡ s.capacity)
unfolding drain_sources
drain_sources_in_order s ss used h = elim (Bool-cases s.is_unlimited) [
  | inl y ↦
      let rest = drain_sources_nothing ss (used - absorbed s used) (ground (arith, y)) in
      ground (arith, h, rest)
  | inr n ↦ (
    n,
    elim (Bool-cases (leb s.capacity used)) [
      | inl enough ↦ ground (arith, n, enough)
      | inr short ↦
          let rest = drain_sources_nothing ss (used - absorbed s used) (ground (arith, n, short)) in
          ground (arith, h, rest)
    ],
  )
]
