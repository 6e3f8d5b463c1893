-- ===== src/Rotation.antt =====
-- The round-robin loops `for (i = 0; i < n; ++i) { k = (first + i) % n; ... }`.
use softgpu.Base.{ℕ, ◌+◌, ◌-◌, ◌%◌, ◌<◌, ◌≡◌, ◌∙◌, ap, inl, inr, arith, lt_or_ge}
use native.Mathlib.Nat.{mod-eq_of_lt, add-mod_right}

-- Such a loop meets every k below n.
pub rotation_meets : (first n k : ℕ) → first < n → k < n → (i : ℕ) × (i < n) × ((first + i) % n ≡ k)
rotation_meets first n k f h = elim (lt_or_ge k first) [
  | inl l ↦
      let turn : first + (k + n - first) ≡ k + n = omega (arith, l, f) in
      (
        k + n - first,
        omega (arith, l, f),
        ap (λ x. x % n) turn ∙ add-mod_right k n ∙ mod-eq_of_lt h,
      )
  | inr l ↦
      let turn : first + (k - first) ≡ k = omega (arith, l) in
      (k - first, omega (arith, h), ap (λ x. x % n) turn ∙ mod-eq_of_lt h)
]
