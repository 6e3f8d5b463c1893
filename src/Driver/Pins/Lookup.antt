-- ===== src/Driver/Pins/Lookup.antt =====
-- `pinned` finds the one pin that can hold a range.
use softgpu.Base.{
  ℕ, ◌+◌, ◌≤◌, ◌≡◌, ◌↔◌, inl, inr, List, [], ◌∷◌, some, true, ◌==◌, arith, Bool-cases, Option-cases,
}
use softgpu.OrderedMap.{find, before_upper}
use softgpu.Driver.Pins.{holds, pinned}
use softgpu.Driver.Pins.Overlap.{IsPins}

-- The pin that `pinned` looks at is the table's, and starts at the address or below it.
before_upper-find :
    (lo addr s n : ℕ) (m : List (ℕ × ℕ))
    → IsPins lo m
    → before_upper addr m ≡ some (s, n)
    → (find s m ≡ some n) × (lo ≤ s) × (s ≤ addr)
unfolding before_upper find
before_upper-find lo addr s n [] p e = cc
before_upper-find lo addr s n ((j, k) ∷ m) p e = elim (Option-cases (before_upper addr m)) [
  | inl q ↦ ground (arith, q, e, p)
  | inr ((i, l), q) ↦
      let r = before_upper-find (j + k) addr i l m p.3 q in ground (arith, q, e, p, r)
]

-- A range in a pin is in the last pin that starts at its address or below.
find-holds :
    (lo addr size s n : ℕ) (m : List (ℕ × ℕ))
    → IsPins lo m
    → find s m ≡ some n
    → s ≤ addr
    → addr + size ≤ s + n
    → holds (before_upper addr m) addr size ≡ true
unfolding before_upper find
find-holds lo addr size s n [] p e l h = cc
find-holds lo addr size s n ((j, k) ∷ m) p e l h = elim (Bool-cases (j == s)) [
  | inl q ↦ elim (Option-cases (before_upper addr m)) [
    | inl u ↦ ground (arith, u, q, e, l, h)
    | inr ((i, b), u) ↦
        let r = before_upper-find (j + k) addr i b m p.3 u in ground (arith, u, q, e, l, h, r)
  ]
  | inr q ↦
      let deeper = find-holds (j + k) addr size s n m p.3 (ground (arith, q, e)) l h in
      elim (Option-cases (before_upper addr m)) [
        | inl u ↦ ground (arith, u, deeper)
        | inr ((i, b), u) ↦
            let r = before_upper-find (j + k) addr i b m p.3 u in ground (arith, u, deeper, r)
      ]
]

-- `pinned` holds exactly when one pinned range contains all of [addr, addr + size).
pub pinned_iff :
    (pins : List (ℕ × ℕ)) (addr size : ℕ)
    → IsPins 0 pins
    → (pinned pins addr size ≡ true)
      ↔ ((s : ℕ) × (n : ℕ) × (find s pins ≡ some n) × (s ≤ addr) × (addr + size ≤ s + n))
unfolding pinned
pinned_iff pins addr size p = (
  (λ t. elim (Option-cases (before_upper addr pins)) [
    | inl q ↦ ground (arith, q, t)
    | inr ((s, n), q) ↦
        let r = before_upper-find 0 addr s n pins p q in (s, n, r.0, r.2, ground (arith, q, t, r))
  ]),
  λ (s, n, e, l, h). find-holds 0 addr size s n pins p e l h,
)
