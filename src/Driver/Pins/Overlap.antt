-- ===== src/Driver/Pins/Overlap.antt =====
-- Pins never overlap, and the two neighbours that SG_IOC_PIN looks at are enough to see to that.
use softgpu.Base.{
  ℕ, ◌+◌, ◌≤◌, ◌<◌, ◌≡◌, refl, ap, false≢true, ◌≢◌, ◌⊎◌, inl, inr, List, [], ◌∷◌, some, Bool, true,
  false, ◌||◌, ltb, ◌==◌, add64, u64_mod, arith, Bool-cases, Option-cases,
}
use softgpu.OrderedMap.{find, emplace, erase, lower_bound, before_lower}
use softgpu.Errno.{Rc, ok, einval, eexist}
use softgpu.Alloc.Blocks.{Disjoint}
use softgpu.Driver.Pins.{meets_next, meets_prev, pin, unpin}

is_ok : Rc → Bool
is_ok Rc.ok = true
is_ok _ = false

einval≢ok : einval ≢ ok
unfolding is_ok
einval≢ok e = false≢true (ap is_ok e)

eexist≢ok : eexist ≢ ok
unfolding is_ok
eexist≢ok e = false≢true (ap is_ok e)

-- Pins from `lo` upwards: none empty, none past 2 ^ 64, each at or after the end of the one before.
abbrev pub IsPins : ℕ → List (ℕ × ℕ) → Type 0
IsPins lo [] = Unit
IsPins lo ((start, n) ∷ m) = (lo ≤ start) × (0 < n) × (start + n < u64_mod) × IsPins (start + n) m

pub IsPins-mono : (lo lo' : ℕ) (m : List (ℕ × ℕ)) → lo' ≤ lo → IsPins lo m → IsPins lo' m
IsPins-mono lo lo' [] h p = tt
IsPins-mono lo lo' (b ∷ m) h p = (omega (arith, p.0, h), p.1, p.2, p.3)

IsPins-Disjoint :
    (lo addr size : ℕ) (m : List (ℕ × ℕ)) → IsPins lo m → addr + size ≤ lo → Disjoint addr size m
IsPins-Disjoint lo addr size [] p h = tt
IsPins-Disjoint lo addr size ((s, n) ∷ m) p h =
    (inr (omega (arith, p.0, h)), IsPins-Disjoint (s + n) addr size m p.3 (omega (arith, p.0, h)))

-- The pin before an address is one of the table's.
before_lower_from :
    (lo addr s n : ℕ) (m : List (ℕ × ℕ))
    → IsPins lo m
    → before_lower addr m ≡ some (s, n)
    → (lo ≤ s) × (s < addr) × (s + n < u64_mod)
unfolding before_lower
before_lower_from lo addr s n [] p e = cc
before_lower_from lo addr s n ((j, k) ∷ m) p e = elim (Option-cases (before_lower addr m)) [
  | inl q ↦ ground (arith, q, e, p)
  | inr ((i, l), q) ↦
      let r = before_lower_from (j + k) addr i l m p.3 q in ground (arith, q, e, p, r)
]

clear-Disjoint :
    (lo addr size : ℕ) (m : List (ℕ × ℕ))
    → IsPins lo m
    → 0 < size
    → addr + size < u64_mod
    → meets_next (lower_bound addr m) (addr + size) ≡ false
    → meets_prev (before_lower addr m) addr ≡ false
    → Disjoint addr size m
unfolding lower_bound before_lower
clear-Disjoint lo addr size [] p z w a b = tt
clear-Disjoint lo addr size ((s, n) ∷ m) p z w a b = elim (Bool-cases (ltb s addr)) [
  | inr f ↦
      let far : addr + size ≤ s = ground (arith, f, a) in
      (inr far, IsPins-Disjoint (s + n) addr size m p.3 (omega (arith, far)))
  | inl t ↦ elim (Option-cases (before_lower addr m)) [
    | inl q ↦
        let near : s + n ≤ addr = ground (arith, t, q, b, p) in
        (inl near, clear-Disjoint (s + n) addr size m p.3 z w (ground (arith, t, a)) (rw q refl))
    | inr ((i, l), q) ↦
        let r = before_lower_from (s + n) addr i l m p.3 q in
        (
          inl (omega (arith, r)),
          clear-Disjoint (s + n) addr size m p.3 z w (ground (arith, t, a))
              (ground (arith, t, q, b)),
        )
  ]
]

-- Each entry that `lower_bound` and `before_lower` find passes its test when none overlaps.
Disjoint-clear :
    (lo addr size : ℕ) (m : List (ℕ × ℕ))
    → IsPins lo m
    → 0 < size
    → addr + size < u64_mod
    → Disjoint addr size m
    → (meets_next (lower_bound addr m) (addr + size) ≡ false)
      × (meets_prev (before_lower addr m) addr ≡ false)
unfolding lower_bound before_lower
Disjoint-clear lo addr size [] p z w d = (refl, refl)
Disjoint-clear lo addr size ((s, n) ∷ m) p z w d =
    let rest = Disjoint-clear (s + n) addr size m p.3 z w d.1 in
    elim (Bool-cases (ltb s addr)) [
      | inr f ↦ (ground (arith, f, p, d.0), ground (arith, f))
      | inl t ↦ elim (Option-cases (before_lower addr m)) [
        | inl q ↦ (ground (arith, t, rest), ground (arith, t, q, p, d.0, z))
        | inr ((i, l), q) ↦ (ground (arith, t, rest), ground (arith, t, q, rest))
      ]
    ]

emplace-IsPins :
    (lo addr size : ℕ) (m : List (ℕ × ℕ))
    → IsPins lo m
    → lo ≤ addr
    → 0 < size
    → addr + size < u64_mod
    → Disjoint addr size m
    → IsPins lo (emplace addr size m)
unfolding emplace
emplace-IsPins lo addr size [] p l z w d = (l, z, w, tt)
emplace-IsPins lo addr size ((s, n) ∷ m) p l z w d = elim (Bool-cases (s == addr)) [
  | inl q ↦ ground (arith, q, d.0, p, z)
  | inr q ↦ rw q (elim (Bool-cases (ltb addr s)) [
    | inl r ↦
        let free : addr + size ≤ s = ground (arith, r, d.0, p) in
        rw r (l, z, w, (free, p.1, p.2, p.3))
    | inr r ↦
        let after : s + n ≤ addr = ground (arith, q, r, d.0, z) in
        rw r (p.0, p.1, p.2, emplace-IsPins (s + n) addr size m p.3 after z w d.1)
  ])
]

erase-IsPins : (lo addr : ℕ) (m : List (ℕ × ℕ)) → IsPins lo m → IsPins lo (erase addr m)
unfolding erase
erase-IsPins lo addr [] p = tt
erase-IsPins lo addr ((s, n) ∷ m) p = elim (Bool-cases (s == addr)) [
  | inl t ↦ rw t (IsPins-mono (s + n) lo m (omega (arith, p.0)) p.3)
  | inr f ↦ rw f (p.0, p.1, p.2, erase-IsPins (s + n) addr m p.3)
]

-- The ranges that can be pinned.
abbrev pub Fits : List (ℕ × ℕ) → ℕ → ℕ → Type 0
Fits pins addr size = (0 < addr) × (0 < size) × (addr + size < u64_mod) × Disjoint addr size pins

-- SG_IOC_PIN takes a range exactly when it is neither null nor empty, ends below 2 ^ 64 and overlaps
-- no pinned range; it then adds the range, and otherwise changes nothing. No two pinned ranges
-- overlap afterwards.
pub pin_lem :
    (pins : List (ℕ × ℕ)) (addr size : ℕ)
    → IsPins 0 pins
    → addr < u64_mod
    → size < u64_mod
    → let (rc, pins') = pin pins addr size in
      (((rc ≡ ok) × Fits pins addr size × (pins' ≡ emplace addr size pins))
        ⊎ ((rc ≢ ok) × (¬ Fits pins addr size) × (pins' ≡ pins)))
      × IsPins 0 pins'
unfolding pin
pin_lem pins addr size p a s =
    elim (Bool-cases ((addr == 0) || (size == 0) || ltb (add64 addr size) addr)) [
      | inl t ↦ rw t (inr (einval≢ok, (λ f. ground (arith, t, f.0, f.1, f.2, a, s)), refl), p)
      | inr t ↦
          let some_size : 0 < size = ground (arith, t) in
          let no_wrap : addr + size < u64_mod = ground (arith, t, a, s) in
          let sum : add64 addr size ≡ addr + size = omega (arith, no_wrap) in
          let clear =
            λ (f : Fits pins addr size). Disjoint-clear 0 addr size pins p some_size no_wrap f.3 in
          rw (t, sum)
            (elim (Bool-cases (meets_next (lower_bound addr pins) (addr + size))) [
              | inl u ↦ rw u (inr (eexist≢ok, (λ f. let c = clear f in cc), refl), p)
              | inr u ↦ rw u (elim (Bool-cases (meets_prev (before_lower addr pins) addr)) [
                | inl v ↦ rw v (inr (eexist≢ok, (λ f. let c = clear f in cc), refl), p)
                | inr v ↦
                    let d = clear-Disjoint 0 addr size pins p some_size no_wrap u v in
                    rw v (
                      inl (refl, (ground (arith, t), some_size, no_wrap, d), refl),
                      emplace-IsPins 0 addr size pins p (omega arith) some_size no_wrap d,
                    )
              ])
            ])
    ]

-- SG_IOC_UNPIN keeps the pinned ranges apart.
pub unpin-IsPins : (pins : List (ℕ × ℕ)) (addr : ℕ) → IsPins 0 pins → IsPins 0 (unpin pins addr).1
unfolding unpin
unpin-IsPins pins addr p = elim (Option-cases (find addr pins)) [
  | inl e ↦ rw e p
  | inr (size, e) ↦ rw e (erase-IsPins 0 addr pins p)
]
