-- ===== src/Device/Priority.antt =====
-- Device::set_channel_priority keeps the flag by which the run loop skips its priority scan.
use softgpu.Base.{
  ℕ, zero, suc, ◌+◌, ◌≤◌, ◌<◌, ◌≡◌, refl, ◌↔◌, ◌⊎◌, inl, inr, arith, true, false, ◌||◌, leb,
  eq_or_ne, Bool-cases, subst, update, eq→==,
}
use softgpu.Errno.{ok, einval}
use softgpu.Integers.{ℤ, ltb_int}
use softgpu.Device.{
  Device, set_channel, is_default, mixed_channels, mixed_engines, set_channel_priority,
  priority_least, priority_greatest,
}

-- A channel c, ..., c + n - 1 of the engine has a priority of its own.
mixed_channels_iff :
    (d : Device) (e c n : ℕ)
    → (mixed_channels d e c n ≡ true)
      ↔ ((j : ℕ) × (c ≤ j) × (j < c + n) × (is_default (d.channel e j).priority ≡ false))
unfolding mixed_channels
mixed_channels_iff d e c zero = ((λ t. cc), λ (j, l, h, q). ground (arith, l, h))
mixed_channels_iff d e c (suc n) =
    let rest = mixed_channels_iff d e (suc c) n in
    (
      (λ t. elim (Bool-cases (is_default (d.channel e c).priority)) [
        | inl q ↦
            let (j, l, h, f) = rest.0 (ground (arith, t, q)) in
            (j, omega (arith, l), omega (arith, h), f)
        | inr q ↦ (c, omega arith, omega arith, q)
      ]),
      λ (j, l, h, f). elim (eq_or_ne j c) [
        | inl q ↦
            let own = subst (λ x. is_default (d.channel e x).priority ≡ false) q f in
            ground (arith, own)
        | inr q ↦
            let other = rest.1 (j, omega (arith, l, q), omega (arith, h), f) in
            ground (arith, other)
      ],
    )

mixed_engines_iff :
    (d : Device) (e n : ℕ)
    → (mixed_engines d e n ≡ true) ↔ (
        (i : ℕ) × (j : ℕ) × (e ≤ i)
        × (i < e + n)
        × (j < d.num_channels)
        × (is_default (d.channel i j).priority ≡ false))
unfolding mixed_engines
mixed_engines_iff d e zero = ((λ t. cc), λ (i, j, l, h, k, f). ground (arith, l, h))
mixed_engines_iff d e (suc n) =
    let rest = mixed_engines_iff d (suc e) n in
    let row = mixed_channels_iff d e 0 d.num_channels in
    (
      (λ t. elim (Bool-cases (mixed_channels d e 0 d.num_channels)) [
        | inl q ↦
            let (j, l, h, f) = row.0 q in (e, j, omega arith, omega arith, omega (arith, h), f)
        | inr q ↦
            let (i, j, l, h, k, f) = rest.0 (ground (arith, t, q)) in
            (i, j, omega (arith, l), omega (arith, h), k, f)
      ]),
      λ (i, j, l, h, k, f). elim (eq_or_ne i e) [
        | inl q ↦
            let own = row.1 (
              j,
              omega arith,
              omega (arith, k),
              subst (λ x. is_default (d.channel x j).priority ≡ false) q f,
            ) in
            ground (arith, own)
        | inr q ↦
            let other = rest.1 (i, j, omega (arith, l, q), omega (arith, h), k, f) in
            ground (arith, other)
      ],
    )

-- Some channel's priority is not the default.
abbrev pub IsMixed : Device → Type 0
IsMixed d =
    (i : ℕ) × (j : ℕ) × (i < d.num_engines)
    × (j < d.num_channels)
    × (is_default (d.channel i j).priority ≡ false)

-- What `set_channel_priority` accepts.
abbrev pub Accepts : Device → ℕ → ℕ → ℤ → Type 0
Accepts d e c p =
    (e < d.num_engines)
    × (c < d.num_channels)
    × (ltb_int priority_least p ≡ false)
    × (ltb_int p priority_greatest ≡ false)

with_priority : Device → ℕ → ℕ → ℤ → Device
with_priority d e c p = set_channel d e c (record (d.channel e c) { priority = p })

own : (d : Device) (e c : ℕ) (p : ℤ) → ((with_priority d e c p).channel e c).priority ≡ p
unfolding with_priority set_channel update
own d e c p = rw (eq→== e e refl, eq→== c c refl) refl

flag :
    (d : Device) (e c : ℕ) (p : ℤ)
    → let d' = with_priority d e c p in (mixed_engines d' 0 d'.num_engines ≡ true) ↔ IsMixed d'
flag d e c p =
    let k = mixed_engines_iff (with_priority d e c p) 0 (with_priority d e c p).num_engines in
    (
      (λ t. let (i, j, l, h, m, f) = k.0 t in (i, j, omega (arith, h), m, f)),
      λ (i, j, h, m, f). k.1 (i, j, omega arith, omega (arith, h), m, f),
    )

-- `set_channel_priority` accepts exactly the channels of the device and the priorities from -7 to 0.
-- It then sets the channel's priority, and the flag says whether some channel's priority is not the
-- default; otherwise it returns EINVAL and changes nothing.
pub set_channel_priority_lem :
    (d : Device) (e c : ℕ) (p : ℤ)
    → let (rc, d') = set_channel_priority d e c p in
      ((rc ≡ ok)
        × Accepts d e c p
        × ((d'.channel e c).priority ≡ p)
        × ((d'.mixed_priority ≡ true) ↔ IsMixed d'))
      ⊎ ((rc ≡ einval) × (¬ Accepts d e c p) × (d' ≡ d))
unfolding set_channel_priority with_priority
set_channel_priority_lem d e c p = elim (Bool-cases (leb d.num_engines e || leb d.num_channels c)) [
  | inl t ↦ rw t (inr (refl, (λ a. ground (arith, t, a.0, a.1)), refl))
  | inr t ↦ rw t (elim (Bool-cases (ltb_int priority_least p || ltb_int p priority_greatest)) [
    | inl u ↦ rw u (inr (refl, (λ a. ground (arith, u, a.2, a.3)), refl))
    | inr u ↦ rw u (
        inl (
          refl,
          (ground (arith, t), ground (arith, t), ground (arith, u), ground (arith, u)),
          own d e c p,
          flag d e c p,
        ))
  ])
]
