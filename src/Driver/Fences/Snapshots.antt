-- ===== src/Driver/Fences/Snapshots.antt =====
-- Waiting for a snapshot of PUTs is waiting for every channel.
use softgpu.Base.{ℕ, zero, suc, ◌+◌, ◌≤◌, ◌<◌, ◌≡◌, refl, ◌↔◌, inl, inr, true, arith, eq_or_ne}
use softgpu.Driver.Fences.{
  Rings, Snapshot, retired, snapshot_puts, retired_channels, retired_engines, all_retired,
}

retired_channels_iff :
    (r : Rings) (fence : Snapshot) (e c n : ℕ)
    → (retired_channels r fence e c n ≡ true)
      ↔ ((j : ℕ) → c ≤ j → j < c + n → fence e j ≤ retired r e j)
unfolding retired_channels
retired_channels_iff r fence e c zero = ((λ t j l h. omega (arith, l, h)), λ h. refl)
retired_channels_iff r fence e c (suc n) =
    let rest = retired_channels_iff r fence e (suc c) n in
    (
      (λ t j l h. elim (eq_or_ne j c) [
        | inl q ↦ rw q (ground (arith, t))
        | inr q ↦ rest.0 (ground (arith, t)) j (omega (arith, l, q)) (omega (arith, h))
      ]),
      λ k.
          let first = k c (omega arith) (omega arith) in
          let others = rest.1 (λ j l h. k j (omega (arith, l)) (omega (arith, h))) in
          ground (arith, first, others),
    )

retired_engines_iff :
    (r : Rings) (fence : Snapshot) (e n : ℕ)
    → (retired_engines r fence e n ≡ true)
      ↔ ((i j : ℕ) → e ≤ i → i < e + n → j < r.dev.num_channels → fence i j ≤ retired r i j)
unfolding retired_engines
retired_engines_iff r fence e zero = ((λ t i j l h k. omega (arith, l, h)), λ h. refl)
retired_engines_iff r fence e (suc n) =
    let rest = retired_engines_iff r fence (suc e) n in
    let row = retired_channels_iff r fence e 0 r.dev.num_channels in
    (
      (λ t i j l h k. elim (eq_or_ne i e) [
        | inl q ↦ rw q (row.0 (ground (arith, t)) j (omega arith) (omega (arith, k)))
        | inr q ↦ rest.0 (ground (arith, t)) i j (omega (arith, l, q)) (omega (arith, h)) k
      ]),
      λ k.
          let first = row.1 (λ j l h. k e j (omega arith) (omega arith) (omega (arith, h))) in
          let others = rest.1 (λ i j l h m. k i j (omega (arith, l)) (omega (arith, h)) m) in
          ground (arith, first, others),
    )

-- `all_retired` of a snapshot holds exactly when every channel of the device has retired what the
-- driver had published on it when the snapshot was taken.
pub all_retired_iff :
    (r r' : Rings)
    → r'.dev.num_engines ≡ r.dev.num_engines
    → r'.dev.num_channels ≡ r.dev.num_channels
    → (all_retired r' (snapshot_puts r) ≡ true) ↔ (
        (e c : ℕ)
        → e < r.dev.num_engines
        → c < r.dev.num_channels
        → r.published e c ≤ retired r' e c)
unfolding all_retired snapshot_puts
all_retired_iff r r' p q =
    let k = retired_engines_iff r' (snapshot_puts r) 0 r'.dev.num_engines in
    (
      (λ t e c h l.
          let b = k.0 t e c (omega arith) (omega (arith, h, p)) (omega (arith, l, q)) in
          ground (arith, b, h, l)),
      λ f. k.1 (λ e c l h m.
          let b = f e c (omega (arith, h, p)) (omega (arith, m, q)) in ground (arith, b)),
    )
