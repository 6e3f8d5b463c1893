-- ===== src/Device/Runlist/Service.antt =====
-- A scan serves an engine whenever a channel of it can run.
use softgpu.Base.{
  ℕ, ◌+◌, ◌%◌, ◌<◌, ◌≡◌, sym, subst, inl, inr, arith, none, some, false, Option-cases,
}
use softgpu.Integers.{ℤ, ltb_int}
use softgpu.Device.{Device}
use softgpu.Device.Runlist.{Scan, scan}
use softgpu.Device.Runlist.Channels.{IsSane}
use softgpu.Rotation.{rotation_meets}
use native.Mathlib.Nat.{mod-lt}
use softgpu.Device.Runlist.Rounds.{Runnable}
use softgpu.Device.Runlist.Choice.{Best, Picked, scan-Picked}

no_choice :
    (d : Device) (e rr : ℕ) (s : Scan)
    → s.chosen ≡ none
    → Picked d e (λ j. (rr + j) % d.num_channels) d.num_channels s.dev s.chosen
    → (j : ℕ) → j < d.num_channels
    → ¬ Runnable d e ((rr + j) % d.num_channels)
unfolding Picked
no_choice d e rr s n k =
    subst (Picked d e (λ j. (rr + j) % d.num_channels) d.num_channels s.dev) n k

the_choice :
    (d : Device) (e rr : ℕ) (s : Scan) (c : ℕ) (p : ℤ)
    → s.chosen ≡ some (c, p)
    → Picked d e (λ j. (rr + j) % d.num_channels) d.num_channels s.dev s.chosen
    → (k : ℕ) × Best d e (λ j. (rr + j) % d.num_channels) d.num_channels s.dev c p k
unfolding Picked
the_choice d e rr s c p n k =
    subst (Picked d e (λ j. (rr + j) % d.num_channels) d.num_channels s.dev) n k

-- When a channel of the engine can run before a scan, and PUT is not behind GET anywhere, the scan
-- chooses a channel of the engine that can run after it and whose priority is no worse.
pub scan-Runnable :
    (d : Device) (e : ℕ) (now : ℕ → ℕ) (rr : ℕ) (seen : ℕ → ℕ) (c : ℕ)
    → IsSane d
    → rr < d.num_channels
    → c < d.num_channels
    → Runnable d e c
    → let s = scan e now rr seen d in
      (k : ℕ) × (p : ℤ) × (s.chosen ≡ some (k, p))
      × (k < d.num_channels)
      × Runnable s.dev e k
      × (ltb_int (d.channel e c).priority p ≡ false)
unfolding Picked
scan-Runnable d e now rr seen c v l h r =
    let s = scan e now rr seen d in
    let (i, b, q) = rotation_meets rr d.num_channels c l h in
    let mine = subst (λ x. Runnable d e x) (sym q) r in
    let picked = (scan-Picked d e now rr seen v).1 in
    elim (Option-cases s.chosen) [
      | inl n ↦ elim (no_choice d e rr s n picked i b mine) [ ]
      | inr ((k, p), n) ↦
          let (j, best) = the_choice d e rr s k p n picked in
          (
            k,
            p,
            n,
            subst (λ x. x < d.num_channels) best.its_channel (mod-lt _ (omega (arith, l))),
            best.runs,
            subst (λ x. ltb_int (d.channel e x).priority p ≡ false) q (best.none_better i b mine),
          )
    ]
