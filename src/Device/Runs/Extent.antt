-- ===== src/Device/Runs/Extent.antt =====
-- run_at against the page table.
use softgpu.Base.{
  ℕ, ◌+◌, ◌<◌, ◌≤◌, ◌≡◌, ◌≢◌, refl, ◌∙◌, ap, ◌⊎◌, Bool, true, false, ◌&&◌, arith, u64_mod,
  Bool-cases, inl, inr,
}
use softgpu.Errno.{efault}
use softgpu.Mmu.{Mmu, translated, host_resident, page_floor, max_engines}
use softgpu.Mmu.Coherence.{IsCoherent}
use softgpu.Device.Runs.{
  Ended, success, page_fault, split, refused, is_success, run_from, run_at, outside,
}
use softgpu.Device.Runs.Places.{place, status_at, Kept}
use softgpu.Device.Runs.Longest.{Dirtied, EndsAt, Outcome, from_start}

add_zero : (a : ℕ) → a + 0 ≡ a
add_zero a = omega arith

-- What run_at says of the mapping m, at its end with mapping m'.
abbrev pub Extent : Mmu → Mmu → ℕ → ℕ → ℕ → Bool → ℕ → ℕ → Ended → Type 0
Extent m m' vram_size va len write base n success =
    (n ≤ len)
    × (0 < n)
    × (base + n ≤ vram_size)
    × ((k : ℕ) → k < n → (status_at m (va + k) ≡ translated) × (place m (va + k) ≡ base + k))
    × Dirtied write m' va n
    × ((n ≡ len) ⊎ EndsAt m va base n)
Extent m m' vram_size va len write base n (page_fault a) =
    (a ≡ page_floor va) × (status_at m va ≡ host_resident)
Extent m m' vram_size va len write base n split = ⊥
Extent m m' vram_size va len write base n (refused rc) =
    (rc ≡ efault) × (status_at m va ≢ host_resident)

module _ (vram_size engine va len : ℕ) (write : Bool) (m : Mmu) (some_bytes : 0 < len)
    (fits : vram_size < u64_mod) where
  bounded :
      (m' : Mmu) (base n : ℕ) (rc : Ended)
      → Outcome m m' va len write base n rc
      → (is_success rc && outside vram_size base n) ≡ false
      → Extent m m' vram_size va len write base n rc
  bounded m' base n success (w, p, c, d, e) o =
      let inside : base + n ≤ vram_size = ground arith in
      (
        w,
        p some_bytes,
        inside,
        (λ k h. ((c k h).0, (c k h).1 ∙ omega (arith, inside, h, fits))),
        d,
        e,
      )
  bounded m' base n (page_fault a) h o = h
  bounded m' base n split h o = h
  bounded m' base n (refused rc) h o = (h.0, λ e. cc (e, h.1))

  beyond :
      (m' : Mmu) (base n : ℕ) (rc : Ended)
      → Outcome m m' va len write base n rc
      → (is_success rc && outside vram_size base n) ≡ true
      → status_at m va ≢ host_resident
  beyond m' base n success (w, p, c, d, e) o =
      λ h. cc (h, ap (λ a. status_at m a) (add_zero va), (c 0 (p some_bytes)).0)
  beyond m' base n (page_fault a) h o = cc
  beyond m' base n split h o = cc
  beyond m' base n (refused rc) h o = cc

-- run_at with coherent TLBs on a range that is not empty and does not wrap: a run is inside VRAM, holds the bytes of the
-- range in order from its start, as far as the range is in VRAM and contiguous there, and not none;
-- a write leaves its pages dirty. Else the first page is on the host and the
-- fault is at its base, or the call is refused, the first page not being on the host. The mapping
-- stays the same up to flags, and the TLBs coherent.
pub run_at-Extent :
    (vram_size engine va len : ℕ) (write : Bool) (m : Mmu)
    → vram_size < u64_mod
    → engine < max_engines
    → 0 < len
    → va + len ≤ u64_mod
    → IsCoherent m
    → let ((rc, base, n), m') = run_at vram_size engine va len write m in
      Kept m m' × Extent m m' vram_size va len write base n rc
unfolding run_at
run_at-Extent vram_size engine va len write m fits known some_bytes small c =
    let t = from_start engine va len write known small m c in
    let r = run_from len engine va len write m 0 0 in
    elim (Bool-cases (is_success r.0.0 && outside vram_size r.0.1 r.0.2)) [
      | inl q ↦ rw q (
        t.0,
        (refl, beyond vram_size engine va len write m some_bytes fits r.1 r.0.1 r.0.2 r.0.0 t.1 q),
      )
      | inr q ↦
          rw q (
            t.0,
            bounded vram_size engine va len write m some_bytes fits r.1 r.0.1 r.0.2 r.0.0 t.1 q,
          )
    ]
