-- ===== src/Device/Runs/Applied.antt =====
-- for_runs: what holds of the bytes that were applied, however the range falls into runs.
use softgpu.Base.{
  ℕ, zero, suc, ◌+◌, ◌-◌, ◌<◌, ◌≤◌, ◌≡◌, ◌≢◌, refl, ◌∙◌, sym, subst, Bool, true, false, ltb, arith,
  add64, u64_mod, Bool-cases, inl, inr,
}
use softgpu.Errno.{efault}
use softgpu.Mmu.{Mmu, translated, host_resident, page_floor, max_engines}
use softgpu.Device.{Replay}
use softgpu.Device.Runs.{Ended, success, page_fault, split, refused, is_success, run_at, for_runs}
use softgpu.Device.Runs.Places.{place, status_at, Kept, Kept-trans, status_at-Kept, place-Kept}
use softgpu.Device.Runs.Extent.{Extent, run_at-Extent}

-- How for_runs ends, at byte `at` of the range, with mapping m'.
abbrev pub Reached : Mmu → ℕ → ℕ → ℕ → Ended → Type 0
Reached m va len at success = at ≡ len
Reached m va len at (page_fault a) =
    (at < len) × (a ≡ page_floor (va + at)) × (status_at m (va + at) ≡ host_resident)
Reached m va len at split = ⊥
Reached m va len at (refused rc) =
    (at < len) × (rc ≡ efault) × (status_at m (va + at) ≢ host_resident)

-- A run of n bytes at p, `off` bytes from the start of the range.
pub record Run (m : Mmu) (vram_size va len p off n : ℕ) : Type 0 where
  pub within : off + n ≤ len
  pub some_bytes : 0 < n
  pub inside : p + n ≤ vram_size
  pub placed :
      (k : ℕ)
      → k < n
      → (status_at m (va + (off + k)) ≡ translated) × (place m (va + (off + k)) ≡ p + k)

module _ {S : Type 0} (vram_size engine va len : ℕ) (write : Bool) (op : ℕ → ℕ → ℕ → S → S)
    (fits : vram_size < u64_mod) (known : engine < max_engines) (small : va + len ≤ u64_mod)
    (m : Mmu) (P : ℕ → S → Type 0)
    (keep : (p off n : ℕ) (s : S)
      → Run m vram_size va len p off n
      → P off s
      → P (off + n) (op p off n s)) where
  pub record Ready (at : ℕ) (m' : Mmu) (s : S) : Type 0 where
    pub kept : Kept m m'
    pub within : at ≤ len
    pub holds : P at s

  -- What the call leaves.
  pub record Left (r r' : Replay) (m' : Mmu) (s : S) (rc : Ended) : Type 0 where
    pub kept : Kept m m'
    pub forward : r.done ≤ r'.done
    pub only_done : r' ≡ record r { done = r'.done }
    pub holds : P r'.done s
    pub reached : Reached m va len r'.done rc

  abbrev pub Told : Replay → Ended × Replay × Mmu × S → Type 0
  Told r (rc, r', m', s) = Left r r' m' s rc

  module _ (m' m'' : Mmu) (at base n : ℕ) (kept : Kept m m') (more : at < len) where
    back : (a : ℕ) → status_at m' a ≡ status_at m a
    back a = status_at-Kept m m' a kept

    stopped_at :
        (rc : Ended)
        → is_success rc ≡ false
        → Extent m' m'' vram_size (va + at) (len - at) write base n rc
        → Reached m va len at rc
    stopped_at success f x = cc
    stopped_at (page_fault a) f x = (more, x.0, sym (back (va + at)) ∙ x.1)
    stopped_at split f x = x
    stopped_at (refused rc) f x = (more, x.0, λ e. x.1 (back (va + at) ∙ e))

    taken :
        (rc : Ended)
        → is_success rc ≡ true
        → Extent m' m'' vram_size (va + at) (len - at) write base n rc
        → Run m vram_size va len base at n
    taken success f (w, p, b, c, d, e) = record {
      within = omega (arith, more);
      some_bytes = p;
      inside = b;
      placed = λ k h.
          let z : va + at + k ≡ va + (at + k) = omega arith in
          subst (λ a. (status_at m a ≡ translated) × (place m a ≡ base + k)) z
            (
              sym (back (va + at + k)) ∙ (c k h).0,
              sym (place-Kept m m' (va + at + k) kept) ∙ (c k h).1,
            );
    }
    taken (page_fault a) f x = cc
    taken split f x = cc
    taken (refused rc) f x = cc

  pub for_runs-Told :
      (fuel : ℕ) (r : Replay) (m' : Mmu) (s : S)
      → Ready r.done m' s
      → len ≤ r.done + fuel
      → Told r (for_runs fuel vram_size engine va len write op r m' s)
  unfolding for_runs
  for_runs-Told zero r m' s i h = record {
    kept = i.kept;
    forward = omega arith;
    only_done = refl;
    holds = i.holds;
    reached = omega (arith, i.within);
  }
  for_runs-Told (suc fuel) r m' s i h = elim (Bool-cases (ltb r.done len)) [
    | inr q ↦ rw q (record {
      kept = i.kept;
      forward = omega arith;
      only_done = refl;
      holds = i.holds;
      reached = ground (arith, q);
    })
    | inl q ↦
        let more : r.done < len = ground (arith, q) in
        let c : add64 va r.done ≡ va + r.done = omega (arith, more) in
        let a = run_at vram_size engine (va + r.done) (len - r.done) write m' in
        let x =
          run_at-Extent vram_size engine (va + r.done) (len - r.done) write m' fits known
            (omega (arith, more)) (omega (arith, more)) i.kept.coherent in
        rw (q, c)
          (elim (Bool-cases (is_success a.0.0)) [
            | inr f ↦ rw f (record {
              kept = Kept-trans m m' a.1 i.kept x.0;
              forward = omega arith;
              only_done = refl;
              holds = i.holds;
              reached = stopped_at m' a.1 r.done a.0.1 a.0.2 i.kept more a.0.0 f x.1;
            })
            | inl f ↦
                let u = taken m' a.1 r.done a.0.1 a.0.2 i.kept more a.0.0 f x.1 in
                let rest =
                  for_runs-Told fuel (record r { done = r.done + a.0.2 }) a.1
                    (op a.0.1 r.done a.0.2 s)
                    (record {
                      kept = Kept-trans m m' a.1 i.kept x.0;
                      within = u.within;
                      holds = keep a.0.1 r.done a.0.2 s u i.holds;
                    })
                    (omega (arith, u.some_bytes)) in
                rw f (record {
                  kept = rest.kept;
                  forward = omega (arith, rest.forward);
                  only_done = rest.only_done;
                  holds = rest.holds;
                  reached = rest.reached;
                })
          ])
  ]
