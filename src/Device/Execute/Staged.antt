-- ===== src/Device/Execute/Staged.antt =====
-- The compute commands through the vectors of a replay: what they hold between faults, and phase 0.
use softgpu.Base.{
  ℕ, ◌+◌, ◌<◌, ◌≤◌, ◌≡◌, ◌≢◌, ◌⊎◌, refl, ◌∙◌, sym, ap, subst, true, false, ◌==◌, arith, u64_mod,
  Bool-cases, eq→==, ne→==, inl, inr,
}
use softgpu.Mmu.{Mmu, max_engines}
use softgpu.Mmu.Coherence.{IsCoherent}
use softgpu.Device.{Bytes, Replay, Command}
use softgpu.Device.Runs.{Ended, success, page_fault, split, refused, is_success}
use softgpu.Device.Runs.Places.{Kept, Kept-refl}
use softgpu.Device.Runs.Applied.{Reached}
use softgpu.Device.Execute.{Float32, Operands, Board, Outcome, in_vectors, gather_into, load_first}
use softgpu.Device.Execute.Gather.{Holds, Begins, Filling, gather_into_lem}

pub is_success→eq : (rc : Ended) → is_success rc ≡ true → rc ≡ success
is_success→eq success h = refl
is_success→eq (page_fault a) h = cc
is_success→eq split h = cc
is_success→eq (refused rc) h = cc

module _ (vram_size engine : ℕ) (fits : vram_size < u64_mod) (known : engine < max_engines)
    (f : Float32) (c : Command) (b0 b1 bd : ℕ) (kernel : Operands f (ℕ → ℕ) → (ℕ → ℕ) → ℕ → ℕ)
    (first second : ℕ → ℕ) (small0 : c.src0 + b0 ≤ u64_mod) (small1 : c.src1 + b1 ≤ u64_mod)
    (small_d : c.dst + bd ≤ u64_mod) where
  -- What the kernel makes of vectors that begin with the bytes of the sources.
  pub record Computed (v : ℕ → ℕ) : Type 0 where
    pub a : Bytes
    pub b : Bytes
    pub before : ℕ → ℕ
    pub begins0 : Begins a first b0
    pub begins1 : Begins b second b1
    pub computed : v ≡ kernel (in_vectors f a.byte b.byte) before

  -- What a replay holds, by its phase.
  abbrev pub Staged : Replay → Type 0
  Staged r =
      ((r.phase ≡ 0) × Filling r.a first b0 r.done)
      ⊎ ((r.phase ≡ 1) × Begins r.a first b0 × Filling r.b second b1 r.done)
      ⊎ ((r.phase ≡ 2) × Begins r.a first b0 × Begins r.b second b1 × (r.done ≡ 0))
      ⊎ ((r.phase ≡ 3) × Computed r.c.byte × (r.done ≤ bd))

  -- A step that changes no memory.
  pub record Moved (b b' : Board) : Type 0 where
    pub kept : Kept b.mmu b'.mmu
    pub same_vram : b'.vram ≡ b.vram
    pub same_host : b'.host ≡ b.host

  pub Moved-refl : (b : Board) → IsCoherent b.mmu → Moved b b
  Moved-refl b k = record { kept = Kept-refl b.mmu k; same_vram = refl; same_host = refl }

  -- How a gathering phase ends: it was over before, or the next one is on, or its source has a page that is not in VRAM.
  abbrev pub Gathered : ℕ → ℕ → ℕ → Mmu → Replay → Ended → Replay → Type 0
  Gathered phase va len m r rc r' =
      ((is_success rc ≡ true)
        × (((r' ≡ r) × (phase < r.phase)) ⊎ ((r.phase ≡ phase) × (r'.phase ≡ phase + 1))))
      ⊎ ((is_success rc ≡ false) × (r'.phase ≡ phase) × Reached m va len r'.done rc)

  load_first_skip :
      (r : Replay) (b : Board)
      → (r.phase == 0) ≡ false
      → load_first vram_size engine c.src0 b0 r b ≡ (success, r, b)
  unfolding load_first
  load_first_skip r b q = rw q refl

  load_first_fails :
      (r : Replay) (b : Board)
      → (r.phase == 0) ≡ true
      → let (rc, r', buf, b') = gather_into vram_size engine c.src0 b0 r.a r b in
        is_success rc ≡ false
        → load_first vram_size engine c.src0 b0 r b ≡ (rc, record r' { a = buf }, b')
  unfolding load_first
  load_first_fails r b q z = rw (q, z) refl

  load_first_done :
      (r : Replay) (b : Board)
      → (r.phase == 0) ≡ true
      → let (rc, r', buf, b') = gather_into vram_size engine c.src0 b0 r.a r b in
        is_success rc ≡ true
        → load_first vram_size engine c.src0 b0 r b
          ≡ (success, record r' { a = buf; phase = 1; done = 0 }, b')
  unfolding load_first
  load_first_done r b q z = rw (q, z) refl

  -- What the first phase leaves.
  abbrev pub First : Replay → Board → Outcome → Type 0
  First r b (rc, r', b') = Moved b b' × Staged r' × Gathered 0 c.src0 b0 b.mmu r rc r'

  skipped :
      (r : Replay) (b : Board)
      → IsCoherent b.mmu
      → Staged r
      → (r.phase ≢ 0)
      → First r b (load_first vram_size engine c.src0 b0 r b)
  skipped r b k s n =
      subst (λ o. First r b o) (sym (load_first_skip r b (ne→== r.phase 0 n)))
        (Moved-refl b k, s, inl (refl, inl (refl, omega (arith, n))))

  pub load_first_lem :
      (r : Replay) (b : Board)
      → IsCoherent b.mmu
      → Holds b.mmu b.vram c.src0 b0 first
      → Staged r
      → First r b (load_first vram_size engine c.src0 b0 r b)
  load_first_lem r b k holds (inl (e, fill)) =
      let t = gather_into vram_size engine c.src0 b0 r.a r b in
      let x =
        gather_into_lem vram_size engine fits known c.src0 b0 first r.a r b small0 k holds fill in
      let moved : Moved b t.3 = record { kept = x.0.kept; same_vram = x.2; same_host = x.3 } in
      let q = eq→== r.phase 0 e in
      elim (Bool-cases (is_success t.0)) [
        | inr z ↦
            let p : t.1.phase ≡ 0 = ap (λ y. y.phase) x.0.only_done ∙ e in
            subst (λ o. First r b o) (sym (load_first_fails r b q z))
              (moved, inl (p, x.1), inr (z, p, x.0.reached))
        | inl z ↦
            let all : t.1.done ≡ b0 =
              subst (λ rc. Reached b.mmu c.src0 b0 t.1.done rc) (is_success→eq t.0 z) x.0.reached in
            subst (λ o. First r b o) (sym (load_first_done r b q z))
              (
                moved,
                inr (
                    inl (
                      refl,
                      (λ i h. x.1.2 i (omega (arith, all))),
                      (omega arith, inl refl, λ i h. absurd (omega arith)),
                    )),
                inl (refl, inr (e, omega arith)),
              )
      ]
  load_first_lem r b k holds (inr (inl s)) = skipped r b k (inr (inl s)) (omega (arith, s.0))
  load_first_lem r b k holds (inr (inr (inl s))) =
      skipped r b k (inr (inr (inl s))) (omega (arith, s.0))
  load_first_lem r b k holds (inr (inr (inr s))) =
      skipped r b k (inr (inr (inr s))) (omega (arith, s.0))
