-- ===== src/Device/Execute/Retried.antt =====
-- The compute commands through the vectors of a replay, however often they fault.
use softgpu.Base.{
  ℕ, ◌+◌, ◌<◌, ◌≤◌, ◌≡◌, ◌⊎◌, refl, ◌∙◌, sym, ap, subst, true, false, ◌==◌, if◌then◌else◌, arith,
  u64_mod, Bool-cases, eq→==, ne→==, inl, inr,
}
use softgpu.Mmu.{max_engines}
use softgpu.Mmu.Coherence.{IsCoherent}
use softgpu.Device.{Replay, Command}
use softgpu.Device.Runs.{success, is_success}
use softgpu.Device.Runs.Places.{Kept, Kept-refl, Kept-trans}
use softgpu.Device.Runs.Applied.{Reached}
use softgpu.Device.Execute.{
  Float32, Operands, Board, Outcome, and_then, in_vectors, resize, write_range, gather_into,
  load_first, load_second, run_and_scatter, compute_through,
}
use softgpu.Device.Execute.Copies.{Written}
use softgpu.Device.Execute.Transfers.{write_range_lem}
use softgpu.Device.Execute.Gather.{
  Holds, Begins, Reached-le, gather_into_lem, Reached-Kept, Written-Kept, Holds-Kept, OneToOne,
  OneToOne-Agrees,
}
use softgpu.Device.Execute.Staged.{
  is_success→eq, Computed, Staged, Moved, Moved-refl, Gathered, load_first_lem,
}

module _ (vram_size engine : ℕ) (fits : vram_size < u64_mod) (known : engine < max_engines)
    (f : Float32) (c : Command) (b0 b1 bd : ℕ) (kernel : Operands f (ℕ → ℕ) → (ℕ → ℕ) → ℕ → ℕ)
    (first second : ℕ → ℕ) (small0 : c.src0 + b0 ≤ u64_mod) (small1 : c.src1 + b1 ≤ u64_mod)
    (small_d : c.dst + bd ≤ u64_mod) where
  -- The names of Staged at these parameters.
  abbrev Holding : Replay → Type 0
  Holding r =
      Staged vram_size engine fits known f c b0 b1 bd kernel first second small0 small1 small_d r

  abbrev Still : Board → Board → Type 0
  Still b b' =
      Moved vram_size engine fits known f c b0 b1 bd kernel first second small0 small1 small_d b b'

  abbrev Second : Replay → Board → Outcome → Type 0
  Second r b (rc, r', b') =
      Still b b'
      × Holding r'
      × Gathered vram_size engine fits known f c b0 b1 bd kernel first second small0 small1 small_d
          1 c.src1 b1 b.mmu r rc r'

  load_second_skip :
      (r : Replay) (b : Board)
      → (r.phase == 1) ≡ false
      → load_second vram_size engine c.src1 b1 r b ≡ (success, r, b)
  unfolding load_second
  load_second_skip r b q = rw q refl

  load_second_fails :
      (r : Replay) (b : Board)
      → (r.phase == 1) ≡ true
      → let (rc, r', buf, b') = gather_into vram_size engine c.src1 b1 r.b r b in
        is_success rc ≡ false
        → load_second vram_size engine c.src1 b1 r b ≡ (rc, record r' { b = buf }, b')
  unfolding load_second
  load_second_fails r b q z = rw (q, z) refl

  load_second_done :
      (r : Replay) (b : Board)
      → (r.phase == 1) ≡ true
      → let (rc, r', buf, b') = gather_into vram_size engine c.src1 b1 r.b r b in
        is_success rc ≡ true
        → load_second vram_size engine c.src1 b1 r b
          ≡ (success, record r' { b = buf; phase = 2; done = 0 }, b')
  unfolding load_second
  load_second_done r b q z = rw (q, z) refl

  skipped :
      (r : Replay) (b : Board)
      → IsCoherent b.mmu
      → Holding r
      → 1 < r.phase
      → Second r b (load_second vram_size engine c.src1 b1 r b)
  skipped r b k s n =
      subst (λ o. Second r b o) (sym (load_second_skip r b (ne→== r.phase 1 (omega arith))))
        (
          Moved-refl vram_size engine fits known f c b0 b1 bd kernel first second small0 small1
              small_d b k,
          s,
          inl (refl, inl (refl, n)),
        )

  load_second_lem :
      (r : Replay) (b : Board)
      → IsCoherent b.mmu
      → Holds b.mmu b.vram c.src1 b1 second
      → Holding r
      → 0 < r.phase
      → Second r b (load_second vram_size engine c.src1 b1 r b)
  load_second_lem r b k holds (inl s) pos = absurd (omega (arith, s.0))
  load_second_lem r b k holds (inr (inl (e, begins, fill))) pos =
      let t = gather_into vram_size engine c.src1 b1 r.b r b in
      let x =
        gather_into_lem vram_size engine fits known c.src1 b1 second r.b r b small1 k holds fill in
      let moved : Still b t.3 = record { kept = x.0.kept; same_vram = x.2; same_host = x.3 } in
      let q = eq→== r.phase 1 e in
      let same : t.1.a ≡ r.a = ap (λ y. y.a) x.0.only_done in
      let begins' : Begins t.1.a first b0 = rw same begins in
      elim (Bool-cases (is_success t.0)) [
        | inr z ↦
            let p : t.1.phase ≡ 1 = ap (λ y. y.phase) x.0.only_done ∙ e in
            subst (λ o. Second r b o) (sym (load_second_fails r b q z))
              (moved, inr (inl (p, begins', x.1)), inr (z, p, x.0.reached))
        | inl z ↦
            let all : t.1.done ≡ b1 =
              subst (λ rc. Reached b.mmu c.src1 b1 t.1.done rc) (is_success→eq t.0 z) x.0.reached in
            subst (λ o. Second r b o) (sym (load_second_done r b q z))
              (
                moved,
                inr (inr (inl (refl, begins', (λ i h. x.1.2 i (omega (arith, all))), refl))),
                inl (refl, inr (e, omega arith)),
              )
      ]
  load_second_lem r b k holds (inr (inr (inl s))) pos =
      skipped r b k (inr (inr (inl s))) (omega (arith, s.0))
  load_second_lem r b k holds (inr (inr (inr s))) pos =
      skipped r b k (inr (inr (inr s))) (omega (arith, s.0))

  -- The part that writes the target, from a replay in phase 3.
  abbrev Scattered : Replay → Board → Outcome → Type 0
  Scattered r b (rc, r', b') =
      Kept b.mmu b'.mmu
      × Holding r'
      × (b'.host ≡ b.host)
      × (r'.phase ≡ 3)
      × Reached b.mmu c.dst bd r'.done rc
      × Written b.mmu c.dst r'.c.byte b.vram b'.vram r.done r'.done

  scatter_lem :
      (r : Replay) (b : Board)
      → IsCoherent b.mmu
      → OneToOne b.mmu c.dst bd
      → r.phase ≡ 3
      → Computed vram_size engine fits known f c b0 b1 bd kernel first second small0 small1 small_d
          r.c.byte
      → r.done ≤ bd
      → Scattered r b (write_range vram_size engine c.dst bd r.c.byte r b)
  scatter_lem r b k o p v h =
      let t = write_range vram_size engine c.dst bd r.c.byte r b in
      let x =
        write_range_lem vram_size engine c.dst bd fits known small_d r b k h r.c.byte
          (OneToOne-Agrees b.mmu b.mmu c.dst bd r.c.byte (Kept-refl b.mmu k) o) in
      let e = x.0.only_done in
      let p' : t.1.phase ≡ 3 = ap (λ y. y.phase) e ∙ p in
      let same : t.1.c.byte ≡ r.c.byte = ap (λ y. y.c.byte) e in
      (
        x.0.kept,
        inr (inr (inr (p', rw same v, Reached-le b.mmu c.dst bd t.1.done t.0 x.0.reached))),
        x.2,
        p',
        x.0.reached,
        rw same x.1,
      )

  abbrev ran : Replay → Replay
  ran r = record r {
    c = record (resize r.c bd) {
      byte = kernel (in_vectors f r.a.byte r.b.byte) (resize r.c bd).byte;
    };
    phase = 3;
  }

  run_now :
      (r : Replay) (b : Board)
      → (r.phase == 2) ≡ true
      → run_and_scatter vram_size engine f c.dst bd kernel r b
        ≡ write_range vram_size engine c.dst bd (ran r).c.byte (ran r) b
  unfolding run_and_scatter
  run_now r b q = rw q refl

  run_before :
      (r : Replay) (b : Board)
      → (r.phase == 2) ≡ false
      → run_and_scatter vram_size engine f c.dst bd kernel r b
        ≡ write_range vram_size engine c.dst bd r.c.byte r b
  unfolding run_and_scatter
  run_before r b q = rw q refl

  run_and_scatter_lem :
      (r : Replay) (b : Board)
      → IsCoherent b.mmu
      → OneToOne b.mmu c.dst bd
      → Holding r
      → 1 < r.phase
      → Scattered r b (run_and_scatter vram_size engine f c.dst bd kernel r b)
  run_and_scatter_lem r b k o (inl s) l = absurd (omega (arith, s.0))
  run_and_scatter_lem r b k o (inr (inl s)) l = absurd (omega (arith, s.0))
  run_and_scatter_lem r b k o (inr (inr (inl (e, ba, bb, z)))) l =
      let v : Computed vram_size engine fits known f c b0 b1 bd kernel first second small0 small1
          small_d (ran r).c.byte =
        record {
          a = r.a;
          b = r.b;
          before = (resize r.c bd).byte;
          begins0 = ba;
          begins1 = bb;
          computed = refl;
        } in
      subst (λ x. Scattered r b x) (sym (run_now r b (eq→== r.phase 2 e)))
        (scatter_lem (ran r) b k o refl v (omega (arith, z)))
  run_and_scatter_lem r b k o (inr (inr (inr (e, v, h)))) l =
      subst (λ x. Scattered r b x) (sym (run_before r b (ground (arith, e))))
        (scatter_lem r b k o e v h)

  -- Where a call starts to write the target.
  abbrev pub start : Replay → ℕ
  start r = if r.phase == 3 then r.done else 0

  -- How a call ends: at a page of a source that is not in VRAM, or in the target.
  abbrev pub Through : Replay → Board → Outcome → Type 0
  Through r b (rc, r', b') =
      Kept b.mmu b'.mmu
      × Staged vram_size engine fits known f c b0 b1 bd kernel first second small0 small1 small_d r'
      × (b'.host ≡ b.host)
      × (((is_success rc ≡ false)
            × (r'.phase ≡ 0)
            × Reached b.mmu c.src0 b0 r'.done rc
            × (b'.vram ≡ b.vram))
          ⊎ ((is_success rc ≡ false)
              × (r'.phase ≡ 1)
              × Reached b.mmu c.src1 b1 r'.done rc
              × (b'.vram ≡ b.vram))
          ⊎ ((r'.phase ≡ 3)
              × Reached b.mmu c.dst bd r'.done rc
              × Written b.mmu c.dst r'.c.byte b.vram b'.vram (start r) r'.done))

  staged_done : (r : Replay) → Holding r → 1 < r.phase → r.done ≡ start r
  staged_done r (inl s) l = absurd (omega (arith, s.0))
  staged_done r (inr (inl s)) l = absurd (omega (arith, s.0))
  staged_done r (inr (inr (inl (e, p, q, z)))) l = ground (arith, e, z)
  staged_done r (inr (inr (inr (e, v, h)))) l = ground (arith, e)

  at_zero : (r : Replay) → Holding r → r.phase ≡ 2 → r.done ≡ 0
  at_zero r (inl s) p = absurd (omega (arith, s.0))
  at_zero r (inr (inl s)) p = absurd (omega (arith, s.0))
  at_zero r (inr (inr (inl (e, u, v, z)))) p = z
  at_zero r (inr (inr (inr (e, v, h)))) p = absurd (omega arith)

  module _ (r : Replay) (b : Board) (k : IsCoherent b.mmu)
      (source0 : Holds b.mmu b.vram c.src0 b0 first) (source1 : Holds b.mmu b.vram c.src1 b1 second)
      (target : OneToOne b.mmu c.dst bd)
      (staged : Staged vram_size engine fits known f c b0 b1 bd kernel first second small0 small1
        small_d r) where
    later :
        (r' : Replay) → ((r' ≡ r) × (0 < r.phase)) ⊎ ((r.phase ≡ 0) × (r'.phase ≡ 1)) → 0 < r'.phase
    later r' (inl (e, l)) = rw e l
    later r' (inr (p, q)) = omega arith

    -- A replay that is at the target has not moved, or has just come there.
    starts :
        (r' r'' : Replay)
        → Holding r''
        → ((r' ≡ r) × (0 < r.phase)) ⊎ ((r.phase ≡ 0) × (r'.phase ≡ 1))
        → ((r'' ≡ r') × (1 < r'.phase)) ⊎ ((r'.phase ≡ 1) × (r''.phase ≡ 2))
        → (1 < r''.phase) × (r''.done ≡ start r)
    starts r' r'' s (inl (e, l)) (inl (e', l')) =
        let z = e' ∙ e in
        let y : 1 < r.phase = rw (← e) l' in
        (rw z y, ap (λ (x : Replay). x.done) z ∙ staged_done r staged y)
    starts r' r'' s (inl (e, l)) (inr (p, q)) =
        let x : r.phase ≡ 1 = rw (← e) p in (omega arith, at_zero r'' s q ∙ ground (arith, x))
    starts r' r'' s (inr (p, q)) (inl (e, l)) = absurd (omega arith)
    starts r' r'' s (inr (p, q)) (inr (p', q')) =
        (omega arith, at_zero r'' s q' ∙ ground (arith, p))

    after_second :
        (r' r'' : Replay) (b' b'' : Board)
        → Still b b'
        → Still b' b''
        → Holding r''
        → ((r' ≡ r) × (0 < r.phase)) ⊎ ((r.phase ≡ 0) × (r'.phase ≡ 1))
        → ((r'' ≡ r') × (1 < r'.phase)) ⊎ ((r'.phase ≡ 1) × (r''.phase ≡ 2))
        → Through r b (run_and_scatter vram_size engine f c.dst bd kernel r'' b'')
    after_second r' r'' b' b'' m n s p q =
        let kk = Kept-trans b.mmu b'.mmu b''.mmu m.kept n.kept in
        let z = starts r' r'' s p q in
        let o = OneToOne-Agrees b.mmu b''.mmu c.dst bd (λ i. i) kk target in
        let x = run_and_scatter_lem r'' b'' n.kept.coherent o s z.0 in
        let t = run_and_scatter vram_size engine f c.dst bd kernel r'' b'' in
        let w =
          Written-Kept b.mmu b''.mmu c.dst t.1.c.byte b''.vram t.2.vram r''.done t.1.done kk x.5 in
        (
          Kept-trans b.mmu b''.mmu t.2.mmu kk x.0,
          x.1,
          x.2 ∙ n.same_host ∙ m.same_host,
          inr (
              inr (
                x.3,
                Reached-Kept b.mmu b''.mmu c.dst bd t.1.done t.0 kk x.4,
                subst (λ v. Written b.mmu c.dst t.1.c.byte v t.2.vram (start r) t.1.done)
                    (n.same_vram ∙ m.same_vram)
                    (subst (λ i. Written b.mmu c.dst t.1.c.byte b''.vram t.2.vram i t.1.done) z.1
                      w),
              )),
        )

    after_first :
        (r' : Replay) (b' : Board)
        → Still b b'
        → Holding r'
        → ((r' ≡ r) × (0 < r.phase)) ⊎ ((r.phase ≡ 0) × (r'.phase ≡ 1))
        → Through r b (
            and_then
              (load_second vram_size engine c.src1 b1 r' b')
              (λ r2 x2. run_and_scatter vram_size engine f c.dst bd kernel r2 x2))
    after_first r' b' m s p =
        let t = load_second vram_size engine c.src1 b1 r' b' in
        let h =
          subst (λ v. Holds b'.mmu v c.src1 b1 second) (sym m.same_vram)
            (Holds-Kept b.mmu b'.mmu b.vram c.src1 b1 second m.kept source1) in
        let x = load_second_lem r' b' m.kept.coherent h s (later r' p) in
        elim x.2 [
          | inl (z, q) ↦ rw z (after_second r' t.1 b' t.2 m x.0 x.1 p q)
          | inr (z, q, e) ↦ rw z (
            Kept-trans b.mmu b'.mmu t.2.mmu m.kept x.0.kept,
            x.1,
            x.0.same_host ∙ m.same_host,
            inr (
                inl (
                  z,
                  q,
                  Reached-Kept b.mmu b'.mmu c.src1 b1 t.1.done t.0 m.kept e,
                  x.0.same_vram ∙ m.same_vram,
                )),
          )
        ]

    -- A compute command through the vectors, from any replay that holds what an earlier call of the same
    -- command left.
    pub compute_through-Through :
        Through r b (compute_through vram_size engine f c b0 b1 bd kernel r b)
    unfolding compute_through
    compute_through-Through =
        let t = load_first vram_size engine c.src0 b0 r b in
        let x =
          load_first_lem vram_size engine fits known f c b0 b1 bd kernel first second small0 small1
            small_d r b k source0 staged in
        elim x.2 [
          | inl (z, q) ↦ rw z (after_first t.1 t.2 x.0 x.1 q)
          | inr (z, q, e) ↦ rw z (x.0.kept, x.1, x.0.same_host, inl (z, q, e, x.0.same_vram))
        ]
