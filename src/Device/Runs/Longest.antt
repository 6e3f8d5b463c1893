-- ===== src/Device/Runs/Longest.antt =====
-- The loop of run_at: its invariant, and how it ends.
use softgpu.Base.{
  ℕ, zero, suc, ◌+◌, ◌-◌, ◌<◌, ◌≤◌, ◌≡◌, ◌≢◌, refl, ◌∙◌, sym, ap, subst, min, ◌⊎◌, Bool, true,
  false, ltb, ◌==◌, arith, has, add64, u64_mod, Bool-cases, lt_or_ge, ==→eq, ==→ne, inl, inr,
}
use softgpu.Errno.{efault}
use softgpu.Mmu.{
  Mmu, Translate, TranslateStatus, translated, not_present, host_resident, dirty, vpn_of, page_size,
  page_floor, page_offset, max_engines,
}
use softgpu.Mmu.Access.{translate}
use softgpu.Mmu.Coherence.{IsCoherent}
use softgpu.Mmu.Effects.{succeeded, translate-Effect}
use softgpu.Device.Runs.{
  Ended, success, page_fault, split, refused, is_translated, stopped, run_from,
}
use softgpu.Device.Runs.Places.{
  place, status_at, Kept, Kept-refl, Kept-trans, translate-Kept, status_at-Kept, place-Kept,
  translate-status_at, status_at_next, place_next, status_at-dirty,
}

-- The first n bytes at va are in VRAM, contiguous from base on.
abbrev pub Covered : Mmu → ℕ → ℕ → ℕ → Type 0
Covered m va base n =
    (k : ℕ) → k < n → (status_at m (va + k) ≡ translated) × (place m (va + k) ≡ add64 base k)

-- A write leaves the pages of the run dirty.
abbrev pub Dirtied : Bool → Mmu → ℕ → ℕ → Type 0
Dirtied write m' va n = write ≡ true → (k : ℕ) → k < n → has dirty (m'.pte (vpn_of (va + k))) ≡ true

-- The byte after the run does not continue it.
abbrev pub EndsAt : Mmu → ℕ → ℕ → ℕ → Type 0
EndsAt m va base n = (status_at m (va + n) ≢ translated) ⊎ (place m (va + n) ≢ add64 base n)

-- What the loop says of the mapping m, at its end with mapping m'.
abbrev pub Outcome : Mmu → Mmu → ℕ → ℕ → Bool → ℕ → ℕ → Ended → Type 0
Outcome m m' va len write base n success =
    (n ≤ len)
    × (0 < len → 0 < n)
    × Covered m va base n
    × Dirtied write m' va n
    × ((n ≡ len) ⊎ EndsAt m va base n)
Outcome m m' va len write base n (page_fault a) =
    (a ≡ page_floor va) × (status_at m va ≡ host_resident)
Outcome m m' va len write base n split = ⊥
Outcome m m' va len write base n (refused rc) = (rc ≡ efault) × (status_at m va ≡ not_present)

is_translated→eq : (s : TranslateStatus) → is_translated s ≡ true → s ≡ translated
is_translated→eq translated h = refl
is_translated→eq not_present h = cc
is_translated→eq host_resident h = cc

succeeded_lem : (t : Translate) → t.status ≡ translated → succeeded t ≡ true
succeeded_lem t h = rw h

module _ (engine va len : ℕ) (write : Bool) (known : engine < max_engines)
    (small : va + len ≤ u64_mod) (m : Mmu) where
  -- The loop's invariant.
  record Inv (m' : Mmu) (base got : ℕ) : Type 0 where
    kept : Kept m m'
    within : got ≤ len
    covered : Covered m va base got
    dirtied : Dirtied write m' va got

  module _ (m' : Mmu) (base got : ℕ) (inv : Inv m' base got) (more : got < len) where
    cur : add64 va got ≡ va + got
    cur = omega arith

    marks_last : (m'' : Mmu) → Kept m' m'' → Dirtied write m'' va got
    marks_last m'' k wr i l =
        status_at-dirty m' m'' (va + i) k
          (status_at-Kept m m' (va + i) inv.kept ∙ (inv.covered i l).0) (inv.dirtied wr i l)

    -- A page that does not translate.
    stops :
        (s : TranslateStatus) (m'' : Mmu)
        → Dirtied write m'' va got
        → status_at m (va + got) ≡ s
        → is_translated s ≡ false
        → Outcome m m'' va len write base got (stopped s got (va + got))
    unfolding stopped
    stops translated m'' d e f = cc
    stops not_present m'' d e f = elim (Bool-cases (got == 0)) [
      | inl q ↦ rw q (refl, subst (λ a. status_at m a ≡ not_present) (ground (arith, q)) e)
      | inr q ↦
          rw q (inv.within, (λ h. ground (arith, q)), inv.covered, d, inr (inl (λ x. cc (x, e))))
    ]
    stops host_resident m'' d e f = elim (Bool-cases (got == 0)) [
      | inl q ↦
          rw q (ground (arith, q), subst (λ a. status_at m a ≡ host_resident) (ground (arith, q)) e)
      | inr q ↦
          rw q (inv.within, (λ h. ground (arith, q)), inv.covered, d, inr (inl (λ x. cc (x, e))))
    ]

    abbrev step : ℕ
    step = min (len - got) (page_size - page_offset (va + got))

    same_vpn : (k : ℕ) → k < step → vpn_of (va + got + k) ≡ vpn_of (va + got)
    same_vpn k h = omega arith

    -- One more page, or its part, that continues the run.
    extend :
        (m'' : Mmu) (base' : ℕ)
        → Kept m' m''
        → (0 < got → base' ≡ base)
        → status_at m (va + got) ≡ translated
        → place m (va + got) ≡ add64 base' got
        → (write ≡ true → has dirty (m''.pte (vpn_of (va + got))) ≡ true)
        → Inv m'' base' (got + step)
    extend m'' base' k e s p d = record {
      kept = Kept-trans m m' m'' inv.kept k;
      within = omega arith;
      covered = λ i h. elim (lt_or_ge i got) [
        | inl l ↦
            let o = inv.covered i l in (o.0, o.1 ∙ ap (λ b. add64 b i) (sym (e (omega arith))))
        | inr g ↦
            let v = same_vpn (i - got) (omega arith) in
            let w : va + got + (i - got) ≡ va + i = omega arith in
            let z : got + (i - got) ≡ i = omega arith in
            (
              subst (λ a. status_at m a ≡ translated) w
                  (status_at_next m (va + got) (i - got) v ∙ s),
              subst (λ a. place m a ≡ add64 base' i) w
                  (place_next m (va + got) (i - got) base' got v p ∙ ap (λ a. add64 base' a) z),
            )
      ];
      dirtied = λ wr i h. elim (lt_or_ge i got) [
        | inl l ↦ marks_last m'' k wr i l
        | inr g ↦
            let v = same_vpn (i - got) (omega arith) in
            let w : va + got + (i - got) ≡ va + i = omega arith in
            subst (λ a. has dirty (m''.pte (vpn_of a)) ≡ true) w
              (subst (λ a. has dirty (m''.pte a) ≡ true) (sym v) (d wr))
      ];
    }

  -- What the loop returns, whatever it returns.
  abbrev pub Told : (Ended × ℕ × ℕ) × Mmu → Type 0
  Told r = Kept m r.1 × Outcome m r.1 va len write r.0.1 r.0.2 r.0.0

  full : (m' : Mmu) (base got : ℕ) → Inv m' base got → len ≤ got → Told ((success, base, got), m')
  full m' base got i h =
      let w = i.within in (i.kept, (w, (λ l. omega arith), i.covered, i.dirtied, inl (omega arith)))

  run_from_full :
      (fuel : ℕ) (m' : Mmu) (base got : ℕ)
      → Inv m' base got
      → ltb got len ≡ false
      → Told (run_from (suc fuel) engine va len write m' base got)
  unfolding run_from
  run_from_full fuel m' base got i q = rw q (full m' base got i (ground (arith, q)))

  run_from-Told :
      (fuel : ℕ) (m' : Mmu) (base got : ℕ)
      → Inv m' base got
      → len ≤ got + fuel
      → Told (run_from fuel engine va len write m' base got)
  unfolding run_from
  run_from-Told zero m' base got i h = full m' base got i (omega arith)
  run_from-Told (suc fuel) m' base got i h = elim (Bool-cases (ltb got len)) [
    | inr q ↦ run_from_full fuel m' base got i q
    | inl q ↦
        let more : got < len = ground (arith, q) in
        let c = cur m' base got i more in
        let t = translate m' engine (va + got) write in
        let small' : va + got < u64_mod = omega (arith, more) in
        let k = translate-Kept m' engine (va + got) write i.kept.coherent known small' in
        let e = translate-status_at m' engine (va + got) write i.kept.coherent known small' in
        let s = sym (e.0 ∙ status_at-Kept m m' (va + got) i.kept) in
        let p = sym (e.1 ∙ place-Kept m m' (va + got) i.kept) in
        rw (q, c)
          (elim (Bool-cases (is_translated t.0.status)) [
            | inr f ↦ rw f (
              Kept-trans m m' t.1 i.kept k,
              stops m' base got i more t.0.status t.1 (marks_last m' base got i more t.1 k) s f,
            )
            | inl f ↦
                let v = is_translated→eq t.0.status f in
                let x = translate-Effect m' engine (va + got) write i.kept.coherent known small' in
                let d = λ (wr : write ≡ true). x.dirtied (succeeded_lem t.0 v) wr in
                let pa = add64 t.0.pa (page_offset (va + got)) in
                let next = got + min (len - got) (page_size - page_offset (va + got)) in
                rw f (elim (Bool-cases (got == 0)) [
                  | inl z ↦
                      let j =
                        extend m' base got i more t.1 pa k (λ l. ground (arith, z)) (s ∙ v)
                          (ground (arith, z, p)) d in
                      rw z (run_from-Told fuel t.1 pa next j (omega (arith, more)))
                  | inr z ↦ rw z (elim (Bool-cases (pa == add64 base got)) [
                    | inr b ↦ rw b (
                      Kept-trans m m' t.1 i.kept k,
                      (
                        i.within,
                        (λ l. ground (arith, z)),
                        i.covered,
                        marks_last m' base got i more t.1 k,
                        inr (inr (λ w. ==→ne pa (add64 base got) b (sym p ∙ w))),
                      ),
                    )
                    | inl b ↦
                        let j =
                          extend m' base got i more t.1 base k (λ l. refl) (s ∙ v)
                            (p ∙ ==→eq pa (add64 base got) b) d in
                        rw b (run_from-Told fuel t.1 base next j (omega (arith, more)))
                  ])
                ])
          ])
  ]

module _ (engine va len : ℕ) (write : Bool) (known : engine < max_engines)
    (small : va + len ≤ u64_mod) (m : Mmu) (coherent : IsCoherent m) where
  pub from_start : Told engine va len write known small m (run_from len engine va len write m 0 0)
  from_start =
      run_from-Told engine va len write known small m len m 0 0
        (record {
          kept = Kept-refl m coherent;
          within = omega arith;
          covered = λ k h. absurd (omega (arith, h));
          dirtied = λ w k h. absurd (omega (arith, h));
        })
        (omega arith)
