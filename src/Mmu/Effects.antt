-- ===== src/Mmu/Effects.antt =====
-- What a translation does to the page table and the TLBs.
use softgpu.Base.{
  ℕ, ◌<◌, ◌≡◌, refl, ◌≢◌, ◌⊎◌, inl, inr, Option, none, some, Bool, true, false, ◌&&◌, not, leb,
  if◌then◌else◌, arith, has, with_flag, update, update_self, update_ne, add64, u64_mod, Bool-cases,
  ◌∙◌, leb→gt, lt→ltb,
}
use softgpu.Mmu.{
  Mmu, TlbEntry, Translate, translated, present, in_vram, dirty, vpn_of, is_resident, max_engines,
  store_pte,
}
use softgpu.Mmu.Flags.{SamePage, with_dirty, touch-SamePage, has-dirty-with_dirty}
use softgpu.Mmu.Access.{
  take_entry, translate, through, hit, miss, walk, probe, tlb_insert, store_entry, mark_dirty, tick,
  is_touched, touch_page, touched,
}
use softgpu.Mmu.Coherence.{Matches, IsFresh, IsCoherent, SameTable, SameTable-update}
use softgpu.Mmu.Translation.{probe-All, used_entry}
use softgpu.Mmu.Fill.{
  SamePage-refl, SameTable-refl, touch_page-Touched, flags-IsCoherent, store_entry-IsCoherent,
  walk_success,
}

-- What `translate` may do to the state: flags of the page's own word, and the TLBs stay coherent.
pub record Effect (m m' : Mmu) (va : ℕ) (write ok : Bool) : Type 0 where
  pub coherent : IsCoherent m'
  pub same : SameTable m.pte m'.pte
  pub same_npages : m'.npages ≡ m.npages
  pub others : (v : ℕ) → v ≢ vpn_of va → m'.pte v ≡ m.pte v
  -- A successful write leaves the page dirty in the page table.
  pub dirtied : ok ≡ true → write ≡ true → has dirty (m'.pte (vpn_of va)) ≡ true

unchanged : (m : Mmu) (va : ℕ) (write : Bool) → IsCoherent m → Effect m m va write false
unchanged m va write c = record {
  coherent = c;
  same = SameTable-refl m.pte;
  same_npages = refl;
  others = λ v n. refl;
  dirtied = λ e. cc;
}

abbrev pub succeeded : Translate → Bool
succeeded t = elim t.status [ translated ↦ true | _ ↦ false ]

touched-SamePage : (write : Bool) (x : ℕ) → SamePage x (touched write x)
unfolding touched
touched-SamePage write x = elim (Bool-cases (is_touched write x)) [
  | inl q ↦ rw q (SamePage-refl x)
  | inr q ↦ rw q (touch-SamePage write x)
]

pte-tlb_insert : (m : Mmu) (engine vpn pte : ℕ) → (tlb_insert m engine vpn pte).pte ≡ m.pte
unfolding tlb_insert store_entry tick
pte-tlb_insert m engine vpn pte = refl

npages-tlb_insert : (m : Mmu) (engine vpn pte : ℕ) → (tlb_insert m engine vpn pte).npages ≡ m.npages
unfolding tlb_insert store_entry tick
npages-tlb_insert m engine vpn pte = refl

filled :
    (m : Mmu) (engine va : ℕ) (write : Bool)
    → IsCoherent m
    → vpn_of va < m.npages
    → is_resident (m.pte (vpn_of va)) ≡ true
    → Effect m
        (tlb_insert
          (touch_page m (vpn_of va) write)
          engine
          (vpn_of va)
          (touched write (m.pte (vpn_of va))))
        va
        write
        true
filled m engine va write c h r =
    let t = touch_page-Touched m (vpn_of va) write in
    let e =
      pte-tlb_insert (touch_page m (vpn_of va) write) engine (vpn_of va)
        (touched write (m.pte (vpn_of va))) in
    record {
      coherent = walk_success m engine (vpn_of va) write c h r;
      same = rw e t.same;
      same_npages =
          npages-tlb_insert (touch_page m (vpn_of va) write) engine (vpn_of va)
            (touched write (m.pte (vpn_of va)))
          ∙ t.same_npages;
      others = rw e t.others;
      dirtied = λ _. rw e t.dirtied;
    }

walk-Effect :
    (m : Mmu) (engine va : ℕ) (write : Bool)
    → IsCoherent m
    → let (t, m') = walk m engine va write in Effect m m' va write (succeeded t)
unfolding walk
walk-Effect m engine va write c = elim (Bool-cases (leb m.npages (vpn_of va))) [
  | inl q ↦ rw q (unchanged m va write c)
  | inr q ↦ rw q (elim (Bool-cases (has present (m.pte (vpn_of va)))) [
    | inr p ↦ rw p (unchanged m va write c)
    | inl p ↦ rw p (elim (Bool-cases (has in_vram (m.pte (vpn_of va)))) [
      | inr r ↦ rw r (unchanged m va write c)
      | inl r ↦
          let s = touched-SamePage write (m.pte (vpn_of va)) in
          rw (r, s.same_present ∙ p, s.same_in_vram ∙ r)
            (filled m engine va write c (leb→gt m.npages (vpn_of va) q) (rw (p, r)))
    ])
  ])
]

-- A hit: the entry's clock, and on a first write DIRTY in the entry and in the page table.
mark_dirty-SameTable :
    (m : Mmu) (vpn : ℕ) (flag : Bool)
    → vpn < m.npages
    → SameTable m.pte (mark_dirty m vpn flag).pte
      × ((v : ℕ) → v ≢ vpn → (mark_dirty m vpn flag).pte v ≡ m.pte v)
      × (flag ≡ true → has dirty ((mark_dirty m vpn flag).pte vpn) ≡ true)
      × ((mark_dirty m vpn flag).tlb ≡ m.tlb)
      × ((mark_dirty m vpn flag).npages ≡ m.npages)
unfolding mark_dirty
mark_dirty-SameTable m vpn false h = (SameTable-refl m.pte, (λ v n. refl), (λ e. cc), refl, refl)
mark_dirty-SameTable m vpn true h =
    let x = with_flag dirty (m.pte vpn) in
    rw (lt→ltb vpn m.npages h) (
      unfold store_pte in
      (
        SameTable-update m.pte vpn x (with_dirty (m.pte vpn))
            (λ r d. has-dirty-with_dirty (m.pte vpn)),
        (λ v n. update_ne m.pte vpn v x n),
        (λ e. rw (update_self m.pte vpn x) (has-dirty-with_dirty (m.pte vpn))),
        refl,
        refl,
      ))

cached_word : (first : Bool) (x : ℕ) → SamePage x (if first then with_flag dirty x else x)
cached_word true x = with_dirty x
cached_word false x = SamePage-refl x

-- The entry that a hit leaves is fresh in the page table that it leaves.
taken-IsFresh :
    (m : Mmu) (first : Bool) (e : TlbEntry) (stamp : ℕ)
    → Matches m.pte m.npages e
    → IsFresh (mark_dirty m e.vpn first).pte m.npages (record {
      vpn = e.vpn;
      pte = if first then with_flag dirty e.pte else e.pte;
      last_used = stamp;
    })
taken-IsFresh m first e stamp f =
    let d = mark_dirty-SameTable m e.vpn first f.in_range in
    let w = cached_word first e.pte in
    let p = d.0.pages e.vpn in
    inr (record {
      in_range = f.in_range;
      resident = rw (p.same_present, p.same_in_vram) f.resident;
      cached_resident = rw (w.same_present, w.same_in_vram) f.cached_resident;
      frame = omega (arith, w.same_frame, p.same_frame, f.frame);
      dirty_bit = λ h. elim (Bool-cases first) [
        | inl q ↦ d.2 q
        | inr q ↦ d.0.keeps_dirty e.vpn f.resident (f.dirty_bit (rw q at h))
      ];
    })

take_entry-Effect :
    (m : Mmu) (engine va : ℕ) (write first : Bool) (i : ℕ) (e : TlbEntry)
    → IsCoherent m
    → Matches m.pte m.npages e
    → e.vpn ≡ vpn_of va
    → (write ≡ true → (first ≡ true) ⊎ (has dirty e.pte ≡ true))
    → Effect m (take_entry m engine va first i e).1 va write true
unfolding take_entry
take_entry-Effect m engine va write first i e c f q g =
    let h : vpn_of va < m.npages = rw (← q) f.in_range in
    let d = mark_dirty-SameTable m (vpn_of va) first h in
    let mid = mark_dirty m (vpn_of va) first in
    let x : TlbEntry = record {
      vpn = e.vpn;
      pte = if first then with_flag dirty e.pte else e.pte;
      last_used = m.clock engine;
    } in
    let fresh : IsFresh mid.pte mid.npages x =
      rw (d.4, ← q) (taken-IsFresh m first e (m.clock engine) f) in
    let t = store_entry-IsCoherent mid engine i x (flags-IsCoherent m mid d.0 d.3 d.4 c) fresh in
    record {
      coherent = unfold store_entry in record { entries = t.entries; small = t.small };
      same = d.0;
      same_npages = d.4;
      others = d.1;
      dirtied = λ _ w. elim (g w) [
        | inl z ↦ d.2 z
        | inr z ↦ d.0.keeps_dirty (vpn_of va) (rw (← q) f.resident) (rw (← q) (f.dirty_bit z))
      ];
    }

hit-Effect :
    (m : Mmu) (engine va : ℕ) (write : Bool) (i : ℕ) (e : TlbEntry)
    → IsCoherent m
    → Matches m.pte m.npages e
    → e.vpn ≡ vpn_of va
    → Effect m (hit m engine va write i e).1 va write true
unfolding hit
hit-Effect m engine va write i e c f q =
    take_entry-Effect m engine va write (write && not (has dirty e.pte)) i e c f q
      (λ w. ground arith)

miss-Effect :
    (m : Mmu) (engine va : ℕ) (write : Bool)
    → IsCoherent m
    → let (t, m') = miss m engine va write in Effect m m' va write (succeeded t)
unfolding miss
miss-Effect m engine va write c =
    let w =
      walk-Effect
        (record m { tlb_misses = update m.tlb_misses engine (add64 (m.tlb_misses engine) 1) })
        engine va write (record { entries = c.entries; small = c.small }) in
    record {
      coherent = w.coherent;
      same = w.same;
      same_npages = w.same_npages;
      others = w.others;
      dirtied = w.dirtied;
    }

through-Effect :
    (m : Mmu) (engine va : ℕ) (write : Bool) (o : Option (ℕ × TlbEntry))
    → IsCoherent m
    → engine < max_engines
    → va < u64_mod
    → probe (vpn_of va) (m.tlb engine) 0 ≡ o
    → let (t, m') = through m engine va write o in Effect m m' va write (succeeded t)
unfolding through
through-Effect m engine va write none c l h q = miss-Effect m engine va write c
through-Effect m engine va write (some (i, e)) c l h q =
    let r =
      probe-All (IsFresh m.pte m.npages) (vpn_of va) 0 i (m.tlb engine) e (c.entries engine l) q in
    let f = used_entry m e va h r.0 r.1 in
    rw f.cached_resident (hit-Effect m engine va write i e c f r.1)

-- A translation keeps the TLBs coherent, changes no word but the page's own and there only
-- flags, and a write that it lets through leaves the page dirty.
pub translate-Effect :
    (m : Mmu) (engine va : ℕ) (write : Bool)
    → IsCoherent m
    → engine < max_engines
    → va < u64_mod
    → let (t, m') = translate m engine va write in Effect m m' va write (succeeded t)
unfolding translate
translate-Effect m engine va write c l h = through-Effect m engine va write _ c l h refl
