-- ===== src/Mmu/Fill.antt =====
-- The walk's two changes: flags of the page's word, and a fresh TLB entry.
use softgpu.Base.{
  ℕ, ◌/◌, ◌<◌, ◌≡◌, refl, ◌≢◌, inl, inr, Bool, true, false, arith, has, All-mono, All-set,
  update_self, update_ne, set, eq_or_ne, eq→==, Bool-cases, sym, ap,
}
use softgpu.Mmu.{Mmu, TlbEntry, dirty, is_resident, page_size, store_pte}
use softgpu.Mmu.Flags.{SamePage, touch-SamePage}
use softgpu.Mmu.Access.{
  touch, tlb_insert, store_entry, published_vpn, tick, is_touched, touch_page, touched,
}
use softgpu.Mmu.Coherence.{IsFresh, IsCoherent, SameTable, SameTable-update, SameTable-IsFresh}

pub SamePage-refl : (x : ℕ) → SamePage x x
SamePage-refl x = record { same_present = refl; same_in_vram = refl; same_frame = refl }

pub SameTable-refl : (pte : ℕ → ℕ) → SameTable pte pte
SameTable-refl pte = record { pages = λ v. SamePage-refl (pte v); keeps_dirty = λ v r d. d }

touch-dirty :
    (write : Bool) (x : ℕ)
    → (has dirty x ≡ true → has dirty (touch write x) ≡ true)
      × (write ≡ true → has dirty (touch write x) ≡ true)
unfolding touch
touch-dirty true x = ((λ d. ground arith), λ e. ground arith)
touch-dirty false x = ((λ d. ground arith), λ e. cc)

-- `touch_page` sets flags of one page and nothing else.
pub record Touched (m m' : Mmu) (vpn : ℕ) (write : Bool) : Type 0 where
  pub same : SameTable m.pte m'.pte
  pub word : m'.pte vpn ≡ touched write (m.pte vpn)
  pub others : (v : ℕ) → v ≢ vpn → m'.pte v ≡ m.pte v
  pub same_tlb : m'.tlb ≡ m.tlb
  pub same_npages : m'.npages ≡ m.npages
  pub dirtied : write ≡ true → has dirty (m'.pte vpn) ≡ true

pub touch_page-Touched :
    (m : Mmu) (vpn : ℕ) (write : Bool) → Touched m (touch_page m vpn write) vpn write
unfolding touch_page touched
touch_page-Touched m vpn write = elim (Bool-cases (is_touched write (m.pte vpn))) [
  | inl q ↦ rw q (record {
    same = SameTable-refl m.pte;
    word = rw q;
    others = λ v n. refl;
    same_tlb = refl;
    same_npages = refl;
    dirtied = λ e. ground arith;
  })
  | inr q ↦
      let t = touch-dirty write (m.pte vpn) in
      rw q (
        unfold store_pte in
        record {
          same =
              SameTable-update m.pte vpn (touch write (m.pte vpn))
                (touch-SamePage write (m.pte vpn)) (λ r d. t.0 d);
          word = rw (q, update_self m.pte vpn (touch write (m.pte vpn)));
          others = λ v n. update_ne m.pte vpn v (touch write (m.pte vpn)) n;
          same_tlb = refl;
          same_npages = refl;
          dirtied = λ e. rw (update_self m.pte vpn (touch write (m.pte vpn))) (t.1 e);
        })
]

-- Flags change and the TLBs do not.
pub flags-IsCoherent :
    (m m' : Mmu)
    → SameTable m.pte m'.pte
    → m'.tlb ≡ m.tlb
    → m'.npages ≡ m.npages
    → IsCoherent m
    → IsCoherent m'
flags-IsCoherent m m' s t n c = record {
  entries = λ e l.
      rw (t, n)
        (All-mono (IsFresh m.pte m.npages) (IsFresh m'.pte m.npages)
          (λ x. SameTable-IsFresh m.pte m'.pte m.npages x s) (m.tlb e) (c.entries e l));
  small = rw n c.small;
}

-- Filling one entry with a fresh one keeps the TLBs coherent.
pub store_entry-IsCoherent :
    (m : Mmu) (engine i : ℕ) (t : TlbEntry)
    → IsCoherent m
    → IsFresh m.pte m.npages t
    → IsCoherent (store_entry m engine i t)
unfolding store_entry
store_entry-IsCoherent m engine i t c f = record {
  entries = λ e l. elim (eq_or_ne e engine) [
    | inl q ↦
        rw (q, update_self m.tlb engine (set (m.tlb engine) i t))
          (All-set (IsFresh m.pte m.npages) (m.tlb engine) i t (c.entries engine (rw q at l)) f)
    | inr q ↦ rw (update_ne m.tlb engine e (set (m.tlb engine) i t) q) (c.entries e l)
  ];
  small = c.small;
}

tick-IsCoherent : (m : Mmu) (engine : ℕ) → IsCoherent m → IsCoherent (tick m engine)
unfolding tick
tick-IsCoherent m engine c = record { entries = c.entries; small = c.small }

tlb_insert-IsCoherent :
    (m : Mmu) (engine vpn pte : ℕ)
    → IsCoherent m
    → vpn < m.npages
    → is_resident (m.pte vpn) ≡ true
    → pte ≡ m.pte vpn
    → IsCoherent (tlb_insert m engine vpn pte)
unfolding tlb_insert published_vpn
tlb_insert-IsCoherent m engine vpn pte c h r e = tick-IsCoherent (store_entry m engine _ _) engine (
    store_entry-IsCoherent m engine _ _ c (
      rw (r, eq→== m.tlb_gen m.tlb_gen refl)
        (inr (record {
          in_range = h;
          resident = r;
          cached_resident = rw e r;
          frame = ap (λ x. x / page_size) e;
          dirty_bit = λ d. rw (← e) d;
        }))))

-- The walk: flags of one page, then a fresh entry.
pub walk_success :
    (m : Mmu) (engine vpn : ℕ) (write : Bool)
    → IsCoherent m
    → vpn < m.npages
    → is_resident (m.pte vpn) ≡ true
    → IsCoherent (tlb_insert (touch_page m vpn write) engine vpn (touched write (m.pte vpn)))
walk_success m engine vpn write c h r =
    let t = touch_page-Touched m vpn write in
    tlb_insert-IsCoherent (touch_page m vpn write) engine vpn (touched write (m.pte vpn))
      (flags-IsCoherent m (touch_page m vpn write) t.same t.same_tlb t.same_npages c)
      (rw t.same_npages h) (rw ((t.same.pages vpn).same_present, (t.same.pages vpn).same_in_vram) r)
      (sym t.word)
