-- ===== src/Mmu/Ranges.antt =====
-- The page table after each range operation, and that the range operations keep the TLBs coherent.
use softgpu.Base.{
  ℕ, zero, suc, ◌+◌, ◌-◌, ◌<◌, ◌≤◌, ◌≡◌, refl, ◌≢◌, ◌⊎◌, inl, inr, List, [], ◌∷◌, Bool, ◌&&◌, ltb,
  leb, ◌==◌, if◌then◌else◌, arith, All, All-mono, update, eq_or_ne, lt_or_ge, eq→==, ne→==, lt→ltb,
  Bool-cases, ◌∙◌, ap, ◌%◌,
}
use softgpu.Errno.{ok}
use softgpu.Mmu.{
  Mmu, TlbEntry, vpn_of, max_engines, clear_tag, page_size, tlb_invalidate_vpn, store_pte,
  store_host, bump_gen, map_vram_pages, map_vram_page, vram_pte, map_vram, map_host,
}
use softgpu.Mmu.Flags.{frame_limit}
use softgpu.Mmu.Residency.{clear_pages, invalidate_pages, unmap}
use softgpu.Mmu.Coherence.{
  IsFresh, IsCoherent, map_vram_pages-IsCoherent, map_host_pages-IsCoherent,
}

-- `v` is one of the `n` pages from `first` on.
abbrev pub in_run : ℕ → ℕ → ℕ → Bool
in_run first n v = leb first v && ltb v (first + n)

-- While `unmap` is under way an entry may also be stale, but only for a page of its range.
abbrev IsStale : (ℕ → ℕ) → ℕ → ℕ → ℕ → TlbEntry → Type 0
IsStale pte npages v n e = IsFresh pte npages e ⊎ ((v ≤ e.vpn) × (e.vpn < v + n))

clear_tag-IsStale :
    (pte : ℕ → ℕ) (npages v n : ℕ) (es : List TlbEntry)
    → All (IsStale pte npages v (suc n)) es
    → All (IsStale pte npages (v + 1) n) (clear_tag v es)
unfolding clear_tag
clear_tag-IsStale pte npages v n [] h = tt
clear_tag-IsStale pte npages v n (e ∷ es) h = (
  elim (eq_or_ne e.vpn v) [
    | inl q ↦ rw (eq→== e.vpn v q) (inl (inl refl))
    | inr q ↦ rw (ne→== e.vpn v q) (kept q h.0)
  ],
  clear_tag-IsStale pte npages v n es h.1,
)
  where
    kept : e.vpn ≢ v → IsStale pte npages v (suc n) e → IsStale pte npages (v + 1) n e
    kept q (inl f) = inl f
    kept q (inr r) = inr (omega arith, omega arith)

IsStale-done :
    (pte : ℕ → ℕ) (npages v : ℕ) (e : TlbEntry) → IsStale pte npages v 0 e → IsFresh pte npages e
IsStale-done pte npages v e (inl f) = f
IsStale-done pte npages v e (inr r) = absurd (omega arith)

invalidate_pages-IsCoherent :
    (m : Mmu) (v n : ℕ)
    → ((e : ℕ) → e < max_engines → All (IsStale m.pte m.npages v n) (m.tlb e))
    → m.npages ≤ frame_limit
    → IsCoherent (invalidate_pages m v n)
unfolding invalidate_pages
invalidate_pages-IsCoherent m v zero h s = record {
  entries = λ e l.
      All-mono (IsStale m.pte m.npages v 0) (IsFresh m.pte m.npages)
        (λ t. IsStale-done m.pte m.npages v t) (m.tlb e) (h e l);
  small = s;
}
invalidate_pages-IsCoherent m v (suc n) h s =
    invalidate_pages-IsCoherent (tlb_invalidate_vpn m v) (v + 1) n
      (unfold tlb_invalidate_vpn in
        λ e l. rw (lt→ltb e max_engines l) (clear_tag-IsStale m.pte m.npages v n (m.tlb e) (h e l)))
      (unfold tlb_invalidate_vpn in s)

pte-invalidate_pages : (m : Mmu) (v n : ℕ) → (invalidate_pages m v n).pte ≡ m.pte
unfolding invalidate_pages
pte-invalidate_pages m v zero = refl
pte-invalidate_pages m v (suc n) =
    pte-invalidate_pages (tlb_invalidate_vpn m v) (v + 1) n ∙ (unfold tlb_invalidate_vpn in refl)

npages-invalidate_pages : (m : Mmu) (v n : ℕ) → (invalidate_pages m v n).npages ≡ m.npages
unfolding invalidate_pages
npages-invalidate_pages m v zero = refl
npages-invalidate_pages m v (suc n) =
    npages-invalidate_pages (tlb_invalidate_vpn m v) (v + 1) n ∙ (unfold tlb_invalidate_vpn in refl)

pte-clear_pages :
    (m : Mmu) (v n w : ℕ) → (clear_pages m v n).pte w ≡ (if in_run v n w then 0 else m.pte w)
unfolding clear_pages
pte-clear_pages m v zero w = ground arith
pte-clear_pages m v (suc n) w =
    pte-clear_pages (store_host (store_pte m v 0) v 0) (v + 1) n w
    ∙ (unfold store_host store_pte update in ground arith)

tlb-clear_pages :
    (m : Mmu) (v n : ℕ)
    → ((clear_pages m v n).tlb ≡ m.tlb) × ((clear_pages m v n).npages ≡ m.npages)
unfolding clear_pages
tlb-clear_pages m v zero = (refl, refl)
tlb-clear_pages m v (suc n) =
    let r = tlb-clear_pages (store_host (store_pte m v 0) v 0) (v + 1) n in
    unfold store_host store_pte in (r.0, r.1)

-- `unmap` leaves no page of its range present, and no other page changed.
pub pte-unmap :
    (m : Mmu) (va n w : ℕ)
    → (unmap m va n).0 ≡ ok
    → (unmap m va n).1.pte w ≡ (if in_run (vpn_of va) n w then 0 else m.pte w)
unfolding unmap bump_gen
pte-unmap m va n w e =
    let v = vpn_of va in
    let d =
      ap (λ f. f w) (pte-invalidate_pages (bump_gen (clear_pages m v n)) v n)
      ∙ pte-clear_pages m v n w in
    grind (arith, d)

-- The first page of a run, and the rest.
run_split :
    (f : ℕ → ℕ) (y v p n w : ℕ)
    → (if in_run (v + 1) n w then f (p + 1 + (w - (v + 1))) else if w == v then f p else y)
      ≡ (if in_run v (suc n) w then f (p + (w - v)) else y)
run_split f y v p n w = elim (lt_or_ge v w) [
  | inl q ↦ let e : p + 1 + (w - (v + 1)) ≡ p + (w - v) = omega arith in rw e (ground arith)
  | inr q ↦ elim (eq_or_ne w v) [
    | inl r ↦ let e : p + (w - v) ≡ p = omega arith in rw e (ground arith)
    | inr r ↦ ground arith
  ]
]

pte-map_vram_pages :
    (m : Mmu) (v p n w : ℕ)
    → (map_vram_pages m v p n).pte w ≡ (if in_run v n w then vram_pte (p + (w - v)) else m.pte w)
unfolding map_vram_pages
pte-map_vram_pages m v p zero w = ground arith
pte-map_vram_pages m v p (suc n) w =
    let d = pte-map_vram_pages (map_vram_page m v p) (v + 1) (p + 1) n w in
    d
    ∙ (unfold map_vram_page tlb_invalidate_vpn store_pte update in
        run_split vram_pte (m.pte w) v p n w)

IsStale-cleared :
    (m : Mmu) (v n : ℕ) (e : TlbEntry)
    → IsFresh m.pte m.npages e
    → IsStale (clear_pages m v n).pte m.npages v n e
IsStale-cleared m v n e (inl f) = inl (inl f)
IsStale-cleared m v n e (inr f) = elim (Bool-cases (in_run v n e.vpn)) [
  | inl q ↦ inr (ground arith, ground arith)
  | inr q ↦
      let same : (clear_pages m v n).pte e.vpn ≡ m.pte e.vpn =
        rw (pte-clear_pages m v n e.vpn, q) in
      inl (
        inr (record {
          in_range = f.in_range;
          resident = rw same f.resident;
          cached_resident = f.cached_resident;
          frame = rw same f.frame;
          dirty_bit = rw same f.dirty_bit;
        }))
]

unmapped-IsCoherent :
    (m : Mmu) (v n : ℕ)
    → IsCoherent m
    → IsCoherent (invalidate_pages (bump_gen (clear_pages m v n)) v n)
unfolding bump_gen
unmapped-IsCoherent m v n c =
    let (t, p) = tlb-clear_pages m v n in
    invalidate_pages-IsCoherent (bump_gen (clear_pages m v n)) v n
      (λ e l.
        rw (t, p)
          (All-mono (IsFresh m.pte m.npages) (IsStale (clear_pages m v n).pte m.npages v n)
            (λ x. IsStale-cleared m v n x) (m.tlb e) (c.entries e l)))
      (rw p c.small)

-- Each range operation keeps the TLBs coherent, whatever it returns.
pub map_vram-IsCoherent : (m : Mmu) (va pa n : ℕ) → IsCoherent m → IsCoherent (map_vram m va pa n).1
unfolding map_vram
map_vram-IsCoherent m va pa n c =
    let d = map_vram_pages-IsCoherent m (vpn_of va) (vpn_of pa) n c in grind (arith, d)

pub map_host-IsCoherent :
    (m : Mmu) (va page n : ℕ) → IsCoherent m → IsCoherent (map_host m va page n).1
unfolding map_host
map_host-IsCoherent m va page n c =
    let d = map_host_pages-IsCoherent m (vpn_of va) page n c in grind (arith, d)

pub unmap-IsCoherent : (m : Mmu) (va n : ℕ) → IsCoherent m → IsCoherent (unmap m va n).1
unfolding unmap
unmap-IsCoherent m va n c = let d = unmapped-IsCoherent m (vpn_of va) n c in grind (arith, d)

-- When `map_vram` succeeds: the arguments were pages in range and no page was mapped.
pub map_vram_ok :
    (m : Mmu) (va pa n w : ℕ)
    → (map_vram m va pa n).0 ≡ ok
    → (va % page_size ≡ 0)
      × (pa % page_size ≡ 0)
      × (0 < n)
      × (vpn_of va + n ≤ m.npages)
      × (vpn_of pa + n ≤ m.vram_pages)
      × ((map_vram m va pa n).1.pte w
          ≡ (if in_run (vpn_of va) n w then vram_pte (vpn_of pa + (w - vpn_of va)) else m.pte w))
unfolding map_vram
map_vram_ok m va pa n w e =
    let d = pte-map_vram_pages m (vpn_of va) (vpn_of pa) n w in
    (grind arith, grind arith, grind arith, grind arith, grind arith, grind (arith, d))

npages-map_vram_pages : (m : Mmu) (v p n : ℕ) → (map_vram_pages m v p n).npages ≡ m.npages
unfolding map_vram_pages
npages-map_vram_pages m v p zero = refl
npages-map_vram_pages m v p (suc n) =
    npages-map_vram_pages (map_vram_page m v p) (v + 1) (p + 1) n
    ∙ (unfold map_vram_page tlb_invalidate_vpn store_pte in refl)

pub npages-map_vram : (m : Mmu) (va pa n : ℕ) → (map_vram m va pa n).1.npages ≡ m.npages
unfolding map_vram
npages-map_vram m va pa n =
    let d = npages-map_vram_pages m (vpn_of va) (vpn_of pa) n in grind (arith, d)
