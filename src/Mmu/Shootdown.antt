-- ===== src/Mmu/Shootdown.antt =====
-- What every engine sees after a mapping change, and that no write is lost to an eviction.
use softgpu.Base.{
  ℕ, ◌+◌, ◌-◌, ◌*◌, ◌%◌, ◌<◌, ◌≤◌, ◌≡◌, refl, List, [], ◌∷◌, Bool, true, false, arith, All, has,
  without, update, update_self, u64_mod, false≢true, sym, ◌∙◌, ap,
}
use softgpu.Errno.{ok}
use softgpu.Mmu.{
  Mmu, Translate, translated, not_present, host_resident, present, in_vram, dirty, accessed, vpn_of,
  is_resident, page_size, page_floor, max_engines, store_pte, map_vram, vram_pte,
  tlb_invalidate_vpn, bump_gen,
}
use softgpu.Mmu.Flags.{
  frame_limit, vram_pte_lem, resident_pte_lem, without-dirty, without-accessed, SamePage-trans,
  has-dirty-without-accessed,
}
use softgpu.Mmu.Residency.{
  make_resident, begin_evict, end_evict, test_and_clear_accessed, change_pte, resident_pte, unmap,
}
use softgpu.Mmu.Access.{translate}
use softgpu.Mmu.Coherence.{
  IsCoherent, SameTable-update, SameTable-IsCoherent, change_pte-IsCoherent,
}
use softgpu.Mmu.Ranges.{
  in_run, npages-map_vram, map_vram-IsCoherent, unmap-IsCoherent, map_vram_ok, pte-unmap,
}
use softgpu.Mmu.Translation.{
  lookup, answer, lookup_in_range, answer_resident, lookup_zero, lookup_translated,
  translate-lookup,
}
use softgpu.Mmu.Effects.{translate-Effect, succeeded}

pub make_resident-IsCoherent :
    (m : Mmu) (va pa : ℕ) → IsCoherent m → IsCoherent (make_resident m va pa).1
unfolding make_resident
make_resident-IsCoherent m va pa c =
    let d = change_pte-IsCoherent m (vpn_of va) (resident_pte (vpn_of pa)) c in grind (arith, d)

pub begin_evict-IsCoherent : (m : Mmu) (va : ℕ) → IsCoherent m → IsCoherent (begin_evict m va).1
unfolding begin_evict
begin_evict-IsCoherent m va c =
    let d = change_pte-IsCoherent m (vpn_of va) present c in grind (arith, d)

pub test_and_clear_accessed-IsCoherent :
    (m : Mmu) (va : ℕ) → IsCoherent m → IsCoherent (test_and_clear_accessed m va).1
unfolding test_and_clear_accessed store_pte
test_and_clear_accessed-IsCoherent m va c =
    let x = without accessed (m.pte (vpn_of va)) in
    let d =
      SameTable-IsCoherent m (update m.pte (vpn_of va) x)
        (SameTable-update m.pte (vpn_of va) x (without-accessed (m.pte (vpn_of va)))
          (λ r h. has-dirty-without-accessed (m.pte (vpn_of va)) ∙ h))
        c in
    grind (arith, d)

-- `end_evict` runs between `begin_evict` and the next `make_resident`.
pub end_evict-IsCoherent :
    (m : Mmu) (va : ℕ)
    → is_resident (m.pte (vpn_of va)) ≡ false
    → IsCoherent m
    → IsCoherent (end_evict m va).1
unfolding end_evict store_pte
end_evict-IsCoherent m va z c =
    let w = m.pte (vpn_of va) in
    let x = without dirty (without accessed w) in
    let d =
      SameTable-IsCoherent m (update m.pte (vpn_of va) x)
        (SameTable-update m.pte (vpn_of va) x
          (SamePage-trans w (without accessed w) x (without-accessed w)
            (without-dirty (without accessed w)))
          (λ r h. absurd (false≢true (sym z ∙ r))))
        c in
    grind (arith, d)

pub pte-change_pte : (m : Mmu) (v x : ℕ) → (change_pte m v x).pte v ≡ x
unfolding change_pte tlb_invalidate_vpn bump_gen store_pte
pte-change_pte m v x = update_self m.pte v x

evicted :
    (m : Mmu) (va : ℕ)
    → vpn_of va < m.npages
    → is_resident (m.pte (vpn_of va)) ≡ true
    → begin_evict m va ≡ (m.pte (vpn_of va), change_pte m (vpn_of va) present)
unfolding begin_evict
evicted m va h r = ground arith

pub npages-change_pte : (m : Mmu) (v x : ℕ) → (change_pte m v x).npages ≡ m.npages
unfolding change_pte tlb_invalidate_vpn bump_gen store_pte
npages-change_pte m v x = refl

lookup-change_pte :
    (m : Mmu) (v addr x : ℕ)
    → v < m.npages
    → vpn_of addr ≡ v
    → lookup (change_pte m v x).pte (change_pte m v x).npages addr ≡ answer x
lookup-change_pte m v addr x h q =
    lookup_in_range (change_pte m v x).pte (change_pte m v x).npages addr
      (rw (npages-change_pte m v x, q) h)
    ∙ ap (λ w. answer ((change_pte m v x).pte w)) q
    ∙ ap answer (pte-change_pte m v x)

-- After `begin_evict` of a page in VRAM no engine reaches the frame through this address.
pub translate-begin_evict :
    (m : Mmu) (va engine : ℕ) (write : Bool)
    → IsCoherent m
    → engine < max_engines
    → va < u64_mod
    → vpn_of va < m.npages
    → is_resident (m.pte (vpn_of va)) ≡ true
    → let (old, m') = begin_evict m va in
      (old ≡ m.pte (vpn_of va))
      × ((translate m' engine va write).0 ≡ record { status = host_resident; pa = 0 })
translate-begin_evict m va engine write c l s h r =
    let d =
      translate-lookup (begin_evict m va).1 engine va write (begin_evict-IsCoherent m va c) l s in
    let e = evicted m va h r in
    (ap (λ p. p.0) e, d ∙ (rw e (lookup-change_pte m (vpn_of va) va present h refl)))

-- One access by an engine.
pub record Access : Type 0 where
  pub engine : ℕ
  pub va : ℕ
  pub write : Bool

abbrev pub IsAccess : Access → Type 0
IsAccess a = (a.engine < max_engines) × (a.va < u64_mod)

pub accesses : Mmu → List Access → Mmu
accesses m [] = m
accesses m (a ∷ rest) = accesses (translate m a.engine a.va a.write).1 rest

-- Accesses keep a page where it is, the TLBs coherent, and a dirty page dirty.
accesses_keep :
    (m : Mmu) (as' : List Access) (v : ℕ)
    → All IsAccess as'
    → IsCoherent m
    → is_resident (m.pte v) ≡ true
    → has dirty (m.pte v) ≡ true
    → IsCoherent (accesses m as')
      × (is_resident ((accesses m as').pte v) ≡ true)
      × (has dirty ((accesses m as').pte v) ≡ true)
      × ((accesses m as').npages ≡ m.npages)
unfolding accesses
accesses_keep m [] v i c r d = (c, r, d, refl)
accesses_keep m (a ∷ rest) v i c r d =
    let e = translate-Effect m a.engine a.va a.write c i.0.0 i.0.1 in
    let s = e.same.pages v in
    let k =
      accesses_keep (translate m a.engine a.va a.write).1 rest v i.1 e.coherent
        (rw (s.same_present, s.same_in_vram) r) (e.same.keeps_dirty v r d) in
    (k.0, k.1, k.2, k.3 ∙ e.same_npages)

-- Once an engine's write was translated, and after any further accesses by any engines, an
-- eviction finds the page dirty: `evict_locked` will write it back.
pub begin_evict-dirty :
    (m : Mmu) (va engine : ℕ) (rest : List Access)
    → IsCoherent m
    → engine < max_engines
    → va < u64_mod
    → All IsAccess rest
    → (translate m engine va true).0.status ≡ translated
    → has dirty (begin_evict (accesses (translate m engine va true).1 rest) va).0 ≡ true
begin_evict-dirty m va engine rest c l s i t =
    let m' = (translate m engine va true).1 in
    let k = translate-lookup m engine va true c l s in
    let r = lookup_translated m.pte m.npages va (ap (λ x. x.status) (sym k) ∙ t) in
    let e = translate-Effect m engine va true c l s in
    let p = e.same.pages (vpn_of va) in
    let done : succeeded (translate m engine va true).0 ≡ true = rw (t, succeeded) in
    let a =
      accesses_keep m' rest (vpn_of va) i e.coherent (rw (p.same_present, p.same_in_vram) r.1)
        (e.dirtied done refl) in
    rw (evicted (accesses m' rest) va (rw (a.3, e.same_npages) r.0) a.1) a.2

abbrev frame_of : ℕ → Translate
frame_of p = record { status = translated; pa = p }

made_resident :
    (m : Mmu) (va pa : ℕ)
    → has in_vram (m.pte (vpn_of va)) ≡ false
    → (make_resident m va pa).0 ≡ ok
    → ((make_resident m va pa).1 ≡ change_pte m (vpn_of va) (resident_pte (vpn_of pa)))
      × (pa % page_size ≡ 0)
      × (vpn_of va < m.npages)
      × (vpn_of pa < m.vram_pages)
unfolding make_resident
made_resident m va pa h z = (grind arith, grind arith, grind arith, grind arith)

-- After `make_resident` of a host page every engine translates its addresses to the frame.
pub translate-make_resident :
    (m : Mmu) (va pa addr engine : ℕ) (write : Bool)
    → IsCoherent m
    → engine < max_engines
    → addr < u64_mod
    → vpn_of addr ≡ vpn_of va
    → m.vram_pages ≤ frame_limit
    → has in_vram (m.pte (vpn_of va)) ≡ false
    → (make_resident m va pa).0 ≡ ok
    → (translate (make_resident m va pa).1 engine addr write).0
      ≡ record { status = translated; pa = pa }
translate-make_resident m va pa addr engine write c l s q f h z =
    let o = made_resident m va pa h z in
    let p = resident_pte_lem (vpn_of pa) (omega (arith, o)) in
    let e : vpn_of pa * page_size ≡ pa = omega (arith, o) in
    let d = make_resident-IsCoherent m va pa c in
    translate-lookup (make_resident m va pa).1 engine addr write d l s
    ∙ (rw (o.0) (lookup-change_pte m (vpn_of va) addr (resident_pte (vpn_of pa)) o.2 q))
    ∙ answer_resident (resident_pte (vpn_of pa)) p.0
    ∙ ap frame_of (p.3 ∙ e)

-- After `unmap` no engine translates an address of the range.
pub translate-unmap :
    (m : Mmu) (va n addr engine : ℕ) (write : Bool)
    → IsCoherent m
    → engine < max_engines
    → addr < u64_mod
    → vpn_of va ≤ vpn_of addr
    → vpn_of addr < vpn_of va + n
    → (unmap m va n).0 ≡ ok
    → (translate (unmap m va n).1 engine addr write).0 ≡ record { status = not_present; pa = 0 }
translate-unmap m va n addr engine write c l s h k z =
    let u = unmap-IsCoherent m va n c in
    let run : in_run (vpn_of va) n (vpn_of addr) ≡ true = ground arith in
    let word : (unmap m va n).1.pte (vpn_of addr) ≡ 0 =
      pte-unmap m va n (vpn_of addr) z ∙ (rw run) in
    translate-lookup (unmap m va n).1 engine addr write u l s
    ∙ lookup_zero (unmap m va n).1.pte (unmap m va n).1.npages addr word

-- After `map_vram` every engine translates each address of the range to its frame.
pub translate-map_vram :
    (m : Mmu) (va pa n i engine : ℕ) (write : Bool)
    → IsCoherent m
    → engine < max_engines
    → m.vram_pages ≤ frame_limit
    → i < n * page_size
    → va + i < u64_mod
    → (map_vram m va pa n).0 ≡ ok
    → (translate (map_vram m va pa n).1 engine (va + i) write).0
      ≡ record { status = translated; pa = page_floor (pa + i) }
translate-map_vram m va pa n i engine write c l f h s z =
    let u = map_vram-IsCoherent m va pa n c in
    let v = vpn_of (va + i) in
    let o = map_vram_ok m va pa n v z in
    let p = vpn_of pa + (v - vpn_of va) in
    let run : in_run (vpn_of va) n v ≡ true = ground (arith, o) in
    let b : p < frame_limit = omega (arith, o) in
    let w = vram_pte_lem p b in
    let word : (map_vram m va pa n).1.pte v ≡ vram_pte p = o.5 ∙ (rw run) in
    let e : p * page_size ≡ page_floor (pa + i) = omega (arith, o) in
    translate-lookup (map_vram m va pa n).1 engine (va + i) write u l s
    ∙ lookup_in_range (map_vram m va pa n).1.pte (map_vram m va pa n).1.npages (va + i)
        (rw (npages-map_vram m va pa n) (omega (arith, o)))
    ∙ ap answer word
    ∙ answer_resident (vram_pte p) w.0
    ∙ ap frame_of (w.2 ∙ e)
