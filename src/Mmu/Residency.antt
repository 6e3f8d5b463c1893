-- ===== src/Mmu/Residency.antt =====
-- src/device/mmu.cpp: migration into a frame and out of it, the reference bit, and unmapping.
use softgpu.Base.{
  ℕ, zero, suc, ◌+◌, ◌*◌, ◌/◌, ◌%◌, Bool, false, not, ◌&&◌, ◌||◌, leb, ◌==◌, if◌then◌else◌, has,
  with_flag, without,
}
use softgpu.Errno.{Rc, ok, einval}
use softgpu.Mmu.{
  Mmu, PageInfo, absent, host, vram, present, in_vram, dirty, accessed, vpn_of, pte_pa, frame_bits,
  is_resident, is_aligned, out_of, store_pte, store_host, bump_gen, tlb_invalidate_vpn,
}

-- What `make_resident` publishes: present, in VRAM, referenced and clean.
unfoldable pub resident_pte : ℕ → ℕ
resident_pte pfn = with_flag present (with_flag in_vram (with_flag accessed (frame_bits pfn)))

-- A mapping change: the entry, then the generation, then the shootdown.
unfoldable pub change_pte : Mmu → ℕ → ℕ → Mmu
unfolding store_pte bump_gen tlb_invalidate_vpn
change_pte m vpn pte = tlb_invalidate_vpn (bump_gen (store_pte m vpn pte)) vpn

-- Mmu::make_resident
unfoldable pub make_resident : Mmu → ℕ → ℕ → Rc × Mmu
unfolding change_pte resident_pte
make_resident m va pa =
    if not (is_aligned va && is_aligned pa)
    then (einval, m)
    else if leb m.npages (vpn_of va) || leb m.vram_pages (vpn_of pa)
    then (einval, m)
    else if not (has present (m.pte (vpn_of va)))
    then (einval, m)
    else if has in_vram (m.pte (vpn_of va))
    then (ok, m)
    else (ok, change_pte m (vpn_of va) (resident_pte (vpn_of pa)))

-- Mmu::begin_evict: the old entry, 0 when the page was not in VRAM.
unfoldable pub begin_evict : Mmu → ℕ → ℕ × Mmu
unfolding change_pte
begin_evict m va =
    if leb m.npages (vpn_of va)
    then (0, m)
    else if not (is_resident (m.pte (vpn_of va)))
    then (0, m)
    else (m.pte (vpn_of va), change_pte m (vpn_of va) present)

-- `pte & (PTE_DIRTY | PTE_ACCESSED)`
abbrev pub late_bits : ℕ → ℕ
late_bits pte = pte / 4 % 4 * 4

-- Mmu::end_evict
unfoldable pub end_evict : Mmu → ℕ → ℕ × Mmu
unfolding store_pte
end_evict m va = if leb m.npages (vpn_of va) then (0, m) else (
  late_bits (m.pte (vpn_of va)),
  store_pte m (vpn_of va) (without dirty (without accessed (m.pte (vpn_of va)))),
)

-- Mmu::test_and_clear_accessed
unfoldable pub test_and_clear_accessed : Mmu → ℕ → Bool × Mmu
unfolding store_pte
test_and_clear_accessed m va = if leb m.npages (vpn_of va) then (false, m) else (
  has accessed (m.pte (vpn_of va)),
  store_pte m (vpn_of va) (without accessed (m.pte (vpn_of va))),
)

-- Mmu::page
unfoldable pub page : Mmu → ℕ → PageInfo
page m va =
    if leb m.npages (vpn_of va)
    then record { kind = absent; host_page = 0; pa = 0 }
    else if not (has present (m.pte (vpn_of va)))
    then record { kind = absent; host_page = 0; pa = 0 }
    else if has in_vram (m.pte (vpn_of va))
    then record { kind = vram; host_page = m.host_of (vpn_of va); pa = pte_pa (m.pte (vpn_of va)) }
    else record { kind = host; host_page = m.host_of (vpn_of va); pa = 0 }

unfoldable pub clear_pages : Mmu → ℕ → ℕ → Mmu
unfolding store_pte store_host
clear_pages m vpn zero = m
clear_pages m vpn (suc n) = clear_pages (store_host (store_pte m vpn 0) vpn 0) (vpn + 1) n

unfoldable pub invalidate_pages : Mmu → ℕ → ℕ → Mmu
unfolding tlb_invalidate_vpn
invalidate_pages m vpn zero = m
invalidate_pages m vpn (suc n) = invalidate_pages (tlb_invalidate_vpn m vpn) (vpn + 1) n

-- Mmu::unmap
unfoldable pub unmap : Mmu → ℕ → ℕ → Rc × Mmu
unfolding clear_pages invalidate_pages bump_gen
unmap m va n =
    if not (is_aligned va)
    then (einval, m)
    else if n == 0
    then (ok, m)
    else if out_of m.npages (vpn_of va) n
    then (einval, m)
    else (ok, invalidate_pages (bump_gen (clear_pages m (vpn_of va) n)) (vpn_of va) n)
