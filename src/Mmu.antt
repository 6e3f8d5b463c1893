-- ===== src/Mmu.antt =====
-- src/device/mmu.h and src/device/mmu.cpp: the page table and the engines' TLBs. Each function is
-- one thread's run of the method with no other thread between its accesses. A page-table entry is
-- the 64-bit word with its flags in the low bits; the arrays `pte_`, `host_` are functions of the
-- page number.
pub mod Residency
pub mod Access
pub mod Flags
pub mod Coherence
pub mod Ranges
pub mod Translation
pub mod Fill
pub mod Effects
pub mod Shootdown
mod Tests
use softgpu.Base.{
  ℕ, zero, suc, ◌+◌, ◌-◌, ◌*◌, ◌/◌, ◌%◌, List, [], ◌∷◌, Option, none, some, Bool, true, false, not,
  ◌&&◌, ◌||◌, ltb, leb, ◌==◌, if◌then◌else◌, add64, mul64, u64_max, has, with_flag, without, update,
  set, map,
}
use softgpu.Errno.{Rc, ok, einval, eexist}

abbrev pub page_size : ℕ
page_size = 4096

abbrev pub max_engines : ℕ
max_engines = 4

abbrev pub tlb_entries : ℕ
tlb_entries = 64

-- PTE_PRESENT, PTE_IN_VRAM, PTE_DIRTY, PTE_ACCESSED
abbrev pub present : ℕ
present = 1

abbrev pub in_vram : ℕ
in_vram = 2

abbrev pub dirty : ℕ
dirty = 4

abbrev pub accessed : ℕ
accessed = 8

abbrev pub page_floor : ℕ → ℕ
page_floor a = a / page_size * page_size

abbrev pub page_offset : ℕ → ℕ
page_offset a = a % page_size

abbrev pub vpn_of : ℕ → ℕ
vpn_of va = va / page_size

abbrev pub pte_pa : ℕ → ℕ
pte_pa pte = pte / page_size * page_size

-- `pfn << PTE_FRAME_SHIFT`
abbrev pub frame_bits : ℕ → ℕ
frame_bits pfn = mul64 pfn page_size

-- `(pte & (PTE_PRESENT | PTE_IN_VRAM)) == (PTE_PRESENT | PTE_IN_VRAM)`
abbrev pub is_resident : ℕ → Bool
is_resident pte = has present pte && has in_vram pte

abbrev pub is_aligned : ℕ → Bool
is_aligned a = a % page_size == 0

pub data TranslateStatus : Type 0 where
  translated not_present host_resident : TranslateStatus

pub record Translate : Type 0 where
  pub status : TranslateStatus
  pub pa : ℕ

pub data PageKind : Type 0 where
  absent host vram : PageKind

pub record PageInfo : Type 0 where
  pub kind : PageKind
  pub host_page : ℕ
  pub pa : ℕ

pub record TlbEntry : Type 0 where
  pub vpn : ℕ
  pub pte : ℕ
  pub last_used : ℕ

-- The tag `~0ull` marks an empty entry.
abbrev pub no_vpn : ℕ
no_vpn = u64_max

pub record Mmu : Type 0 where
  pub pte : ℕ → ℕ
  pub host_of : ℕ → ℕ
  pub npages : ℕ
  pub vram_pages : ℕ
  pub tlb : ℕ → List TlbEntry
  pub clock : ℕ → ℕ
  pub tlb_gen : ℕ
  pub tlb_hits : ℕ → ℕ
  pub tlb_misses : ℕ → ℕ

pub empty_tlb : ℕ → List TlbEntry
empty_tlb zero = []
empty_tlb (suc n) = record { vpn = no_vpn; pte = 0; last_used = 0 } ∷ empty_tlb n

-- Mmu::Mmu
pub init : ℕ → ℕ → Mmu
unfolding empty_tlb
init va_bytes vram_bytes = record {
  pte = λ _. 0;
  host_of = λ _. 0;
  npages = va_bytes / page_size;
  vram_pages = vram_bytes / page_size;
  tlb = λ _. empty_tlb tlb_entries;
  clock = λ _. 1;
  tlb_gen = 0;
  tlb_hits = λ _. 0;
  tlb_misses = λ _. 0;
}

-- Drop the tag of every entry for `vpn` in one TLB.
pub clear_tag : ℕ → List TlbEntry → List TlbEntry
clear_tag vpn [] = []
clear_tag vpn (e ∷ es) = (if e.vpn == vpn then record e { vpn = no_vpn } else e) ∷ clear_tag vpn es

-- Mmu::tlb_invalidate_vpn: every TLB.
pub tlb_invalidate_vpn : Mmu → ℕ → Mmu
tlb_invalidate_vpn m vpn = record m {
  tlb = λ e. if ltb e max_engines then clear_tag vpn (m.tlb e) else m.tlb e;
}

unfoldable pub store_pte : Mmu → ℕ → ℕ → Mmu
store_pte m vpn pte = record m { pte = update m.pte vpn pte }

pub store_host : Mmu → ℕ → ℕ → Mmu
store_host m vpn page = record m { host_of = update m.host_of vpn page }

pub bump_gen : Mmu → Mmu
bump_gen m = record m { tlb_gen = add64 m.tlb_gen 1 }

-- The first loop of `map_vram` and `map_host`: is a page of the range present?
pub any_present : Mmu → ℕ → ℕ → Bool
any_present m vpn zero = false
any_present m vpn (suc n) = has present (m.pte vpn) || any_present m (vpn + 1) n

pub vram_pte : ℕ → ℕ
vram_pte pfn = with_flag present (with_flag in_vram (frame_bits pfn))

-- One round of the second loop of `map_vram`.
pub map_vram_page : Mmu → ℕ → ℕ → Mmu
unfolding vram_pte store_pte tlb_invalidate_vpn
map_vram_page m vpn pfn = tlb_invalidate_vpn (store_pte m vpn (vram_pte pfn)) vpn

pub map_vram_pages : Mmu → ℕ → ℕ → ℕ → Mmu
map_vram_pages m vpn pfn zero = m
map_vram_pages m vpn pfn (suc n) = map_vram_pages (map_vram_page m vpn pfn) (vpn + 1) (pfn + 1) n

-- `vpn0 >= npages_ || npages > npages_ - vpn0`
abbrev pub out_of : ℕ → ℕ → ℕ → Bool
out_of limit first n = leb limit first || ltb (limit - first) n

-- Mmu::map_vram
pub map_vram : Mmu → ℕ → ℕ → ℕ → Rc × Mmu
unfolding any_present map_vram_pages
map_vram m va pa n =
    if not (is_aligned va && is_aligned pa)
    then (einval, m)
    else if n == 0
    then (einval, m)
    else if out_of m.npages (vpn_of va) n
    then (einval, m)
    else if out_of m.vram_pages (vpn_of pa) n
    then (einval, m)
    else if any_present m (vpn_of va) n
    then (eexist, m)
    else (ok, map_vram_pages m (vpn_of va) (vpn_of pa) n)

-- One round of the second loop of `map_host`.
pub map_host_page : Mmu → ℕ → ℕ → Mmu
unfolding store_pte store_host tlb_invalidate_vpn
map_host_page m vpn page = tlb_invalidate_vpn (store_pte (store_host m vpn page) vpn present) vpn

pub map_host_pages : Mmu → ℕ → ℕ → ℕ → Mmu
map_host_pages m vpn page zero = m
map_host_pages m vpn page (suc n) =
    map_host_pages (map_host_page m vpn page) (vpn + 1) (add64 page page_size) n

-- Mmu::map_host
pub map_host : Mmu → ℕ → ℕ → ℕ → Rc × Mmu
unfolding any_present map_host_pages
map_host m va page n =
    if not (is_aligned va && is_aligned page)
    then (einval, m)
    else if n == 0
    then (einval, m)
    else if out_of m.npages (vpn_of va) n
    then (einval, m)
    else if any_present m (vpn_of va) n
    then (eexist, m)
    else (ok, map_host_pages m (vpn_of va) page n)
