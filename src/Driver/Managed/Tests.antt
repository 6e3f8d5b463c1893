-- ===== src/Driver/Managed/Tests.antt =====
-- Two managed pages in VRAM: page 9 is clean and referenced, page 8 is dirty and not referenced.
use softgpu.Base.{ℕ, ◌*◌, ◌≡◌, refl, [], ◌∷◌, false, ◌==◌, if◌then◌else◌, update, arith, All}
use softgpu.Errno.{ok}
use softgpu.Alloc as A
use softgpu.Mmu.{Mmu}
use softgpu.Mmu.Residency.{test_and_clear_accessed}
use softgpu.Driver.Managed.{Host, Memory, evict_one_locked, evict_front}
use softgpu.Driver.Managed.Clock.{
  Distinct, Differ, referenced, turned, asked, cleared, evict_one_locked_lem,
}

abbrev Pages : Type 0
Pages = ℕ → ℕ → ℕ

abbrev plain : Host Pages
plain = record {
  read = λ to h. h to;
  write = λ to b h. update h to b;
  uffd_copy = λ to b h. (ok, update h to b);
  drop = λ to h. h;
}

abbrev table : Mmu
table = record {
  pte = λ vpn. if vpn == 8 then 7 else if vpn == 9 then 4107 else 0;
  host_of = λ vpn. vpn * 65536;
  npages = 16;
  vram_pages = 4;
  tlb = λ e. [];
  clock = λ e. 1;
  tlb_gen = 0;
  tlb_hits = λ e. 0;
  tlb_misses = λ e. 0;
}

abbrev two_pages : Memory Pages
two_pages = record {
  mmu = table;
  vram_size = 16384;
  frames = λ pa i. pa;
  host_mem = λ p i. 1;
  uffd = false;
  vram_alloc = A.init 0 16384 4096;
  resident = 36864 ∷ 32768 ∷ [];
  managed_ranges = [];
  prefetch_pages = 16;
  migrations = 2;
  prefetches = 0;
  evictions = 0;
  writebacks = 0;
  bytes_migrated = 8192;
}

two_pages-Distinct : Distinct two_pages.resident
unfolding Distinct
two_pages-Distinct = ((omega arith, tt), (tt, tt))

evict_one_locked_lem_example :
    let m = cleared two_pages.mmu (asked two_pages.mmu two_pages.resident) in
    let turn = turned two_pages.mmu [] two_pages.resident in
    (evict_one_locked plain two_pages
      ≡ evict_front plain (record two_pages { mmu = m; resident = turn }) turn)
    × All (λ x. referenced m x ≡ false) (asked two_pages.mmu two_pages.resident)
    × ((x : ℕ)
        → Differ x (asked two_pages.mmu two_pages.resident)
        → referenced m x ≡ referenced two_pages.mmu x)
evict_one_locked_lem_example = evict_one_locked_lem plain two_pages two_pages-Distinct

-- The referenced page goes behind the other.
hand : turned two_pages.mmu [] two_pages.resident ≡ 32768 ∷ 36864 ∷ []
unfolding turned test_and_clear_accessed
hand = refl
