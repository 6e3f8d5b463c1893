-- ===== src/Driver/Managed.antt =====
-- src/driver/driver.cpp: managed memory. Residency, the CLOCK eviction, migration and prefetch, as
-- they run under `mem_lock`. A page's bytes are a function of the offset; VRAM is a page for each
-- frame address, and the host's memory and userfaultfd are the interface `Host`.
-- `quiesce` waits for engines that are inside a command; here no other thread runs meanwhile.
pub mod Clock
pub mod Evict
mod Tests
use softgpu.Base.{
  ℕ, zero, suc, ◌+◌, ◌-◌, ◌*◌, ◌/◌, ◌%◌, min, List, [], ◌∷◌, ◌++◌, length, Option, none, some, Bool,
  true, false, not, ◌&&◌, ◌||◌, ltb, leb, ◌==◌, if◌then◌else◌, has, update, add64, sub64,
}
use softgpu.Errno.{Rc, ok, efault, enomem}
use softgpu.Device.Runlist.{is_ok}
use softgpu.OrderedMap.{before_upper}
use softgpu.Alloc.{VramAllocator}
use softgpu.Alloc as A
use softgpu.Mmu.{Mmu, PageKind, absent, host, vram, page_size, page_offset, pte_pa, in_vram, dirty}
use softgpu.Mmu.Residency.{make_resident, begin_evict, end_evict, test_and_clear_accessed, page}

-- The host pages: `uffd_copy` is uffd_copy_page, `drop` is madvise with MADV_DONTNEED.
pub record Host (H : Type 0) : Type 0 where
  pub read : ℕ → H → ℕ → ℕ
  pub write : ℕ → (ℕ → ℕ) → H → H
  pub uffd_copy : ℕ → (ℕ → ℕ) → H → Rc × H
  pub drop : ℕ → H → H

-- ManagedSpan
pub record ManagedSpan : Type 0 where
  pub end : ℕ
  pub host_base : ℕ

-- The members of Driver that `mem_lock` guards, with the device's MMU and VRAM. `resident_pos` is the
-- index of `resident` by page.
pub record Memory (H : Type 0) : Type 0 where
  pub mmu : Mmu
  pub vram_size : ℕ
  pub frames : ℕ → ℕ → ℕ
  pub host_mem : H
  pub uffd : Bool
  pub vram_alloc : VramAllocator
  pub resident : List ℕ
  pub managed_ranges : List (ℕ × ManagedSpan)
  pub prefetch_pages : ℕ
  pub migrations : ℕ
  pub prefetches : ℕ
  pub evictions : ℕ
  pub writebacks : ℕ
  pub bytes_migrated : ℕ

-- `page_offset(pa) || pa >= vram_size_ || !host`
abbrev pub bad_copy : {H : Type 0} → Memory H → ℕ → Bool → Bool
bad_copy d pa is_null = not (page_offset pa == 0) || leb d.vram_size pa || is_null

-- Erasing a page from the list by its position.
unfoldable pub without_page : List ℕ → ℕ → List ℕ
without_page [] va = []
without_page (p ∷ l) va = let rest = without_page l va in if p == va then l else p ∷ rest

-- forget_resident
abbrev pub forget_resident : {H : Type 0} → Memory H → ℕ → Memory H
forget_resident d va = record d { resident = without_page d.resident va }

-- CLOCK's loop: at most n pages get a second chance.
unfoldable pub give_chances : {H : Type 0} → ℕ → Memory H → List ℕ → Memory H
give_chances zero d l = record d { resident = l }
give_chances (suc n) d [] = record d { resident = [] }
give_chances (suc n) d (va ∷ l) =
    let (referenced, m) = test_and_clear_accessed d.mmu va in
    let rest = give_chances n (record d { mmu = m }) (l ++ va ∷ []) in
    if not referenced then record d { mmu = m; resident = va ∷ l } else rest

module _ {H : Type 0} (os : Host H) where
  -- publish_host
  unfoldable pub publish_host : Memory H → ℕ → ℕ → Bool → Rc × Memory H
  publish_host d to pa is_dirty =
      let (rc, h) = os.uffd_copy to (d.frames pa) d.host_mem in
      let written = record d { bytes_migrated = d.bytes_migrated + page_size } in
      let counted = record written { writebacks = d.writebacks + 1 } in
      if not d.uffd
      then (if not is_dirty
          then (ok, d)
          else if bad_copy d pa (to == 0)
          then (efault, d)
          else (ok, record counted { host_mem = os.write to (d.frames pa) d.host_mem }))
      else if bad_copy d pa false
      then (efault, d)
      else if not (is_ok rc)
      then (rc, record d { host_mem = h })
      else (ok, record (if is_dirty then counted else written) { host_mem = h })

  -- The end of evict_locked: what was published, and the state if it was not.
  unfoldable pub evicted : Memory H → ℕ → ℕ → Rc × Memory H → Option ℕ × Memory H
  evicted d va pa (rc, d') =
      let (_, m) = make_resident d'.mmu va pa in
      if is_ok rc
      then (some pa, forget_resident (record d' { evictions = d'.evictions + 1 }) va)
      else (none, record d' { mmu = m })

  -- evict_locked
  unfoldable pub evict_locked : Memory H → ℕ → Option ℕ × Memory H
  unfolding publish_host evicted
  evict_locked d va =
      let pg = page d.mmu va in
      let (old, m1) = begin_evict d.mmu va in
      let (late, m2) = end_evict m1 va in
      let pa = pte_pa old in
      let d2 = record d { mmu = m2 } in
      if not (has in_vram old) || (pg.host_page == 0)
      then (none, record d { mmu = m1 })
      else evicted d2 va pa (publish_host d2 pg.host_page pa (has dirty old || has dirty late))

  unfoldable pub evict_front : Memory H → List ℕ → Option ℕ × Memory H
  unfolding evict_locked
  evict_front d [] = (none, d)
  evict_front d (va ∷ l) = evict_locked d va

  -- evict_one_locked
  unfoldable pub evict_one_locked : Memory H → Option ℕ × Memory H
  unfolding evict_front give_chances
  evict_one_locked d =
      let d' = give_chances (length d.resident) d d.resident in evict_front d' d'.resident

  unfoldable pub freed : Memory H → ℕ → Memory H
  freed d pa = record d { vram_alloc = (A.free d.vram_alloc pa).1 }

  -- evict_all_locked, at most n rounds.
  unfoldable pub evict_all : ℕ → Memory H → Memory H
  unfolding evict_front freed
  evict_all zero d = d
  evict_all (suc n) d =
      let (o, d') = evict_front d d.resident in
      elim o [ none ↦ d' | some pa ↦ evict_all n (freed d' pa) ]

  -- The part of migrate_locked after a frame was found.
  unfoldable pub copy_to_frame : Memory H → ℕ → ℕ → ℕ → Rc × Bool × Memory H
  unfolding freed
  copy_to_frame d va from pa =
      let d1 = record d { frames = update d.frames pa (os.read from d.host_mem) } in
      let (rc, m) = make_resident d.mmu va pa in
      if bad_copy d pa (from == 0)
      then (efault, false, freed d pa)
      else if not (is_ok rc)
      then (rc, false, freed (record d1 { mmu = m }) pa)
      else (
        ok,
        true,
        record d1 {
          mmu = m;
          host_mem = if d.uffd then os.drop from d.host_mem else d.host_mem;
          resident = d.resident ++ va ∷ [];
          migrations = d.migrations + 1;
          bytes_migrated = d.bytes_migrated + page_size;
        },
      )

  unfoldable pub migrate_to : Memory H → ℕ → ℕ → Option ℕ → Rc × Bool × Memory H
  unfolding copy_to_frame
  migrate_to d va from none = (enomem, false, d)
  migrate_to d va from (some pa) = copy_to_frame d va from pa

  -- The frame of migrate_locked: a free one, or that of an evicted page.
  unfoldable pub take_frame : Memory H → Option ℕ × VramAllocator → Option ℕ × Memory H
  unfolding evict_one_locked
  take_frame d (none, v) = evict_one_locked (record d { vram_alloc = v })
  take_frame d (some pa, v) = (some pa, record d { vram_alloc = v })

  -- migrate_locked: the second component is `*moved`.
  unfoldable pub migrate_locked : Memory H → ℕ → Rc × Bool × Memory H
  unfolding migrate_to take_frame
  migrate_locked d va =
      let pg = page d.mmu va in
      let (frame, d') = take_frame d (A.alloc d.vram_alloc page_size) in
      elim pg.kind [
        | vram ↦ (ok, false, d)
        | absent ↦ (efault, false, d)
        | host ↦
            if pg.host_page == 0 then (efault, false, d) else migrate_to d' va pg.host_page frame
      ]

  -- The loop of prefetch_locked, with n of the budget left.
  unfoldable pub prefetch_from : ℕ → ℕ → Memory H → ℕ → ℕ × Memory H
  unfolding migrate_locked
  prefetch_from zero end d va = (va, d)
  prefetch_from (suc n) end d va =
      let (rc, moved, d') = migrate_locked d va in
      let d'' = if moved then record d' { prefetches = d'.prefetches + 1 } else d' in
      let rest = prefetch_from n end d'' (add64 va page_size) in
      if not (ltb va end) then (va, d) else if is_ok rc then rest else (va, d')

  -- `capacity / 2 > 0 ? capacity / 2 - 1 : 0`, and the minimum with `prefetch_pages`.
  abbrev pub prefetch_budget : Memory H → ℕ
  prefetch_budget d =
      let capacity = sub64 d.vram_size d.vram_alloc.live_bytes / page_size + length d.resident in
      min d.prefetch_pages (capacity / 2 - 1)

  unfoldable pub prefetch_span : Memory H → ℕ → Option (ℕ × ManagedSpan) → ℕ × Memory H
  unfolding prefetch_from
  prefetch_span d va none = (va, d)
  prefetch_span d va (some (start, span)) = prefetch_from (prefetch_budget d) span.end d va

  -- prefetch_locked
  unfoldable pub prefetch_locked : Memory H → ℕ → ℕ × Memory H
  unfolding prefetch_span
  prefetch_locked d va = prefetch_span d va (before_upper va d.managed_ranges)
