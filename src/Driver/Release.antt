-- ===== src/Driver/Release.antt =====
-- src/driver/driver.cpp: allocations and their deferred release, as they run under `alloc_lock`:
-- SG_IOC_ALLOC, SG_IOC_FREE, the queue of SG_IOC_UNPIN, `reclaim_locked`, `recycle` and `owns`.
pub mod Deferred
pub mod Tests
use softgpu.Base.{
  ℕ, zero, suc, ◌+◌, ◌-◌, ◌*◌, ◌/◌, List, [], ◌∷◌, ◌++◌, length, Option, none, some, Bool, true,
  false, not, ◌&&◌, leb, ◌==◌, if◌then◌else◌, add64,
}
use softgpu.Errno.{Rc, ok, einval, enomem}
use softgpu.Device.Runlist.{is_ok}
use softgpu.OrderedMap.{find, emplace, erase, before_upper}
use softgpu.Alloc.{VramAllocator}
use softgpu.Alloc as A
use softgpu.Mmu.{PageKind, absent, host, vram, page_size, map_vram}
use softgpu.Mmu.Residency.{page, unmap}
use softgpu.Driver.Fences.{Rings, Snapshot, snapshot_puts, all_retired}
use softgpu.Driver.Managed.{Host, ManagedSpan, Memory, forget_resident, evict_all}

-- Pending::Kind
pub data PendingKind : Type 0 where
  k_vram k_managed k_pin : PendingKind

-- Pending
pub record Pending : Type 0 where
  pub kind : PendingKind
  pub addr : ℕ
  pub size : ℕ
  pub backing : ℕ
  pub fence : Snapshot

-- Alloc: `backing` is `host`, 0 for nullptr.
pub record Allocation : Type 0 where
  pub size : ℕ
  pub backing : ℕ

-- The members that `alloc_lock` guards, with those of `mem_lock` and the rings.
pub record Heap (H : Type 0) : Type 0 where
  pub rings : Rings
  pub mem : Memory H
  pub allocs : List (ℕ × Allocation)
  pub managed_va : VramAllocator
  pub pending : List Pending

-- The loop over a managed range's pages, n of them from `va` on: the frames to free.
unfoldable pub collect_frames : {H : Type 0} → ℕ → Memory H → ℕ → List ℕ → List ℕ × Memory H
collect_frames zero d va frames = (frames, d)
collect_frames (suc n) d va frames =
    let pg = page d.mmu va in
    let next =
      collect_frames n (forget_resident d va) (add64 va page_size) (frames ++ pg.pa ∷ []) in
    let skip = collect_frames n d (add64 va page_size) frames in
    elim pg.kind [ vram ↦ next | host ↦ skip | absent ↦ skip ]

unfoldable pub free_frames : VramAllocator → List ℕ → VramAllocator
free_frames v [] = v
free_frames v (f ∷ l) = free_frames (A.free v f).1 l

module _ {H : Type 0} (os : Host H) (release_host : ℕ → ℕ → H → H) where
  -- The managed branch of recycle: `release_host` unregisters the backing and unmaps or frees it.
  unfoldable pub recycle_managed : Heap H → Pending → Heap H
  unfolding collect_frames free_frames
  recycle_managed d p =
      let m = record (d.mem) { managed_ranges = erase p.addr d.mem.managed_ranges } in
      let pages = p.size / page_size in
      let (frames, m') = collect_frames pages m p.addr [] in
      record d {
        mem = record m' {
          mmu = (unmap m'.mmu p.addr pages).1;
          vram_alloc = free_frames m'.vram_alloc frames;
          host_mem = release_host p.backing p.size m'.host_mem;
        };
        managed_va = (A.free d.managed_va p.addr).1;
      }

  -- recycle
  unfoldable pub recycle : Heap H → Pending → Heap H
  unfolding recycle_managed
  recycle d p = elim p.kind [
    | k_pin ↦ d
    | k_vram ↦ record d {
      mem = record (d.mem) {
        mmu = (unmap d.mem.mmu p.addr (p.size / page_size)).1;
        vram_alloc = (A.free d.mem.vram_alloc p.addr).1;
      };
    }
    | k_managed ↦ recycle_managed d p
  ]

  -- The loop of reclaim_locked: what is kept, and the state.
  unfoldable pub reclaim_list : List Pending → Heap H → List Pending × Heap H
  unfolding recycle
  reclaim_list [] d = ([], d)
  reclaim_list (p ∷ l) d =
      let done = reclaim_list l (recycle d p) in
      let (keep, d') = reclaim_list l d in
      if all_retired d.rings p.fence then done else (p ∷ keep, d')

  -- reclaim_locked
  unfoldable pub reclaim : Heap H → Heap H
  unfolding reclaim_list
  reclaim d = let (keep, d') = reclaim_list d.pending d in record d' { pending = keep }

  -- The entry that SG_IOC_FREE makes of an allocation.
  abbrev pub released : Heap H → ℕ → Allocation → Pending
  released d addr al = record {
    kind = if al.backing == 0 then k_vram else k_managed;
    addr = addr;
    size = al.size;
    backing = al.backing;
    fence = snapshot_puts d.rings;
  }

  unfoldable pub free_found : Heap H → ℕ → Option Allocation → Rc × Heap H
  unfolding recycle
  free_found d addr none = (einval, d)
  free_found d addr (some al) =
      let d' = record d { allocs = erase addr d.allocs } in
      let p = released d addr al in
      if all_retired d.rings p.fence
      then (ok, recycle d' p)
      else (ok, record d' { pending = d.pending ++ p ∷ [] })

  -- SG_IOC_FREE
  unfoldable pub free : Heap H → ℕ → Rc × Heap H
  unfolding reclaim free_found
  free d addr = let d' = reclaim d in free_found d' addr (find addr d'.allocs)

  -- SG_IOC_UNPIN after the pin was found: its entry in the queue.
  unfoldable pub defer_unpin : Heap H → ℕ → ℕ → Heap H
  defer_unpin d addr size =
      let p : Pending = record {
        kind = k_pin;
        addr = addr;
        size = size;
        backing = 0;
        fence = snapshot_puts d.rings;
      } in
      record d { pending = d.pending ++ p ∷ [] }

  -- The lambda `take`.
  unfoldable pub take : Heap H → ℕ → Option ℕ × Heap H
  take d size =
      let (a, v) = A.alloc d.mem.vram_alloc size in
      (a, record d { mem = record (d.mem) { vram_alloc = v } })

  -- The end of SG_IOC_ALLOC.
  unfoldable pub map_block : Heap H → ℕ → Option ℕ → Rc × Option ℕ × Heap H
  map_block d size none = (enomem, none, d)
  map_block d size (some addr) =
      let pages = add64 size (page_size - 1) / page_size in
      let (rc, m) = map_vram d.mem.mmu addr addr pages in
      let back = record (d.mem) { mmu = m; vram_alloc = (A.free d.mem.vram_alloc addr).1 } in
      if not (is_ok rc) then (rc, none, record d { mem = back }) else (
        ok,
        some addr,
        record d {
          mem = record (d.mem) { mmu = m };
          allocs = emplace addr (record { size = pages * page_size; backing = 0 }) d.allocs;
        },
      )

  -- The last try: managed pages give way.
  unfoldable pub take_evicting : Heap H → ℕ → Option ℕ → Rc × Option ℕ × Heap H
  unfolding take map_block
  take_evicting d size (some addr) = map_block d size (some addr)
  take_evicting d size none =
      let d' = record d { mem = evict_all os (length d.mem.resident) d.mem } in
      let (addr, d'') = take d' size in map_block d'' size addr

  -- The second try, after `drain`, which waits while other threads run.
  unfoldable pub take_draining :
      (Heap H → Rc × Heap H) → Heap H → ℕ → Option ℕ → Rc × Option ℕ × Heap H
  unfolding take_evicting reclaim
  take_draining drain d size (some addr) = map_block d size (some addr)
  take_draining drain d size none =
      let (rc, d1) = drain d in
      let (addr, d2) = take (reclaim d1) size in
      let rest = take_evicting d2 size addr in if is_ok rc then rest else (rc, none, d1)

  -- SG_IOC_ALLOC
  unfoldable pub alloc : (Heap H → Rc × Heap H) → Heap H → ℕ → Rc × Option ℕ × Heap H
  unfolding take_draining
  alloc drain d size =
      let (addr, d') = take (reclaim d) size in
      if size == 0 then (einval, none, d) else take_draining drain d' size addr

-- `addr - it->first <= it->second.size && len <= it->second.size - (addr - it->first)`
abbrev pub inside : Option (ℕ × Allocation) → ℕ → ℕ → Bool
inside none addr len = false
inside (some (start, al)) addr len =
    leb (addr - start) al.size && leb len (al.size - (addr - start))

-- owns
unfoldable pub owns : {H : Type 0} → Heap H → ℕ → ℕ → Bool
owns d addr len = inside (before_upper addr d.allocs) addr len
