-- ===== src/Driver/Faults.antt =====
-- src/driver/driver.cpp: the service of page faults, the device's (`service_faults`, `match_stream`) and
-- the host's (`va_for_host` and the part of `service_host_faults` under `mem_lock`): one round each.
mod Streams
mod Served
mod Tests
use softgpu.Base.{
  ℕ, zero, suc, ◌+◌, ◌-◌, List, [], ◌∷◌, Option, none, some, Bool, true, false, not, ◌&&◌, ltb, leb,
  ◌==◌, if◌then◌else◌, add64, update,
}
use softgpu.Errno.{Rc, ok}
use softgpu.Device.{Device, Fault, set_channel, pop_fault, unpark}
use softgpu.Device.Runlist.{is_ok}
use softgpu.Alloc as A
use softgpu.Mmu.{PageKind, absent, host, vram, page_size, page_floor}
use softgpu.Mmu.Residency.{page}
use softgpu.Driver.Managed.{
  Host, ManagedSpan, Memory, evict_locked, migrate_locked, prefetch_locked,
}

-- FaultStream
pub record FaultStream : Type 0 where
  pub next : ℕ
  pub used : ℕ

-- kFaultStreams
abbrev pub fault_streams : ℕ
fault_streams = 4

-- The device, the memory, and each channel's streams with their clock.
pub record Service (H : Type 0) : Type 0 where
  pub dev : Device
  pub mem : Memory H
  pub streams : ℕ → ℕ → ℕ → FaultStream
  pub stream_clock : ℕ

-- The loop of match_stream from stream i on: the stream, and `*sequential`.
unfoldable pub match_from : (ℕ → FaultStream) → ℕ → ℕ → ℕ → ℕ → ℕ × Bool
match_from set va i zero lru = (lru, false)
match_from set va i (suc n) lru =
    let rest = match_from set va (i + 1) n (if ltb (set i).used (set lru).used then i else lru) in
    if not ((set i).used == 0) && ((set i).next == va) then (i, true) else rest

-- match_stream, and the caller's `s.next = next`.
unfoldable pub match_stream : {H : Type 0} → Service H → ℕ → ℕ → ℕ → (ℕ × Bool) × Service H
unfolding match_from
match_stream d e c va =
    let set = d.streams e c in
    let (i, sequential) = match_from set va 0 fault_streams 0 in
    let now = add64 d.stream_clock 1 in
    let set' = update set i (record (set i) { used = now }) in
    (
      (i, sequential),
      record d { streams = update d.streams e (update (d.streams e) c set'); stream_clock = now },
    )

abbrev pub set_next : {H : Type 0} → Service H → ℕ → ℕ → ℕ → ℕ → Service H
set_next d e c i va =
    let set = d.streams e c in
    let set' = update set i (record (set i) { next = va }) in
    record d { streams = update d.streams e (update (d.streams e) c set') }

module _ {H : Type 0} (os : Host H) where
  -- Up to `unpark`: the migration of the page, its failure, and the channel's release; with `moved`.
  unfoldable pub serve : Service H → Fault → Bool × Service H
  serve d f =
      let (rc, moved, m) = migrate_locked os d.mem (page_floor f.va) in
      let ch = d.dev.channel f.engine f.channel in
      let failed = set_channel d.dev f.engine f.channel (record ch { fault_fail = rc }) in
      let dev = if is_ok rc then d.dev else failed in
      (moved, record d { dev = unpark dev f.engine f.channel; mem = m })

  -- After it, when the page was moved.
  unfoldable pub follow_stream : Service H → Fault → Service H
  unfolding match_stream
  follow_stream d f =
      let va = page_floor f.va in
      let ((i, sequential), d1) = match_stream d f.engine f.channel va in
      let next = add64 va page_size in
      let d2 = set_next d1 f.engine f.channel i next in
      let (last, m) = prefetch_locked os d2.mem next in
      if sequential && not (d2.mem.prefetch_pages == 0)
      then set_next (record d2 { mem = m }) f.engine f.channel i last
      else d2

  unfoldable pub serve_popped : Service H → Option Fault × Device → Service H
  unfolding serve follow_stream
  serve_popped d (none, dev) = record d { dev = dev }
  serve_popped d (some f, dev) =
      let (moved, d') = serve (record d { dev = dev }) f in
      let followed = follow_stream d' f in if not moved then d' else followed

  -- One round of service_faults; with no fault queued the thread waits.
  unfoldable pub service_fault : Service H → Service H
  unfolding serve_popped
  service_fault d = serve_popped d (pop_fault d.dev)

  -- va_for_host: the ranges in order.
  unfoldable pub va_for_host : List (ℕ × ManagedSpan) → ℕ → Option ℕ
  va_for_host [] at = none
  va_for_host ((va, sp) ∷ l) at =
      let rest = va_for_host l at in
      if leb sp.host_base at && ltb (at - sp.host_base) (sp.end - va)
      then some (add64 va (at - sp.host_base))
      else rest

  unfoldable pub evicted_frame : Option ℕ × Memory H → Memory H
  evicted_frame (none, d) = d
  evicted_frame (some pa, d) = record d { vram_alloc = (A.free d.vram_alloc pa).1 }

  unfoldable pub serve_host : Memory H → Option ℕ → Memory H
  unfolding evicted_frame
  serve_host d none = d
  serve_host d (some va) =
      let evicted = evicted_frame (evict_locked os d va) in
      elim (page d.mmu va).kind [ vram ↦ evicted | host ↦ d | absent ↦ d ]

  -- A host fault at a page: `uffd_wake`, which wakes the faulting thread, changes no state here.
  unfoldable pub service_host_fault : Memory H → ℕ → Memory H
  unfolding serve_host va_for_host
  service_host_fault d at = serve_host d (va_for_host d.managed_ranges at)
