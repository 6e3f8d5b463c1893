-- ===== src/Device/Runs.antt =====
-- src/device/device.cpp: the ranges of virtual addresses that a command works on, run by run (`run_at`,
-- `resolve`, `for_runs`). A pointer into VRAM is its offset. The MMU changes with each translation; no
-- other thread changes the page table during a call.
pub mod Places
pub mod Longest
pub mod Extent
pub mod Applied
mod Tests
use softgpu.Base.{
  ℕ, zero, suc, ◌+◌, ◌-◌, min, Bool, true, false, not, ◌&&◌, ◌||◌, ltb, ◌==◌, if◌then◌else◌, add64,
}
use softgpu.Errno.{Rc, efault}
use softgpu.Mmu.{
  Mmu, TranslateStatus, translated, not_present, host_resident, page_size, page_floor, page_offset,
}
use softgpu.Mmu.Access.{translate}
use softgpu.Device.{Replay}

-- What run_at, resolve, for_runs and execute return: 0, kPageFault with `*fault_va`, kSplit, or an error.
pub data Ended : Type 0 where
  success : Ended
  page_fault : ℕ → Ended
  split : Ended
  refused : Rc → Ended

abbrev pub is_success : Ended → Bool
is_success success = true
is_success (page_fault a) = false
is_success split = false
is_success (refused rc) = false

abbrev pub is_translated : TranslateStatus → Bool
is_translated translated = true
is_translated not_present = false
is_translated host_resident = false

-- A page that does not translate ends the run before it, or else the call.
unfoldable pub stopped : TranslateStatus → ℕ → ℕ → Ended
stopped translated got cur = success
stopped not_present got cur = if not (got == 0) then success else refused efault
stopped host_resident got cur = if not (got == 0) then success else page_fault (page_floor cur)

-- The loop of run_at, with its `base` and `got`.
unfoldable pub run_from : ℕ → ℕ → ℕ → ℕ → Bool → Mmu → ℕ → ℕ → (Ended × ℕ × ℕ) × Mmu
unfolding stopped
run_from zero engine va len write m base got = ((success, base, got), m)
run_from (suc fuel) engine va len write m base got =
    let cur = add64 va got in
    let (t, m') = translate m engine cur write in
    let pa = add64 t.pa (page_offset cur) in
    let rest =
      run_from fuel engine va len write m' (if got == 0 then pa else base)
        (got + min (len - got) (page_size - page_offset cur)) in
    if not (ltb got len)
    then ((success, base, got), m)
    else if not (is_translated t.status)
    then ((stopped t.status got cur, base, got), m')
    else if not (got == 0) && not (pa == add64 base got)
    then ((success, base, got), m')
    else rest

-- `base > vram_size_ || got > vram_size_ - base`
abbrev pub outside : ℕ → ℕ → ℕ → Bool
outside vram_size base got = ltb vram_size base || ltb (vram_size - base) got

-- Device::run_at: what it returns, `*out` and `*n`. A round takes at least a byte, so `len` rounds do.
unfoldable pub run_at : ℕ → ℕ → ℕ → ℕ → Bool → Mmu → (Ended × ℕ × ℕ) × Mmu
unfolding run_from
run_at vram_size engine va len write m =
    let ((rc, base, got), m') = run_from len engine va len write m 0 0 in
    if is_success rc && outside vram_size base got
    then ((refused efault, base, got), m')
    else ((rc, base, got), m')

-- Device::resolve
unfoldable pub resolve : ℕ → ℕ → ℕ → ℕ → Bool → Mmu → (Ended × ℕ) × Mmu
unfolding run_at
resolve vram_size engine va len write m =
    let ((rc, base, got), m') = run_at vram_size engine va len write m in
    if len == 0
    then ((success, 0), m)
    else if not (is_success rc)
    then ((rc, 0), m')
    else if got == len
    then ((success, base), m')
    else ((split, base), m')

-- Device::for_runs over the state that `op` changes; `op p off n`.
unfoldable pub for_runs {ℓ} :
    {S : Type ℓ}
    → ℕ
    → ℕ
    → ℕ
    → ℕ
    → ℕ
    → Bool
    → (ℕ → ℕ → ℕ → S → S)
    → Replay
    → Mmu
    → S
    → Ended × Replay × Mmu × S
for_runs zero vram_size engine va len write op r m s = (success, r, m, s)
for_runs (suc fuel) vram_size engine va len write op r m s =
    let ((rc, p, n), m') = run_at vram_size engine (add64 va r.done) (len - r.done) write m in
    let rest =
      for_runs fuel vram_size engine va len write op (record r { done = r.done + n }) m'
        (op p r.done n s) in
    if not (ltb r.done len)
    then (success, r, m, s)
    else if not (is_success rc)
    then (rc, r, m', s)
    else rest
