-- ===== src/Driver/Staging.antt =====
-- src/driver/driver.cpp: the staging slots of pageable copies, `acquire_slot` and `release_slot`.
-- Each call is what one thread does under `staging_lock`.
pub mod Slots
mod Tests
use softgpu.Base.{
  ℕ, zero, suc, ◌+◌, ◌%◌, Option, none, some, Bool, true, false, if◌then◌else◌, update,
}

pub record Fence : Type 0 where
  pub engine : ℕ
  pub channel : ℕ
  pub value : ℕ

-- `slot`, an array of `slots` pairs of `fence` and `busy`, and `next_slot`.
pub record Staging : Type 0 where
  pub slots : ℕ
  pub busy : ℕ → Bool
  pub fence : ℕ → Fence
  pub next_slot : ℕ

-- The `for` loop from round i on: the first slot that is not busy.
unfoldable pub free_slot : Staging → ℕ → ℕ → Option ℕ
free_slot d i zero = none
free_slot d i (suc n) =
    let rest = free_slot d (i + 1) n in
    let s = (d.next_slot + i) % d.slots in if d.busy s then rest else some s

unfoldable pub take_slot : Staging → Option ℕ → Option (ℕ × Fence) × Staging
take_slot d none = (none, d)
take_slot d (some s) =
    (some (s, d.fence s), record d { busy = update d.busy s true; next_slot = (s + 1) % d.slots })

-- One round of acquire_slot's outer loop: the slot and `*prev`, or `none` when the thread pauses and
-- tries again.
unfoldable pub acquire_slot : Staging → Option (ℕ × Fence) × Staging
unfolding free_slot take_slot
acquire_slot d = take_slot d (free_slot d 0 d.slots)

-- release_slot
unfoldable pub release_slot : Staging → ℕ → Fence → Staging
release_slot d s f = record d { fence = update d.fence s f; busy = update d.busy s false }
