-- ===== src/Driver/Fences.antt =====
-- src/driver/driver.cpp: fences. The driver reads each channel's GET and its own PUT counters, takes
-- snapshots of them, arms the interrupt of a channel and appends commands to its ring. Each function
-- runs with no other thread between its accesses.
mod Tests
pub mod Snapshots
pub mod Arming
use softgpu.Base.{
  ℕ, zero, suc, ◌+◌, Bool, true, false, not, ◌&&◌, ◌||◌, ltb, leb, ◌==◌, if◌then◌else◌, add64,
  sub64, update,
}
use softgpu.Errno.{Rc, ok}
use softgpu.Device.{Command, Channel, Device, set_channel}
use softgpu.Device.Runlist.{is_ok}

-- The driver's part of the state: the device, the channels' published PUT (`prod[e][c].put`), the
-- ring depth and the count of stalls.
pub record Rings : Type 0 where
  pub dev : Device
  pub published : ℕ → ℕ → ℕ
  pub depth : ℕ
  pub stalls : ℕ

-- PutSnapshot
abbrev pub Snapshot : Type 0
Snapshot = ℕ → ℕ → ℕ

unfoldable pub retired : Rings → ℕ → ℕ → ℕ
retired r e c = (r.dev.channel e c).get

-- snapshot_puts
unfoldable pub snapshot_puts : Rings → Snapshot
snapshot_puts r e c =
    if ltb e r.dev.num_engines && ltb c r.dev.num_channels then r.published e c else 0

-- The inner loop of `all_retired`, over channels c, ..., c + n - 1.
unfoldable pub retired_channels : Rings → Snapshot → ℕ → ℕ → ℕ → Bool
unfolding retired
retired_channels r fence e c zero = true
retired_channels r fence e c (suc n) =
    not (ltb (retired r e c) (fence e c)) && retired_channels r fence e (suc c) n

unfoldable pub retired_engines : Rings → Snapshot → ℕ → ℕ → Bool
unfolding retired_channels
retired_engines r fence e zero = true
retired_engines r fence e (suc n) =
    retired_channels r fence e 0 r.dev.num_channels && retired_engines r fence (suc e) n

-- all_retired
unfoldable pub all_retired : Rings → Snapshot → Bool
unfolding retired_engines
all_retired r fence = retired_engines r fence 0 r.dev.num_engines

-- arm_irq
unfoldable pub arm_irq : Rings → ℕ → ℕ → ℕ → Rings
arm_irq r e c target =
    let ch = r.dev.channel e c in
    if (ch.irq_target == 0) || ltb target ch.irq_target
    then record r { dev = set_channel r.dev e c (record ch { irq_target = target }) }
    else r

-- The inner loop of `sticky`.
unfoldable pub sticky_channels : Device → ℕ → ℕ → ℕ → Rc
sticky_channels d e c zero = ok
sticky_channels d e c (suc n) =
    if is_ok (d.channel e c).sticky_error
    then sticky_channels d e (suc c) n
    else (d.channel e c).sticky_error

unfoldable pub sticky_engines : Device → ℕ → ℕ → Rc
unfolding sticky_channels
sticky_engines d e zero = ok
sticky_engines d e (suc n) =
    let rc = sticky_channels d e 0 d.num_channels in
    let rest = sticky_engines d (suc e) n in if is_ok rc then rest else rc

-- sticky
unfoldable pub sticky : Device → Rc
unfolding sticky_engines
sticky d = sticky_engines d 0 d.num_engines
