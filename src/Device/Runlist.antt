-- ===== src/Device/Runlist.antt =====
-- src/device/device.cpp, `Device::run`: one scan of an engine's runlist, which picks the channel to
-- visit. The cursor `cur[c].get` is the channel's `get`: the source changes both together. The scan
-- runs with no other thread between its accesses; `now c` is what `now_cycles` returns at channel c.
pub mod Channels
pub mod Rounds
pub mod Choice
pub mod Service
pub mod Visit
pub mod Turn
mod Tests
use softgpu.Base.{
  ℕ, zero, suc, ◌+◌, ◌%◌, Option, none, some, Bool, true, false, not, ◌&&◌, ltb, leb, ◌==◌,
  if◌then◌else◌, add64, update,
}
use softgpu.Errno.{Rc, ok, eio}
use softgpu.Integers.{ℤ, ltb_int}
use softgpu.Device.{Command, Channel, Device, op_wait_fence, fresh_replay, set_channel}

-- The locals of a round: `seen_put`, `progress`, `pending`, `chosen` and `chosen_prio`.
pub record Scan : Type 0 where
  pub dev : Device
  pub seen_put : ℕ → ℕ
  pub progress : Bool
  pub pending : Bool
  pub chosen : Option (ℕ × ℤ)

abbrev pub is_ok : Rc → Bool
is_ok Rc.ok = true
is_ok _ = false

-- `ring[get & mask]`
abbrev pub head : Channel → Command
head ch = ch.ring (ch.get % ch.depth)

-- The lambda `wait_blocked`.
unfoldable pub wait_blocked : Device → Command → Bool
wait_blocked d cmd =
    (cmd.opcode == op_wait_fence)
    && ltb cmd.arg0 d.num_engines
    && ltb cmd.arg1 d.num_channels
    && ltb (d.channel cmd.arg0 cmd.arg1).get cmd.src1

-- `compare_exchange_strong(0, rc)`
abbrev pub stick : Rc → Rc → Rc
stick old rc = if is_ok old then rc else old

-- The interrupt of a fence that `get` has passed.
unfoldable pub fire : Device → ℕ → ℕ → ℕ → Device
unfolding set_channel
fire d e c now =
    let ch = d.channel e c in
    let d' = set_channel d e c (record ch { irq_target = 0; last_irq_cycles = now }) in
    if not (ch.irq_target == 0) && leb ch.irq_target ch.get
    then record d' {
      last_irq = now;
      irqs = update d.irqs e (suc (d.irqs e));
      irq_pulses = suc d.irq_pulses;
    }
    else d

-- The head of a channel whose migration failed retires with that error.
unfoldable pub fail_head : Device → ℕ → ℕ → ℕ → Device
unfolding set_channel fire
fail_head d e c now =
    let ch = d.channel e c in
    let ch' = record ch { fault_fail = ok; sticky_error = stick ch.sticky_error ch.fault_fail } in
    let d' = set_channel d e c (record ch' { get = add64 ch.get 1 }) in
    if ch.put == ch.get
    then set_channel d e c ch'
    else fire (record d' { replay = update d.replay e (update (d.replay e) c fresh_replay) }) e c
        now

-- PUT is behind GET: a driver bug, which the channel reports.
unfoldable pub refuse : Device → ℕ → ℕ → Device
unfolding set_channel
refuse d e c =
    let ch = d.channel e c in
    set_channel d e c (record ch { sticky_error = stick ch.sticky_error eio })

-- `chosen < 0 || prio < chosen_prio`
unfoldable pub choose : Option (ℕ × ℤ) → ℕ → ℤ → Option (ℕ × ℤ)
choose none c p = some (c, p)
choose (some (c', p')) c p = if ltb_int p p' then some (c, p) else some (c', p')

-- One round of the `for` loop, at channel c.
unfoldable pub scan_one : ℕ → (ℕ → ℕ) → Scan → ℕ → Scan
scan_one e now s c =
    let ch = s.dev.channel e c in
    let s' = record s { seen_put = update s.seen_put c ch.put } in
    if not (is_ok ch.fault_fail)
    then record s' {
      dev = fail_head s.dev e c (now c);
      progress = if ch.put == ch.get then s.progress else true;
    }
    else if ch.parked
    then record s' { pending = if ch.put == ch.get then s.pending else true }
    else if ch.put == ch.get
    then s'
    else if ltb ch.put ch.get
    then record s' { dev = refuse s.dev e c }
    else if wait_blocked s.dev (head ch)
    then record s' { pending = true }
    else record s' { pending = true; chosen = choose s.chosen c ch.priority }

-- Rounds i, ..., i + n - 1.
unfoldable pub scan_rounds : ℕ → (ℕ → ℕ) → ℕ → ℕ → ℕ → Scan → Scan
unfolding scan_one
scan_rounds e now rr i zero s = s
scan_rounds e now rr i (suc n) s =
    scan_rounds e now rr (i + 1) n (scan_one e now s ((rr + i) % s.dev.num_channels))

-- The whole scan from round-robin position rr.
unfoldable pub scan : ℕ → (ℕ → ℕ) → ℕ → (ℕ → ℕ) → Device → Scan
unfolding scan_rounds
scan e now rr seen d =
    scan_rounds e now rr 0 d.num_channels
      (record { dev = d; seen_put = seen; progress = false; pending = false; chosen = none })
