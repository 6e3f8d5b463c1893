-- ===== src/Device.antt =====
-- src/device/device.h and src/device/device.cpp: the channels' registers and the calls on them that
-- the driver makes. An atomic register is a field; a call is one thread's run of the method.
pub mod Runlist
pub mod Priority
pub mod Runs
pub mod Execute
pub mod Gate
use softgpu.Base.{
  ℕ, suc, zero, List, [], ◌∷◌, ◌++◌, Option, none, some, Bool, true, false, not, ◌&&◌, ◌||◌, ltb,
  leb, ◌==◌, if◌then◌else◌, add64, update,
}
use softgpu.Errno.{Rc, ok, einval}
use softgpu.Integers.{ℤ, pos, negsuc, ltb_int}

-- sg_cmd
pub record Command : Type 0 where
  pub opcode : ℕ
  pub flags : ℕ
  pub dst : ℕ
  pub src0 : ℕ
  pub src1 : ℕ
  pub size : ℕ
  pub arg0 : ℕ
  pub arg1 : ℕ
  pub arg2 : ℕ
  pub value : ℕ
  pub reserved : ℕ

-- SG_OP_WAIT_FENCE
abbrev pub op_wait_fence : ℕ
op_wait_fence = 7

-- Channel. `depth` is `ring_mask + 1`; `ring` is the memory at `ring_base`; `ok` stands for 0 in
-- `sticky_error` and `fault_fail`.
pub record Channel : Type 0 where
  pub ring : ℕ → Command
  pub depth : ℕ
  pub put : ℕ
  pub get : ℕ
  pub sticky_error : Rc
  pub irq_target : ℕ
  pub last_irq_cycles : ℕ
  pub parked : Bool
  pub fault_fail : Rc
  pub priority : ℤ

-- std::vector<uint8_t>
pub record Bytes : Type 0 where
  pub size : ℕ
  pub byte : ℕ → ℕ

abbrev pub no_bytes : Bytes
no_bytes = record { size = 0; byte = λ i. 0 }

-- Device::Replay
pub record Replay : Type 0 where
  pub done : ℕ
  pub phase : ℕ
  pub gather : Bool
  pub a : Bytes
  pub b : Bytes
  pub c : Bytes

abbrev pub fresh_replay : Replay
fresh_replay = record {
  done = 0;
  phase = 0;
  gather = false;
  a = no_bytes;
  b = no_bytes;
  c = no_bytes;
}

-- Device::Fault
pub record Fault : Type 0 where
  pub va : ℕ
  pub engine : ℕ
  pub channel : ℕ

-- Device: the parts that the functions here read or write. `irqs` counts an engine's interrupts,
-- `irq_pulses` the calls of `raise_host_irq`, `fault_pulses` those of `fault_irq_.signal()` and
-- `doorbells` the calls of `doorbell`.
pub record Device : Type 0 where
  pub num_engines : ℕ
  pub num_channels : ℕ
  pub channel : ℕ → ℕ → Channel
  pub replay : ℕ → ℕ → Replay
  pub mixed_priority : Bool
  pub faults : List Fault
  pub last_irq : ℕ
  pub irqs : ℕ → ℕ
  pub irq_pulses : ℕ
  pub fault_pulses : ℕ
  pub doorbells : ℕ → ℕ

unfoldable pub set_channel : Device → ℕ → ℕ → Channel → Device
set_channel d e c ch = record d { channel = update d.channel e (update (d.channel e) c ch) }

-- SG_PRIORITY_LEAST, SG_PRIORITY_GREATEST
abbrev pub priority_least : ℤ
priority_least = pos 0

abbrev pub priority_greatest : ℤ
priority_greatest = negsuc 6

-- `priority != SG_PRIORITY_LEAST`
abbrev pub is_default : ℤ → Bool
is_default (pos zero) = true
is_default (pos (suc n)) = false
is_default (negsuc n) = false

-- The inner loop: is a priority of channels c, ..., c + n - 1 of the engine not the default?
pub mixed_channels : Device → ℕ → ℕ → ℕ → Bool
mixed_channels d e c zero = false
mixed_channels d e c (suc n) =
    not (is_default (d.channel e c).priority) || mixed_channels d e (suc c) n

pub mixed_engines : Device → ℕ → ℕ → Bool
mixed_engines d e zero = false
mixed_engines d e (suc n) = mixed_channels d e 0 d.num_channels || mixed_engines d (suc e) n

-- Device::set_channel_priority
unfoldable pub set_channel_priority : Device → ℕ → ℕ → ℤ → Rc × Device
unfolding set_channel mixed_engines
set_channel_priority d e c p =
    let d' = set_channel d e c (record (d.channel e c) { priority = p }) in
    if leb d.num_engines e || leb d.num_channels c
    then (einval, d)
    else if ltb_int priority_least p || ltb_int p priority_greatest
    then (einval, d)
    else (ok, record d' { mixed_priority = mixed_engines d' 0 d'.num_engines })

-- Device::push_fault
pub push_fault : Device → Fault → Device
push_fault d f = record d { faults = d.faults ++ (f ∷ []); fault_pulses = suc d.fault_pulses }

unfoldable pub pop_front : Device → List Fault → Option Fault × Device
pop_front d [] = (none, d)
pop_front d (f ∷ fs) = (some f, record d { faults = fs })

-- Device::pop_fault: `none` for false, and otherwise `*out`.
unfoldable pub pop_fault : Device → Option Fault × Device
unfolding pop_front
pop_fault d = pop_front d d.faults

-- Device::unpark
unfoldable pub unpark : Device → ℕ → ℕ → Device
unfolding set_channel
unpark d e c =
    let d' = set_channel d e c (record (d.channel e c) { parked = false }) in
    record d' { doorbells = update d'.doorbells e (suc (d'.doorbells e)) }
