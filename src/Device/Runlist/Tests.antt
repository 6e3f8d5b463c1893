-- ===== src/Device/Runlist/Tests.antt =====
-- A device of two engines with two channels each, and a scan of its copy engine.
use softgpu.Base.{ℕ, zero, suc, ◌+◌, ◌%◌, ◌≡◌, refl, [], some, true, false, arith}
use softgpu.Errno.{ok}
use softgpu.Integers.{pos, negsuc}
use softgpu.Device.{Command, Channel, Device, fresh_replay}
use softgpu.Device.Runlist.{scan, scan_rounds, scan_one, wait_blocked, choose}
use softgpu.Device.Runlist.Channels.{Evolves, IsSane}
use softgpu.Device.Runlist.Rounds.{Runnable}
use softgpu.Device.Runlist.Choice.{Picked, scan-Picked}

-- A wait for the first command of engine 0, channel 0.
abbrev wait : Command
wait = record {
  opcode = 7;
  flags = 0;
  dst = 0;
  src0 = 0;
  src1 = 1;
  size = 0;
  arg0 = 0;
  arg1 = 0;
  arg2 = 0;
  value = 0;
  reserved = 0;
}

abbrev copy : Command
copy = record {
  opcode = 2;
  flags = 0;
  dst = 0;
  src0 = 0;
  src1 = 0;
  size = 4096;
  arg0 = 0;
  arg1 = 0;
  arg2 = 0;
  value = 0;
  reserved = 0;
}

abbrev idle : Channel
idle = record {
  ring = λ i. copy;
  depth = 4;
  put = 3;
  get = 3;
  sticky_error = ok;
  irq_target = 0;
  last_irq_cycles = 0;
  parked = false;
  fault_fail = ok;
  priority = pos 0;
}

-- Engine 1: channel 0 has the urgent priority and waits; channel 1 has a copy queued.
abbrev channels : ℕ → ℕ → Channel
channels (suc zero) zero = record idle { put = 4; ring = λ i. wait; priority = negsuc 1 }
channels (suc zero) (suc zero) = record idle { put = 5 }
channels _ _ = record idle { put = 0; get = 0 }

abbrev pub busy : Device
busy = record {
  num_engines = 2;
  num_channels = 2;
  channel = channels;
  replay = λ e c. fresh_replay;
  mixed_priority = true;
  faults = [];
  last_irq = 0;
  irqs = λ e. 0;
  irq_pulses = 0;
  fault_pulses = 0;
  doorbells = λ e. 0;
}

pub busy-IsSane : IsSane busy
unfolding IsSane
busy-IsSane (suc zero) zero = (omega arith, omega arith)
busy-IsSane (suc zero) (suc zero) = (omega arith, omega arith)
busy-IsSane _ _ = (omega arith, omega arith)

-- The waiting channel is passed over although its priority is better.
chooses_copy : (scan 1 (λ c. 9) 0 (λ c. 0) busy).chosen ≡ some (1, pos 0)
unfolding scan scan_rounds scan_one wait_blocked choose
chooses_copy = refl

scan-Picked_example :
    let s = scan 1 (λ c. 9) 0 (λ c. 0) busy in
    Evolves busy s.dev × Picked busy 1 (λ j. (0 + j) % 2) 2 s.dev s.chosen
scan-Picked_example = scan-Picked busy 1 (λ c. 9) 0 (λ c. 0) busy-IsSane

pub copy_runs : Runnable busy 1 1
unfolding Runnable wait_blocked
copy_runs = (refl, refl, omega arith, refl)
