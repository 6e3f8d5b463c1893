-- ===== src/Driver/Fences/Tests.antt =====
-- Two engines of two channels: a snapshot, and two waiters on one channel.
use softgpu.Base.{List, [], ◌∷◌, false}
use softgpu.Mmu.{init}
use softgpu.Errno.{ok}
use softgpu.Integers.{pos}
use softgpu.Device.{Command, Channel, fresh_replay}
use softgpu.Driver.Fences.{Rings}
use softgpu.Device.Runlist.Visit.{Visit, Readings}
use softgpu.Driver.Fences.Arming.{Move, arms, retires}

abbrev nop : Command
nop = record {
  opcode = 0;
  flags = 0;
  dst = 0;
  src0 = 0;
  src1 = 0;
  size = 0;
  arg0 = 0;
  arg1 = 0;
  arg2 = 0;
  value = 0;
  reserved = 0;
}

abbrev queued : Channel
queued = record {
  ring = λ i. nop;
  depth = 8;
  put = 7;
  get = 3;
  sticky_error = ok;
  irq_target = 0;
  last_irq_cycles = 0;
  parked = false;
  fault_fail = ok;
  priority = pos 0;
}

abbrev rings : Rings
rings = record {
  dev = record {
    num_engines = 2;
    num_channels = 2;
    channel = λ e c. queued;
    replay = λ e c. fresh_replay;
    mixed_priority = false;
    faults = [];
    last_irq = 0;
    irqs = λ e. 0;
    irq_pulses = 0;
    fault_pulses = 0;
    doorbells = λ e. 0;
  };
  published = λ e c. 7;
  depth = 8;
  stalls = 0;
}

abbrev readings : Readings
readings = record {
  started = λ k. 10;
  ended = λ k. 15;
  fired = λ k. 16;
  checked = λ k. 17;
  restarted = λ k. 18;
  woken = λ k e. 19;
  num_blocked = λ k. 0;
  asleep_blocked = λ k e. false;
}

abbrev quiet : Visit
quiet = record {
  dev = rings.dev;
  board = record { mmu = init 65536 32768; vram = λ a. 0; host = λ a. a };
  put = 7;
  slice_start = 0;
  retired = false;
  access = 0;
  busy_cycles = 0;
  cmds_executed = 0;
  faults = 0;
  preempts = 0;
  bells = λ e. 0;
  wake_stamp = λ e. 0;
}

-- A later waiter for fence 4 fires first; the waiter for 6 had its interrupt by then.
abbrev moves : List Move
moves = arms 4 ∷ retires ok ∷ arms 7 ∷ retires ok ∷ retires ok ∷ []
