-- ===== src/Device/Runlist/Turn/Tests.antt =====
-- A round of the copy engine whose urgent channel waits and whose other channel has two copies.
use softgpu.Base.{ℕ, ◌<◌, ◌≡◌, refl, false, some, arith, true}
use softgpu.Integers.{ℤ, pos, ltb_int}
use softgpu.Mmu.{init}
use softgpu.Device.Execute.{Float32}
use softgpu.Device.Runlist.{scan}
use softgpu.Device.Runlist.Tests.{busy, busy-IsSane, copy_runs}
use softgpu.Device.Runlist.Visit.{Visit, Readings, visit}
use softgpu.Device.Runlist.Visit.Ends.{Visited, visit-Visited}
use softgpu.Device.Runlist.Turn.{take_turn}
use softgpu.Device.Runlist.Turn.Served.{Served, take_turn-Served}

abbrev one_value : Float32
one_value = record {
  Float = ℕ;
  zero_f = 0;
  add = λ x y. x;
  mul = λ x y. x;
  of_bytes = λ a b c d. a;
  to_byte = λ x i. x;
}

abbrev readings : Readings
readings = record {
  started = λ k. 10;
  ended = λ k. 15;
  fired = λ k. 16;
  checked = λ k. 17;
  restarted = λ k. 18;
  woken = λ k e. 19;
  num_blocked = λ k. 1;
  asleep_blocked = λ k e. true;
}

abbrev begun : Visit
begun = record {
  dev = busy;
  board = record { mmu = init 65536 32768; vram = λ a. 0; host = λ a. a };
  put = 5;
  slice_start = 0;
  retired = false;
  access = 0;
  busy_cycles = 0;
  cmds_executed = 0;
  faults = 0;
  preempts = 0;
  bells = λ e. 0;
  wake_stamp = λ e. 0;
}

visit-Visited_example : Visited 1 1 begun (visit readings 1 1 5 32768 one_value begun)
visit-Visited_example =
    visit-Visited readings 1 1 5 32768 one_value begun refl (omega arith) (omega arith)

take_turn-Served_example :
    (k : ℕ) × (p : ℤ) × ((scan 1 (λ c. 9) 0 (λ c. 0) busy).chosen ≡ some (k, p))
    × (k < 2)
    × (ltb_int (pos 0) p ≡ false)
    × Served 1 k busy (take_turn readings 1 5 32768 one_value (λ c. 9) 9 0 (λ c. 0) begun).after.dev
take_turn-Served_example =
    take_turn-Served readings 1 5 32768 one_value (λ c. 9) 9 0 (λ c. 0) begun 1 busy-IsSane
      (omega arith) (omega arith) copy_runs
