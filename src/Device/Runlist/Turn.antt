-- ===== src/Device/Runlist/Turn.antt =====
-- src/device/device.cpp, `Device::run`: a round of the engine, the scan and then the visit of the channel
-- that it has chosen.
pub mod Seen
pub mod Served
mod Tests
use softgpu.Base.{ℕ, ◌+◌, ◌%◌, Option, none, some, Bool, true, false, ◌||◌}
use softgpu.Integers.{ℤ}
use softgpu.Device.Execute.{Float32}
use softgpu.Device.Runlist.{Scan, scan}
use softgpu.Device.Runlist.Visit.{Visit, Readings, visit}

-- What a round leaves of the locals: the visit's, `rr` and `progress`.
pub record Turn : Type 0 where
  pub after : Visit
  pub rr : ℕ
  pub seen_put : ℕ → ℕ
  pub progress : Bool

module _ (r : Readings) (e timeslice_ns vram_size : ℕ) (f : Float32) where
  -- From the scan on; `start` is the clock when the visit begins.
  unfoldable pub visit_chosen : ℕ → ℕ → Visit → Scan → Option (ℕ × ℤ) → Turn
  unfolding visit
  visit_chosen start rr v s none = record {
    after = record v { dev = s.dev; retired = false };
    rr = rr;
    seen_put = s.seen_put;
    progress = s.progress;
  }
  visit_chosen start rr v s (some (c, p)) =
      let v' = record v { dev = s.dev; put = s.seen_put c; slice_start = start; retired = false } in
      let w = visit r e c timeslice_ns vram_size f v' in
      record {
        after = w;
        rr = (c + 1) % s.dev.num_channels;
        seen_put = s.seen_put;
        progress = w.retired || s.progress;
      }

  -- `now` is the clock in the scan.
  unfoldable pub take_turn : (ℕ → ℕ) → ℕ → ℕ → (ℕ → ℕ) → Visit → Turn
  unfolding visit_chosen
  take_turn now start rr seen v =
      let s = scan e now rr seen v.dev in visit_chosen start rr v s s.chosen
