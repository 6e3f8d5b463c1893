-- ===== src/Device/Runlist/Turn/Served.antt =====
-- A round serves a channel of the best priority: it moves on, or it parks with its fault.
use softgpu.Base.{ℕ, ◌<◌, ◌≤◌, ◌≡◌, ◌⊎◌, inl, inr, arith, some, true, false}
use softgpu.Integers.{ℤ, ltb_int}
use softgpu.Device.{Device}
use softgpu.Device.Execute.{Float32}
use softgpu.Device.Runlist.{Scan, scan}
use softgpu.Device.Runlist.Channels.{IsSane, Evolves, Evolves-IsSane}
use softgpu.Device.Runlist.Rounds.{Runnable}
use softgpu.Device.Runlist.Choice.{scan-Picked}
use softgpu.Device.Runlist.Service.{scan-Runnable}
use softgpu.Device.Runlist.Visit.{Visit, Readings}
use softgpu.Device.Runlist.Visit.Boundary.{Stops}
use softgpu.Device.Runlist.Visit.Ends.{visit-Visited, visit-progress}
use softgpu.Device.Runlist.Turn.{take_turn, visit_chosen}
use softgpu.Device.Runlist.Turn.Seen.{Seen, scan-Seen}

-- What the round of an engine did to the channel k that it served, from the device d to d'.
pub record Served (e k : ℕ) (d d' : Device) : Type 0 where
  pub advanced : ((d.channel e k).get < (d'.channel e k).get) ⊎ ((d'.channel e k).parked ≡ true)
  pub within : (d'.channel e k).get ≤ (d'.channel e k).put
  pub stops : Stops e k d'

module _ (r : Readings) (e timeslice vram_size : ℕ) (f : Float32) where
  visit_chosen-Served :
      (start rr k : ℕ) (p : ℤ) (v : Visit) (s : Scan)
      → Evolves v.dev s.dev
      → IsSane s.dev
      → Runnable s.dev e k
      → s.seen_put k ≡ (s.dev.channel e k).put
      → Served e k v.dev
          (visit_chosen r e timeslice vram_size f start rr v s (some (k, p))).after.dev
  unfolding visit_chosen Runnable IsSane
  visit_chosen-Served start rr k p v s h n (fine, parked, l, b) seen =
      let u = record v { dev = s.dev; put = s.seen_put k; slice_start = start; retired = false } in
      let a =
        visit-Visited r e k timeslice vram_size f u seen (omega (arith, n e k, seen))
          (omega (arith, n e k, seen)) in
      let g =
        visit-progress r e k timeslice vram_size f u seen (omega (arith, l, seen))
          (omega (arith, n e k, seen)) b in
      record {
        advanced = elim g [ inl t ↦ inl (omega (arith, t, (h.later e k).get_up)) | inr t ↦ inr t ];
        within = a.within;
        stops = a.stops;
      }

  -- When a channel c of the engine can run and PUT is not behind GET anywhere, a round of the run loop
  -- serves a channel k of the engine, chosen with a priority that c's does not better: k's GET moves up or
  -- k is parked; GET stays within PUT; and the visit ends with k drained, blocked by a fence or parked with
  -- its fault queued, or with another channel able to run whose priority is better or the same.
  pub take_turn-Served :
      (now : ℕ → ℕ) (start rr : ℕ) (seen : ℕ → ℕ) (v : Visit) (c : ℕ)
      → IsSane v.dev
      → rr < v.dev.num_channels
      → c < v.dev.num_channels
      → Runnable v.dev e c
      → (k : ℕ) × (p : ℤ) × ((scan e now rr seen v.dev).chosen ≡ some (k, p))
        × (k < v.dev.num_channels)
        × (ltb_int (v.dev.channel e c).priority p ≡ false)
        × Served e k v.dev (take_turn r e timeslice vram_size f now start rr seen v).after.dev
  unfolding take_turn Seen
  take_turn-Served now start rr seen v c n l h q =
      let s = scan e now rr seen v.dev in
      let (k, p, chosen, k_lt, runs, best) = scan-Runnable v.dev e now rr seen c n l h q in
      let evolves = (scan-Picked v.dev e now rr seen n).0 in
      let sane = Evolves-IsSane v.dev s.dev evolves n in
      let put = scan-Seen e now rr seen v.dev n k p chosen in
      (
        k,
        p,
        chosen,
        k_lt,
        best,
        rw chosen (visit_chosen-Served start rr k p v s evolves sane runs put),
      )
