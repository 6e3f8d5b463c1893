-- ===== src/Telemetry/Reset.antt =====
-- What sgGetStats tells after sgResetStats, and what it tells of the counters.
use softgpu.Base.{ℕ, ◌<◌, ◌≡◌, refl, inl, inr, ltb, Bool-cases, lt→ltb, arith}
use softgpu.Telemetry.{Telemetry, filled, read_stats, reset_stats, copied, get_stats, max_engines}

abbrev pub Zero : (ℕ → ℕ) → Type 0
Zero f = (e : ℕ) → f e ≡ 0

-- What a loop that copies a zeroed array leaves of an array that is zero where it was filled.
copied-filled : (n : ℕ) (f : ℕ → ℕ) → ((e : ℕ) → e < n → f e ≡ 0) → Zero (copied n (filled n f))
unfolding copied filled
copied-filled n f h e = elim (Bool-cases (ltb e n)) [
  | inr q ↦ rw q refl
  | inl q ↦ elim (Bool-cases (ltb e max_engines)) [
    | inr m ↦ rw (q, m) refl
    | inl m ↦ rw (q, m) (h e (ground (arith, q)))
  ]
]

-- A counter that the reset leaves is told as before.
kept_cpu :
    (t : Telemetry) (e : ℕ)
    → copied t.num_engines (filled t.num_engines (λ i. ((reset_stats t).stats i).cpu_ns)) e
      ≡ copied t.num_engines (filled t.num_engines (λ i. (t.stats i).cpu_ns)) e
unfolding reset_stats copied filled
kept_cpu t e = elim (Bool-cases (ltb e t.num_engines)) [ inl q ↦ rw q refl | inr q ↦ rw q refl ]

-- After sgResetStats, sgGetStats tells 0 for every counter of the driver and for every counter of
-- every engine, but for the engines' CPU time, which it tells as before.
pub get_stats-reset_stats :
    (t : Telemetry)
    → let out = get_stats (read_stats (reset_stats t)) in
      let before = get_stats (read_stats t) in
      (out.num_engines ≡ t.num_engines)
      × ((e : ℕ) → out.engine_cpu_ns e ≡ before.engine_cpu_ns e)
      × Zero out.engine_busy_cycles
      × Zero out.engine_wait_cycles
      × Zero out.engine_idle_cycles
      × Zero out.engine_cmds
      × Zero out.engine_batches
      × Zero out.engine_irqs
      × Zero out.engine_sleep_cycles
      × Zero out.engine_wakeups
      × Zero out.engine_missed_doorbells
      × Zero out.engine_faults
      × Zero out.engine_preempts
      × Zero out.engine_tlb_hits
      × Zero out.engine_tlb_misses
      × (out.driver_submits ≡ 0)
      × (out.driver_waits ≡ 0)
      × (out.waits_spun ≡ 0)
      × (out.waits_blocked ≡ 0)
      × (out.wake_latency_ns ≡ 0)
      × (out.lock_wait_ns ≡ 0)
      × (out.driver_stalls ≡ 0)
      × (out.staging_waits ≡ 0)
      × (out.bytes_h2d ≡ 0)
      × (out.bytes_d2h ≡ 0)
      × (out.bytes_direct ≡ 0)
      × (out.bytes_staged ≡ 0)
      × (out.um_migrations ≡ 0)
      × (out.um_prefetches ≡ 0)
      × (out.um_evictions ≡ 0)
      × (out.um_writebacks ≡ 0)
      × (out.um_bytes_migrated ≡ 0)
      × (out.um_host_faults ≡ 0)
      × (out.um_host_fault_ns ≡ 0)
unfolding get_stats read_stats reset_stats
get_stats-reset_stats t = (
  refl,
  kept_cpu t,
  copied-filled t.num_engines (λ e. ((reset_stats t).stats e).busy_cycles)
      (λ e h. rw (lt→ltb e t.num_engines h) refl),
  copied-filled t.num_engines (λ e. ((reset_stats t).stats e).wait_cycles)
      (λ e h. rw (lt→ltb e t.num_engines h) refl),
  copied-filled t.num_engines (λ e. ((reset_stats t).stats e).idle_cycles)
      (λ e h. rw (lt→ltb e t.num_engines h) refl),
  copied-filled t.num_engines (λ e. ((reset_stats t).stats e).cmds_executed)
      (λ e h. rw (lt→ltb e t.num_engines h) refl),
  copied-filled t.num_engines (λ e. ((reset_stats t).stats e).batches)
      (λ e h. rw (lt→ltb e t.num_engines h) refl),
  copied-filled t.num_engines (λ e. ((reset_stats t).stats e).irqs)
      (λ e h. rw (lt→ltb e t.num_engines h) refl),
  copied-filled t.num_engines (λ e. ((reset_stats t).stats e).sleep_cycles)
      (λ e h. rw (lt→ltb e t.num_engines h) refl),
  copied-filled t.num_engines (λ e. ((reset_stats t).stats e).wakeups)
      (λ e h. rw (lt→ltb e t.num_engines h) refl),
  copied-filled t.num_engines (λ e. ((reset_stats t).stats e).missed_doorbells)
      (λ e h. rw (lt→ltb e t.num_engines h) refl),
  copied-filled t.num_engines (λ e. ((reset_stats t).stats e).faults)
      (λ e h. rw (lt→ltb e t.num_engines h) refl),
  copied-filled t.num_engines (λ e. ((reset_stats t).stats e).preempts)
      (λ e h. rw (lt→ltb e t.num_engines h) refl),
  copied-filled t.num_engines (reset_stats t).hits (λ e h. refl),
  copied-filled t.num_engines (reset_stats t).misses (λ e h. refl),
  refl,
  refl,
  refl,
  refl,
  refl,
  refl,
  refl,
  refl,
  refl,
  refl,
  refl,
  refl,
  refl,
  refl,
  refl,
  refl,
  refl,
  refl,
  refl,
)
