-- ===== src/Telemetry.antt =====
-- Telemetry: the counters of src/device/device.h and src/driver/driver.cpp, SG_IOC_STATS and
-- SG_IOC_RESET_STATS, and what src/runtime/runtime.cpp makes of them.
pub mod Reset
mod Tests
use softgpu.Base.{ℕ, ◌+◌, ◌%◌, ◌^◌, Bool, ◌&&◌, ltb, if◌then◌else◌}

-- EngineStats
pub record EngineStats : Type 0 where
  pub busy_cycles : ℕ
  pub wait_cycles : ℕ
  pub idle_cycles : ℕ
  pub cmds_executed : ℕ
  pub batches : ℕ
  pub irqs : ℕ
  pub sleep_cycles : ℕ
  pub wakeups : ℕ
  pub missed_doorbells : ℕ
  pub cpu_ns : ℕ
  pub faults : ℕ
  pub preempts : ℕ
  pub stats_gen : ℕ

-- The driver's counters.
pub record Counters : Type 0 where
  pub submits : ℕ
  pub waits : ℕ
  pub waits_spun : ℕ
  pub waits_blocked : ℕ
  pub wake_latency_ns : ℕ
  pub lock_wait_ns : ℕ
  pub stalls : ℕ
  pub staging_waits : ℕ
  pub bytes_h2d : ℕ
  pub bytes_d2h : ℕ
  pub bytes_direct : ℕ
  pub bytes_staged : ℕ
  pub migrations : ℕ
  pub prefetches : ℕ
  pub evictions : ℕ
  pub writebacks : ℕ
  pub bytes_migrated : ℕ
  pub host_faults : ℕ
  pub host_fault_ns : ℕ

-- `hits` and `misses` are the MMU's, of each engine.
pub record Telemetry : Type 0 where
  pub num_engines : ℕ
  pub stats : ℕ → EngineStats
  pub hits : ℕ → ℕ
  pub misses : ℕ → ℕ
  pub counters : Counters

-- sg_stats_args
pub record StatsArgs : Type 0 where
  pub num_engines : ℕ
  pub busy_cycles : ℕ → ℕ
  pub wait_cycles : ℕ → ℕ
  pub idle_cycles : ℕ → ℕ
  pub cmds_executed : ℕ → ℕ
  pub batches : ℕ → ℕ
  pub irqs : ℕ → ℕ
  pub sleep_cycles : ℕ → ℕ
  pub wakeups : ℕ → ℕ
  pub missed_doorbells : ℕ → ℕ
  pub cpu_ns : ℕ → ℕ
  pub faults : ℕ → ℕ
  pub preempts : ℕ → ℕ
  pub tlb_hits : ℕ → ℕ
  pub tlb_misses : ℕ → ℕ
  pub submits : ℕ
  pub waits : ℕ
  pub waits_spun : ℕ
  pub waits_blocked : ℕ
  pub wake_latency_ns : ℕ
  pub lock_wait_ns : ℕ
  pub stalls : ℕ
  pub staging_waits : ℕ
  pub bytes_h2d : ℕ
  pub bytes_d2h : ℕ
  pub bytes_direct : ℕ
  pub bytes_staged : ℕ
  pub migrations : ℕ
  pub prefetches : ℕ
  pub evictions : ℕ
  pub writebacks : ℕ
  pub bytes_migrated : ℕ
  pub host_faults : ℕ
  pub host_fault_ns : ℕ

-- sgStats_t
pub record SgStats : Type 0 where
  pub num_engines : ℕ
  pub engine_busy_cycles : ℕ → ℕ
  pub engine_wait_cycles : ℕ → ℕ
  pub engine_idle_cycles : ℕ → ℕ
  pub engine_cmds : ℕ → ℕ
  pub engine_batches : ℕ → ℕ
  pub engine_irqs : ℕ → ℕ
  pub engine_sleep_cycles : ℕ → ℕ
  pub engine_wakeups : ℕ → ℕ
  pub engine_missed_doorbells : ℕ → ℕ
  pub engine_cpu_ns : ℕ → ℕ
  pub engine_faults : ℕ → ℕ
  pub engine_preempts : ℕ → ℕ
  pub engine_tlb_hits : ℕ → ℕ
  pub engine_tlb_misses : ℕ → ℕ
  pub driver_submits : ℕ
  pub driver_waits : ℕ
  pub waits_spun : ℕ
  pub waits_blocked : ℕ
  pub wake_latency_ns : ℕ
  pub lock_wait_ns : ℕ
  pub driver_stalls : ℕ
  pub staging_waits : ℕ
  pub bytes_h2d : ℕ
  pub bytes_d2h : ℕ
  pub bytes_direct : ℕ
  pub bytes_staged : ℕ
  pub um_migrations : ℕ
  pub um_prefetches : ℕ
  pub um_evictions : ℕ
  pub um_writebacks : ℕ
  pub um_bytes_migrated : ℕ
  pub um_host_faults : ℕ
  pub um_host_fault_ns : ℕ

-- An array that was zeroed, after a loop that fills its first n entries.
unfoldable pub filled : ℕ → (ℕ → ℕ) → ℕ → ℕ
filled n f e = if ltb e n then f e else 0

-- SG_IOC_STATS
unfoldable pub read_stats : Telemetry → StatsArgs
unfolding filled
read_stats t = record {
  num_engines = t.num_engines;
  busy_cycles = filled t.num_engines (λ e. (t.stats e).busy_cycles);
  wait_cycles = filled t.num_engines (λ e. (t.stats e).wait_cycles);
  idle_cycles = filled t.num_engines (λ e. (t.stats e).idle_cycles);
  cmds_executed = filled t.num_engines (λ e. (t.stats e).cmds_executed);
  batches = filled t.num_engines (λ e. (t.stats e).batches);
  irqs = filled t.num_engines (λ e. (t.stats e).irqs);
  sleep_cycles = filled t.num_engines (λ e. (t.stats e).sleep_cycles);
  wakeups = filled t.num_engines (λ e. (t.stats e).wakeups);
  missed_doorbells = filled t.num_engines (λ e. (t.stats e).missed_doorbells);
  cpu_ns = filled t.num_engines (λ e. (t.stats e).cpu_ns);
  faults = filled t.num_engines (λ e. (t.stats e).faults);
  preempts = filled t.num_engines (λ e. (t.stats e).preempts);
  tlb_hits = filled t.num_engines t.hits;
  tlb_misses = filled t.num_engines t.misses;
  submits = t.counters.submits;
  waits = t.counters.waits;
  waits_spun = t.counters.waits_spun;
  waits_blocked = t.counters.waits_blocked;
  wake_latency_ns = t.counters.wake_latency_ns;
  lock_wait_ns = t.counters.lock_wait_ns;
  stalls = t.counters.stalls;
  staging_waits = t.counters.staging_waits;
  bytes_h2d = t.counters.bytes_h2d;
  bytes_d2h = t.counters.bytes_d2h;
  bytes_direct = t.counters.bytes_direct;
  bytes_staged = t.counters.bytes_staged;
  migrations = t.counters.migrations;
  prefetches = t.counters.prefetches;
  evictions = t.counters.evictions;
  writebacks = t.counters.writebacks;
  bytes_migrated = t.counters.bytes_migrated;
  host_faults = t.counters.host_faults;
  host_fault_ns = t.counters.host_fault_ns;
}

-- The stores of one round of Device::reset_stats. `stats_gen` is on 32 bits.
abbrev pub reset_engine : EngineStats → EngineStats
reset_engine st = record st {
  busy_cycles = 0;
  wait_cycles = 0;
  idle_cycles = 0;
  cmds_executed = 0;
  batches = 0;
  irqs = 0;
  sleep_cycles = 0;
  wakeups = 0;
  missed_doorbells = 0;
  faults = 0;
  preempts = 0;
  stats_gen = (st.stats_gen + 1) % 2 ^ 32;
}

-- The list of counters that SG_IOC_RESET_STATS clears.
abbrev pub reset_counters : Counters → Counters
reset_counters c = record c {
  submits = 0;
  waits = 0;
  waits_spun = 0;
  waits_blocked = 0;
  wake_latency_ns = 0;
  lock_wait_ns = 0;
  stalls = 0;
  staging_waits = 0;
  bytes_h2d = 0;
  bytes_d2h = 0;
  bytes_direct = 0;
  bytes_staged = 0;
  migrations = 0;
  prefetches = 0;
  evictions = 0;
  writebacks = 0;
  bytes_migrated = 0;
  host_faults = 0;
  host_fault_ns = 0;
}

-- SG_IOC_RESET_STATS, with Device::reset_stats and Mmu::reset_stats
unfoldable pub reset_stats : Telemetry → Telemetry
reset_stats t = record t {
  stats = λ e. if ltb e t.num_engines then reset_engine (t.stats e) else t.stats e;
  hits = λ e. 0;
  misses = λ e. 0;
  counters = reset_counters t.counters;
}

-- SG_MAX_ENGINES_RT
abbrev pub max_engines : ℕ
max_engines = 4

-- The loop of sgGetStats, over one array.
unfoldable pub copied : ℕ → (ℕ → ℕ) → ℕ → ℕ
copied n f e = if ltb e n && ltb e max_engines then f e else 0

-- sgGetStats, of what the driver returned.
unfoldable pub get_stats : StatsArgs → SgStats
unfolding copied
get_stats s = record {
  num_engines = s.num_engines;
  engine_busy_cycles = copied s.num_engines s.busy_cycles;
  engine_wait_cycles = copied s.num_engines s.wait_cycles;
  engine_idle_cycles = copied s.num_engines s.idle_cycles;
  engine_cmds = copied s.num_engines s.cmds_executed;
  engine_batches = copied s.num_engines s.batches;
  engine_irqs = copied s.num_engines s.irqs;
  engine_sleep_cycles = copied s.num_engines s.sleep_cycles;
  engine_wakeups = copied s.num_engines s.wakeups;
  engine_missed_doorbells = copied s.num_engines s.missed_doorbells;
  engine_cpu_ns = copied s.num_engines s.cpu_ns;
  engine_faults = copied s.num_engines s.faults;
  engine_preempts = copied s.num_engines s.preempts;
  engine_tlb_hits = copied s.num_engines s.tlb_hits;
  engine_tlb_misses = copied s.num_engines s.tlb_misses;
  driver_submits = s.submits;
  driver_waits = s.waits;
  waits_spun = s.waits_spun;
  waits_blocked = s.waits_blocked;
  wake_latency_ns = s.wake_latency_ns;
  lock_wait_ns = s.lock_wait_ns;
  driver_stalls = s.stalls;
  staging_waits = s.staging_waits;
  bytes_h2d = s.bytes_h2d;
  bytes_d2h = s.bytes_d2h;
  bytes_direct = s.bytes_direct;
  bytes_staged = s.bytes_staged;
  um_migrations = s.migrations;
  um_prefetches = s.prefetches;
  um_evictions = s.evictions;
  um_writebacks = s.writebacks;
  um_bytes_migrated = s.bytes_migrated;
  um_host_faults = s.host_faults;
  um_host_fault_ns = s.host_fault_ns;
}
