-- ===== src/Telemetry/Tests.antt =====
-- Telemetry of a device of two engines.
use softgpu.Base.{◌≡◌, refl}
use softgpu.Telemetry.{Telemetry, read_stats, get_stats, reset_stats}
use softgpu.Telemetry.Reset.{Zero, get_stats-reset_stats}

abbrev counted : Telemetry
counted = record {
  num_engines = 2;
  stats = λ e. record {
    busy_cycles = 1;
    wait_cycles = 2;
    idle_cycles = 3;
    cmds_executed = 4;
    batches = 5;
    irqs = 6;
    sleep_cycles = 7;
    wakeups = 8;
    missed_doorbells = 9;
    cpu_ns = 10;
    faults = 11;
    preempts = 12;
    stats_gen = 13;
  };
  hits = λ e. 9;
  misses = λ e. 5;
  counters = record {
    submits = 1;
    waits = 2;
    waits_spun = 3;
    waits_blocked = 4;
    wake_latency_ns = 5;
    lock_wait_ns = 6;
    stalls = 7;
    staging_waits = 8;
    bytes_h2d = 9;
    bytes_d2h = 10;
    bytes_direct = 11;
    bytes_staged = 12;
    migrations = 13;
    prefetches = 14;
    evictions = 15;
    writebacks = 16;
    bytes_migrated = 17;
    host_faults = 18;
    host_fault_ns = 19;
  };
}

-- The driver counts three waits that spun, and the runtime tells them.
told : (get_stats (read_stats counted)).waits_spun ≡ 3
unfolding get_stats read_stats
told = refl

get_stats-reset_stats_example : Zero (get_stats (read_stats (reset_stats counted))).engine_cmds
get_stats-reset_stats_example = (get_stats-reset_stats counted).5
