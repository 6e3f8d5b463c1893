-- ===== src/Driver/Faults/Tests.antt =====
-- A channel with two live streams, and a fault where the second one expects it.
use softgpu.Base.{
  ℕ, ◌+◌, ◌*◌, ◌≡◌, ◌≢◌, ◌⊎◌, update, false, refl, [], ◌∷◌, true, ◌==◌, if◌then◌else◌,
}
use softgpu.Errno.{ok}
use softgpu.Integers.{pos}
use softgpu.Alloc as A
use softgpu.Mmu.{Mmu, page_floor, vram}
use softgpu.Mmu.Residency.{page}
use softgpu.Device.{Command, Fault, Device, fresh_replay}
use softgpu.Driver.Managed.{Memory, Host}
use softgpu.Driver.Faults.{fault_streams, Service, match_stream, serve}
use softgpu.Driver.Faults.Served.{serve_lem}
use softgpu.Driver.Faults.Streams.{Chosen, match_stream_lem}

abbrev nop : Command
nop = record {
  opcode = 0;
  flags = 0;
  dst = 0;
  src0 = 0;
  src1 = 0;
  size = 0;
  arg0 = 0;
  arg1 = 0;
  arg2 = 0;
  value = 0;
  reserved = 0;
}

abbrev quiet : Device
quiet = record {
  num_engines = 2;
  num_channels = 2;
  channel = λ e c. record {
    ring = λ i. nop;
    depth = 8;
    put = 0;
    get = 0;
    sticky_error = ok;
    irq_target = 0;
    last_irq_cycles = 0;
    parked = false;
    fault_fail = ok;
    priority = pos 0;
  };
  replay = λ e c. fresh_replay;
  mixed_priority = false;
  faults = [];
  last_irq = 0;
  irqs = λ e. 0;
  irq_pulses = 0;
  fault_pulses = 0;
  doorbells = λ e. 0;
}

abbrev table : Mmu
table = record {
  pte = λ vpn. if vpn == 8 then 7 else if vpn == 9 then 4107 else if vpn == 7 then 1 else 0;
  host_of = λ vpn. vpn * 65536;
  npages = 16;
  vram_pages = 4;
  tlb = λ e. [];
  clock = λ e. 1;
  tlb_gen = 0;
  tlb_hits = λ e. 0;
  tlb_misses = λ e. 0;
}

abbrev two_pages : Memory (ℕ → ℕ → ℕ)
two_pages = record {
  mmu = table;
  vram_size = 16384;
  frames = λ pa i. pa;
  host_mem = λ p i. 1;
  uffd = false;
  vram_alloc = A.init 0 16384 4096;
  resident = 36864 ∷ 32768 ∷ [];
  managed_ranges = [];
  prefetch_pages = 16;
  migrations = 2;
  prefetches = 0;
  evictions = 0;
  writebacks = 0;
  bytes_migrated = 8192;
}

abbrev two_streams : Service (ℕ → ℕ → ℕ)
two_streams = record {
  dev = quiet;
  mem = two_pages;
  streams = λ e c i. record {
    next = 32768 + i * 4096;
    used = if i == 0 then 2 else if i == 1 then 1 else 0;
  };
  stream_clock = 2;
}

match_stream_lem_example :
    Chosen (two_streams.streams 0 1) 36864 fault_streams (match_stream two_streams 0 1 36864).0
match_stream_lem_example = match_stream_lem two_streams 0 1 36864

-- The second stream goes on; a page that no stream expects takes the first that was never used.
second : (match_stream two_streams 0 1 36864).0 ≡ (1, true)
unfolding match_stream
second = refl

fresh : (match_stream two_streams 0 1 8192).0 ≡ (2, false)
unfolding match_stream
fresh = refl

abbrev plain : Host (ℕ → ℕ → ℕ)
plain = record {
  read = λ to h. h to;
  write = λ to b h. update h to b;
  uffd_copy = λ to b h. (ok, update h to b);
  drop = λ to h. h;
}

-- In the middle of page 7, which is on the host.
abbrev on_host : Fault
on_host = record { engine = 0; channel = 1; va = 28680 }

serve_lem_example :
    let d' = (serve plain two_streams on_host).1 in
    let ch = d'.dev.channel 0 1 in
    (ch.parked ≡ false)
    × (((page d'.mem.mmu (page_floor 28680)).kind ≡ vram) ⊎ (ch.fault_fail ≢ ok))
serve_lem_example = serve_lem plain two_streams on_host
