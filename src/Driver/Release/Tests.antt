-- ===== src/Driver/Release/Tests.antt =====
-- A freed block waits for the two commands that are still on a channel.
use softgpu.Base.{ℕ, ◌≡◌, refl, List, [], ◌∷◌, ◌++◌, some, false, update, arith}
use softgpu.Errno.{Rc, ok}
use softgpu.Integers.{pos}
use softgpu.OrderedMap.{find, erase}
use softgpu.Alloc as A
use softgpu.Device.{Command, fresh_replay}
use softgpu.Mmu as M
use softgpu.Driver.Fences.{Rings, retired}
use softgpu.Driver.Managed.{Host}
use softgpu.Driver.Release.{Allocation, Heap, reclaim, released, free}
use softgpu.Driver.Release.Deferred.{
  Has, Later, reclaims, frees, unpins, run_later, Short, reclaim-free,
}

abbrev pub Pages : Type 0
Pages = ℕ → ℕ → ℕ

abbrev plain : Host Pages
plain = record {
  read = λ to h. h to;
  write = λ to b h. update h to b;
  uffd_copy = λ to b h. (ok, update h to b);
  drop = λ to h. h;
}

abbrev keep_host : ℕ → ℕ → Pages → Pages
keep_host addr size h = h

abbrev nop : Command
nop = record {
  opcode = 0;
  flags = 0;
  dst = 0;
  src0 = 0;
  src1 = 0;
  size = 0;
  arg0 = 0;
  arg1 = 0;
  arg2 = 0;
  value = 0;
  reserved = 0;
}

-- One channel that has retired n of four commands.
abbrev at_get : ℕ → Rings
at_get n = record {
  dev = record {
    num_engines = 1;
    num_channels = 1;
    channel = λ e c. record {
      ring = λ i. nop;
      depth = 8;
      put = 4;
      get = n;
      sticky_error = ok;
      irq_target = 0;
      last_irq_cycles = 0;
      parked = false;
      fault_fail = ok;
      priority = pos 0;
    };
    replay = λ e c. fresh_replay;
    mixed_priority = false;
    faults = [];
    last_irq = 0;
    irqs = λ e. 0;
    irq_pulses = 0;
    fault_pulses = 0;
    doorbells = λ e. 0;
  };
  published = λ e c. 4;
  depth = 8;
  stalls = 0;
}

abbrev block : Allocation
block = record { size = 4096; backing = 0 }

abbrev pub one_block : Heap Pages
one_block = record {
  rings = at_get 2;
  mem = record {
    mmu = M.init 65536 16384;
    vram_size = 16384;
    frames = λ pa i. 0;
    host_mem = λ p i. 0;
    uffd = false;
    vram_alloc = A.init 0 16384 4096;
    resident = [];
    managed_ranges = [];
    prefetch_pages = 16;
    migrations = 0;
    prefetches = 0;
    evictions = 0;
    writebacks = 0;
    bytes_migrated = 0;
  };
  allocs = (8192, block) ∷ [];
  managed_va = A.init 16384 49152 4096;
  pending = [];
}

found : find 8192 (reclaim plain keep_host one_block).allocs ≡ some block
unfolding reclaim find
found = refl

abbrev freed_block : Rc × Heap Pages
freed_block = free plain keep_host one_block 8192

-- Another free, a pin's entry and a reclaim while the third command is still out.
abbrev meanwhile : List (Rings × Later)
meanwhile = (at_get 2, frees 4096) ∷ (at_get 3, unpins 65536 4096) ∷ (at_get 3, reclaims) ∷ []

meanwhile-Short : Short plain keep_host (at_get 2) 0 0 meanwhile
unfolding retired
meanwhile-Short =
    ((refl, refl, omega arith), ((refl, refl, omega arith), ((refl, refl, omega arith), tt)))

reclaim-free_example :
    let d0 = reclaim plain keep_host one_block in
    let p = released plain keep_host d0 8192 block in
    (freed_block.0 ≡ ok)
    × (freed_block.1.mem ≡ d0.mem)
    × (freed_block.1.allocs ≡ erase 8192 d0.allocs)
    × (freed_block.1.pending ≡ d0.pending ++ p ∷ [])
    × Has p (run_later plain keep_host freed_block.1 meanwhile).pending
unfolding reclaim retired
reclaim-free_example =
    reclaim-free plain keep_host one_block 8192 block 0 0 meanwhile found (omega arith)
      (omega arith) (omega arith) meanwhile-Short
