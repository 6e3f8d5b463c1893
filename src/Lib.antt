-- ===== src/Lib.antt =====
-- Verification library of softgpu, a software model of a GPU with its driver.
--
-- The program has three layers. The device (src/device) owns the VRAM, the MMU and one thread per
-- engine, which takes commands from the channels' rings. The driver (src/driver) allocates VRAM and
-- the managed address range, keeps the page table up to date, submits commands, waits on fences and
-- migrates managed pages. The runtime (src/runtime) is the user's interface to the driver.
--
-- Files and what they model:
--   Base        Boolean tests, list helpers, 64-bit words and updates of functions
--   OrderedMap  std::map as an association list in key order (`find`, `emplace`, `erase`,
--               `lower_bound`), for the allocator's `free_` and `live_`
--   Errno       the error codes that the functions return
--   Alloc       src/driver/vram_alloc.cpp: the record `VramAllocator` is the class, with its four
--               members; `alloc`, `detach`, `release`, `free` and `owns_range` are its methods
--   Mmu         src/device/mmu.cpp: the record `Mmu` is the class. Mapping in Mmu, residency in
--               Mmu.Residency, the engines' `translate`, `walk` and `tlb_insert` in Mmu.Access
--   Integers    int32_t with its order, for the channels' priorities
--   Device      src/device/device.cpp: `Channel` and `Device` are the classes' registers; priorities,
--               the fault queue and `unpark`. Device.Runlist has the scan of a round of `run`,
--               Device.Runlist.Visit its `while` loop over the chosen channel's commands and
--               `wake_blocked_sleepers`, Device.Runlist.Turn the two together,
--               Device.Runs `run_at`, `resolve` and `for_runs`, Device.Execute `execute` with its
--               kernels, Device.Gate the idle gate against the doorbells
--   Driver      src/driver/driver.cpp: Driver.Pins is the table of pinned host ranges, Driver.Fences
--               the snapshots of PUT, `all_retired`, `arm_irq` and `sticky`, Driver.Waits
--               the budget and the moving average of `wait_until`, Driver.Staging the staging slots,
--               Driver.Tickets `enqueue` as the accesses that several producers and the engine
--               interleave, Driver.Submit `do_submit` over an interface of the driver's other parts,
--               of which Driver.Submit.Blocks fills in `owns`, `pinned`, `sticky` and the published PUT,
--               Driver.Managed eviction, migration and prefetch of managed pages, Driver.Release the
--               allocations and their deferred release, Driver.Faults one round of the threads
--               that serve faults
--   Abi         include/softgpu/sg_ioctl.h: the requests that the runtime makes of the driver
--   Runtime     src/runtime/runtime.cpp: the record `Runtime` holds the globals, the streams and the
--               events by their addresses, and the driver's state. Runtime.Api has the driver's
--               requests as interfaces, Runtime.Bind the channels of streams, Runtime.Submit the
--               submission on a stream, Runtime.Entry the calls on streams and events, the copies
--               and the compute calls, Runtime.Lifecycle sgInit and sgShutdown, Runtime.Buffers the
--               memory calls. Runtime.DevicePriorities serves the interface of priorities with the
--               device's registers
--   Telemetry   the counters of the engines and of the driver, SG_IOC_STATS, SG_IOC_RESET_STATS and
--               sgGetStats
--   Rotation    the round-robin loops of the runlist and of the staging slots
--
-- A 64-bit sum or product wraps (`add64`, `mul64`, `sub64`); addresses and sizes are native numbers.
-- Most loops are structural recursion on a count of pages, channels or slots or on a list. The loops
-- of pageable copies are bounded by the number of chunks, and that of evict_all_locked by the number
-- of resident pages. A visit of a channel has PUT - GET rounds, since each but its last retires a
-- command, and the loops of `run_at`, `for_runs` and of a device copy have as many as bytes, since each
-- takes at least one.
--
-- A method of the MMU is modelled as it runs when no other thread changes the table between its
-- accesses: the program holds `map_lock_` around each mapping change, and the races of a TLB fill with
-- one are not modelled. The flags of a page-table word are read and set by division by powers of two, which is
-- what the masks of the source compute.
--
-- A round of the runlist, too, is modelled as it runs when no other thread changes a register
-- between its accesses; what it reads of the clock and of other engines' gates is given from outside.
-- An engine's cursor of a channel is that channel's GET, since the source changes both together.
--
-- The gate of an engine is modelled by its accesses, which any number of callers interleave; its bell's
-- word does not come round to the value that the engine saw during one sleep. A head that waits for a
-- fence is asked once; the wake-up when that fence passes later is not part of this model.
--
-- Not modelled: the accounting after a round of the run loop and its idle budget, the driver's remaining
-- requests, the host fault thread's messages and the spin and block phases of the driver's waits, the
-- futex event, the kernel module, the benchmarks and the tests. Of the runtime, the texts of
-- sgErrorString; a call that uses the address of a destroyed stream or event, which the source leaves
-- undefined, has some value in the model. A wait inside do_submit is one function of the state, which
-- stands for all that other threads do meanwhile.
pub mod Base
pub mod OrderedMap
pub mod Errno
pub mod Integers
pub mod Rotation
pub mod Alloc
pub mod Mmu
pub mod Device
pub mod Driver
pub mod Abi
pub mod Telemetry
pub mod Runtime
