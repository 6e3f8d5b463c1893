-- ===== src/Runtime/Lifecycle.antt =====
-- src/runtime/runtime.cpp: sgInit, sgShutdown and the calls that only read or set the globals.
use softgpu.Base.{ℕ, ◌+◌, ◌-◌, ◌%◌, ◌^◌, [], false, not, ◌&&◌, ◌==◌, if◌then◌else◌, update}
use softgpu.Integers.{ℤ, pos, negsuc}
use softgpu.Device.Runlist.{is_ok}
use softgpu.Abi.{QueryArgs}
use softgpu.Runtime.{
  SgError, sg_ok, not_initialized, already_initialized, invalid_value, device_error, from_errno,
  ChanBind, Runtime, is_open,
}
use softgpu.Runtime.Api.{Opened, opened, refused, Contexts}

-- SG_ABI_VERSION
abbrev pub abi_version : ℕ
abi_version = 12

-- `g_bind` after the loop and `g_bind[0].users = 1`
abbrev pub first_bind : ℕ → ChanBind
first_bind =
    update (λ c. record { priority = pos 0; users = 0 }) 0 (record { priority = pos 0; users = 1 })

-- The assignments after a successful query. `num_engines - 1` is on 32 bits.
unfoldable pub adopt : {D : Type 0} → Runtime D → ℕ → QueryArgs → Runtime D
adopt rt fd q =
    let num_ce = (q.num_engines + (2 ^ 32 - 1)) % 2 ^ 32 in
    record rt {
      fd = pos fd;
      managed_coherent = not (q.uffd == 0);
      kmod = not (q.kmod == 0);
      num_engines = q.num_engines;
      num_ce = num_ce;
      num_channels = q.num_channels;
      prio_least = q.priority_least;
      prio_greatest = q.priority_greatest;
      timeslice_ns = q.timeslice_ns;
      bind = first_bind;
      default_stream = record (rt.default_stream) {
        has_tail = false;
        extra_waits = [];
        ce = if num_ce == 0 then 0 else 1;
        channel = 0;
      };
    }

module _ {D : Type 0} (contexts : Contexts D) where
  unfoldable pub init_opened : Runtime D → Opened → SgError × Runtime D
  unfolding adopt
  init_opened rt (refused rc) = (from_errno rc, rt)
  init_opened rt (opened fd) =
      let (rc, q, d) = contexts.query fd rt.drv in
      let (_, closed) = contexts.drv_close (pos fd) d in
      if not (is_ok rc)
      then (from_errno rc, record rt { drv = closed })
      else if not (q.abi_version == abi_version)
      then (device_error, record rt { drv = closed })
      else (sg_ok, adopt (record rt { drv = d }) fd q)

  -- sgInit
  unfoldable pub init : Runtime D → SgError × Runtime D
  unfolding init_opened
  init rt =
      let (o, d) = contexts.drv_open rt.drv in
      let done = init_opened (record rt { drv = d }) o in
      if is_open rt then (already_initialized, rt) else done

  -- sgShutdown
  unfoldable pub shutdown : Runtime D → SgError × Runtime D
  shutdown rt =
      let (rc, d) = contexts.drv_close rt.fd rt.drv in
      if not (is_open rt) then (not_initialized, rt) else (
        from_errno rc,
        record rt { fd = negsuc 0; managed_coherent = false; kmod = false; drv = d },
      )

-- sgManagedCoherent
unfoldable pub managed_coherent : {D : Type 0} → Runtime D → ℕ
managed_coherent rt = if is_open rt && rt.managed_coherent then 1 else 0

-- sgUsingKernel
unfoldable pub using_kernel : {D : Type 0} → Runtime D → ℕ
using_kernel rt = if is_open rt && rt.kmod then 1 else 0

-- sgDeviceGetStreamPriorityRange
unfoldable pub priority_range : {D : Type 0} → Runtime D → ℤ × ℤ
priority_range rt =
    (if is_open rt then rt.prio_least else pos 0, if is_open rt then rt.prio_greatest else pos 0)

-- sgTimesliceNs
unfoldable pub timeslice_ns : {D : Type 0} → Runtime D → ℕ
timeslice_ns rt = if is_open rt then rt.timeslice_ns else 0

-- sgNumChannels
unfoldable pub num_channels : {D : Type 0} → Runtime D → ℕ
num_channels rt = if is_open rt then rt.num_channels else 0

-- sgSetSyncPolicy: SG_SYNC_DEFAULT, SG_SYNC_SPIN and SG_SYNC_BLOCK are the flags' values.
unfoldable pub set_sync_policy : {D : Type 0} → Runtime D → ℕ → SgError × Runtime D
set_sync_policy rt policy =
    if policy == 0
    then (sg_ok, record rt { sync_flags = 0 })
    else if policy == 1
    then (sg_ok, record rt { sync_flags = 1 })
    else if policy == 2
    then (sg_ok, record rt { sync_flags = 2 })
    else (invalid_value, rt)
