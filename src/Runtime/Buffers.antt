-- ===== src/Runtime/Buffers.antt =====
-- src/runtime/runtime.cpp: device memory, managed memory and pinned host memory. A pointer is its
-- address, 0 for null; what a call stores through an `out` pointer is an `Option`.
use softgpu.Base.{
  ℕ, ◌+◌, ◌-◌, ◌*◌, ◌/◌, ◌%◌, ◌^◌, Option, none, some, not, ◌||◌, ◌==◌, if◌then◌else◌,
}
use softgpu.Device.Runlist.{is_ok}
use softgpu.Runtime.{
  SgError, sg_ok, not_initialized, invalid_value, out_of_memory, from_errno, Runtime, is_open,
}
use softgpu.Runtime.Api.{Buffers, Queues}
use softgpu.Runtime.Submit.{wait_all}

-- The page of sgMallocHost, and `(bytes + page - 1) / page * page` on 64 bits.
abbrev pub host_page : ℕ
host_page = 4096

unfoldable pub round_to_page : ℕ → ℕ
round_to_page bytes = (bytes + host_page - 1) % 2 ^ 64 / host_page * host_page

module _ {D : Type 0} (buffers : Buffers D) where
  -- sgHoldHostFaults
  unfoldable pub hold_host_faults : Runtime D → ℕ → Runtime D
  hold_host_faults rt hold =
      if not (is_open rt) then rt else record rt { drv = buffers.hold hold rt.drv }

  -- sgMalloc
  unfoldable pub malloc : Runtime D → ℕ → ℕ → SgError × Option ℕ × Runtime D
  malloc rt out bytes =
      let (rc, addr, d) = buffers.alloc bytes rt.drv in
      if not (is_open rt)
      then (not_initialized, none, rt)
      else if (out == 0) || (bytes == 0)
      then (invalid_value, none, rt)
      else (from_errno rc, if is_ok rc then some addr else none, record rt { drv = d })

  -- sgFree
  unfoldable pub free : Runtime D → ℕ → SgError × Runtime D
  free rt ptr =
      let (rc, d) = buffers.free ptr rt.drv in
      if not (is_open rt) then (not_initialized, rt) else (from_errno rc, record rt { drv = d })

  -- sgMallocManaged: the device's address and the host's.
  unfoldable pub malloc_managed : Runtime D → ℕ → ℕ → ℕ → SgError × Option (ℕ × ℕ) × Runtime D
  malloc_managed rt dev host bytes =
      let (rc, addrs, d) = buffers.alloc_managed bytes rt.drv in
      if not (is_open rt)
      then (not_initialized, none, rt)
      else if (dev == 0) || (host == 0) || (bytes == 0)
      then (invalid_value, none, rt)
      else (from_errno rc, if is_ok rc then some addrs else none, record rt { drv = d })

  -- The part of sgMallocHost after posix_memalign.
  unfoldable pub pin_new : Runtime D → ℕ → Option ℕ → SgError × Option ℕ × Runtime D
  pin_new rt rounded none = (out_of_memory, none, rt)
  pin_new rt rounded (some p) =
      let (rc, d) = buffers.pin p rounded rt.drv in
      if not (is_ok rc)
      then (from_errno rc, none, record rt { drv = buffers.release p d })
      else (sg_ok, some p, record rt { drv = d })

  -- sgMallocHost
  unfoldable pub malloc_host : Runtime D → ℕ → ℕ → SgError × Option ℕ × Runtime D
  unfolding pin_new round_to_page
  malloc_host rt out bytes =
      let (p, d) = buffers.memalign host_page (round_to_page bytes) rt.drv in
      let done = pin_new (record rt { drv = d }) (round_to_page bytes) p in
      if not (is_open rt)
      then (not_initialized, none, rt)
      else if (out == 0) || (bytes == 0)
      then (invalid_value, none, rt)
      else done

  -- sgFreeHost
  unfoldable pub free_host : Queues D → Runtime D → ℕ → SgError × Runtime D
  unfolding wait_all
  free_host queues rt ptr =
      let (rc, d) = buffers.unpin ptr rt.drv in
      let (e, rt') = wait_all queues (record rt { drv = d }) in
      if not (is_open rt)
      then (not_initialized, rt)
      else if ptr == 0
      then (invalid_value, rt)
      else if not (is_ok rc)
      then (from_errno rc, record rt { drv = d })
      else (e, record rt' { drv = buffers.release ptr rt'.drv })

  -- sgHostRegister
  unfoldable pub host_register : Runtime D → ℕ → ℕ → SgError × Runtime D
  host_register rt ptr bytes =
      let (rc, d) = buffers.pin ptr bytes rt.drv in
      if not (is_open rt)
      then (not_initialized, rt)
      else if (ptr == 0) || (bytes == 0)
      then (invalid_value, rt)
      else (from_errno rc, record rt { drv = d })

  -- sgHostUnregister
  unfoldable pub host_unregister : Runtime D → ℕ → SgError × Runtime D
  host_unregister rt ptr =
      let (rc, d) = buffers.unpin ptr rt.drv in
      if not (is_open rt)
      then (not_initialized, rt)
      else if ptr == 0
      then (invalid_value, rt)
      else (from_errno rc, record rt { drv = d })
