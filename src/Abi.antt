-- ===== src/Abi.antt =====
-- include/softgpu/sg_ioctl.h: what the runtime hands to the driver and gets back. Output fields of
-- a request stand in a record of their own.
use softgpu.Base.{ℕ}
use softgpu.Integers.{ℤ}
use softgpu.Device.{Command}

-- sg_submit_args, the fields marked `in`
pub record SubmitArgs : Type 0 where
  pub cmd : Command
  pub host_ptr : ℕ
  pub engine : ℕ
  pub channel : ℕ

-- sg_submit_args, the fields marked `out`
pub record SubmitOut : Type 0 where
  pub fence : ℕ
  pub out_flags : ℕ

-- SG_SUBMIT_DIRECT
abbrev pub submit_direct : ℕ
submit_direct = 1

-- sg_wait_args
pub record WaitArgs : Type 0 where
  pub engine : ℕ
  pub channel : ℕ
  pub fence : ℕ
  pub flags : ℕ

-- SG_WAIT_ALL
abbrev pub wait_all_engines : ℕ
wait_all_engines = 0xffffffff

-- sg_query_args
pub record QueryArgs : Type 0 where
  pub abi_version : ℕ
  pub staging_slots : ℕ
  pub vram_size : ℕ
  pub staging_chunk : ℕ
  pub num_engines : ℕ
  pub num_channels : ℕ
  pub wait_policy : ℕ
  pub submit_mode : ℕ
  pub spin_ns : ℕ
  pub idle_policy : ℕ
  pub uffd : ℕ
  pub idle_ns : ℕ
  pub priority_least : ℤ
  pub priority_greatest : ℤ
  pub timeslice_ns : ℕ
  pub kmod : ℕ
