-- ===== src/Runtime.antt =====
-- src/runtime/runtime.cpp: the user-mode runtime's objects and globals. It reaches the driver through
-- `sg_drv_ioctl` on the descriptor `g_fd`, which each entry point checks; the requests are the
-- interfaces of Runtime.Api.
pub mod Api
pub mod Bind
pub mod ChannelSearch
pub mod Bindings
pub mod StreamChannels
pub mod Submit
pub mod Entry
pub mod Errors
pub mod Pending
pub mod Ordering
pub mod DevicePriorities
pub mod Lifecycle
pub mod Closed
mod Tests
pub mod Buffers
use softgpu.Base.{
  ℕ, zero, suc, ◌+◌, ◌%◌, List, [], Option, none, some, Bool, true, false, not, ltb, ◌==◌,
  if◌then◌else◌,
}
use softgpu.Errno.{Rc, ok, einval, eexist, efault, enomem, eio, ebadf, enotty, enosys, positive}
use softgpu.Integers.{ℤ, pos, negsuc, ltb_int}

-- sgError_t
pub data SgError : Type 0 where
  sg_ok not_initialized already_initialized invalid_value out_of_memory invalid_address : SgError
  device_error unknown : SgError

-- from_errno
abbrev pub from_errno : Rc → SgError
from_errno ok = sg_ok
from_errno einval = invalid_value
from_errno enomem = out_of_memory
from_errno efault = invalid_address
from_errno ebadf = not_initialized
from_errno eio = device_error
from_errno eexist = invalid_value
from_errno enotty = unknown
from_errno enosys = unknown
from_errno (positive n) = unknown

-- sgFence
pub record SgFence : Type 0 where
  pub engine : ℕ
  pub channel : ℕ
  pub value : ℕ

-- sgStream
pub record Stream : Type 0 where
  pub id : ℕ
  pub ce : ℕ
  pub channel : ℕ
  pub has_tail : Bool
  pub tail : SgFence
  pub extra_waits : List SgFence

-- sgEvent
pub record Event : Type 0 where
  pub recorded : Bool
  pub at : SgFence

-- ChanBind
pub record ChanBind : Type 0 where
  pub priority : ℤ
  pub users : ℕ

abbrev pub no_fence : SgFence
no_fence = record { engine = 0; channel = 0; value = 0 }

-- `new sgStream()`
abbrev pub new_stream : Stream
new_stream = record {
  id = 0;
  ce = 1;
  channel = 0;
  has_tail = false;
  tail = no_fence;
  extra_waits = [];
}

-- `new sgEvent()`
abbrev pub new_event : Event
new_event = record { recorded = false; at = no_fence }

-- The globals, the objects by their addresses (`none` where there is none), and the driver's state.
pub record Runtime (D : Type 0) : Type 0 where
  pub fd : ℤ
  pub managed_coherent : Bool
  pub kmod : Bool
  pub num_engines : ℕ
  pub num_ce : ℕ
  pub num_channels : ℕ
  pub prio_least : ℤ
  pub prio_greatest : ℤ
  pub timeslice_ns : ℕ
  pub sync_flags : ℕ
  pub next_stream_id : ℕ
  pub default_stream : Stream
  pub bind : ℕ → ChanBind
  pub streams : ℕ → Option Stream
  pub events : ℕ → Option Event
  pub drv : D

-- `g_fd >= 0`
abbrev pub is_open : {D : Type 0} → Runtime D → Bool
is_open rt = not (ltb_int rt.fd (pos 0))
