-- ===== src/Errno.antt =====
-- The return codes of the driver and the device: 0, each `-errno` that the sources return, and the positive
-- codes inside device.cpp.
use softgpu.Base.{ℕ}

pub data Rc : Type 0 where
  ok einval eexist efault enomem eio ebadf enotty enosys : Rc
  positive : ℕ → Rc
