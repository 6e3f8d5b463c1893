-- ===== src/Runtime/Errors.antt =====
-- Tests on return codes and errors, and what they say.
use softgpu.Base.{◌≡◌, ◌≢◌, refl, ap, true, false}
use softgpu.Errno.{Rc, ok, einval, eexist, efault, enomem, eio, ebadf, enotty, enosys, positive}
use softgpu.Device.Runlist.{is_ok}
use softgpu.Runtime.{
  SgError, sg_ok, not_initialized, already_initialized, invalid_value, out_of_memory,
  invalid_address, device_error, unknown, from_errno,
}
use softgpu.Runtime.Entry.{is_sg_ok}

pub is_ok→ok : (rc : Rc) → is_ok rc ≡ true → rc ≡ ok
is_ok→ok ok h = refl
is_ok→ok einval h = cc
is_ok→ok eexist h = cc
is_ok→ok efault h = cc
is_ok→ok enomem h = cc
is_ok→ok eio h = cc
is_ok→ok ebadf h = cc
is_ok→ok enotty h = cc
is_ok→ok enosys h = cc
is_ok→ok (positive n) h = cc

pub is_ok→ne : (rc : Rc) → is_ok rc ≡ false → rc ≢ ok
is_ok→ne rc h e = cc (h, ap is_ok e)

pub from_errno→ok : (rc : Rc) → from_errno rc ≡ sg_ok → rc ≡ ok
from_errno→ok ok h = refl
from_errno→ok einval h = cc
from_errno→ok eexist h = cc
from_errno→ok efault h = cc
from_errno→ok enomem h = cc
from_errno→ok eio h = cc
from_errno→ok ebadf h = cc
from_errno→ok enotty h = cc
from_errno→ok enosys h = cc
from_errno→ok (positive n) h = cc

pub is_sg_ok→ne : (e : SgError) → is_sg_ok e ≡ false → e ≢ sg_ok
is_sg_ok→ne e h k = cc (h, ap is_sg_ok k)

pub is_sg_ok→ok : (e : SgError) → is_sg_ok e ≡ true → e ≡ sg_ok
is_sg_ok→ok sg_ok h = refl
is_sg_ok→ok not_initialized h = cc
is_sg_ok→ok already_initialized h = cc
is_sg_ok→ok invalid_value h = cc
is_sg_ok→ok out_of_memory h = cc
is_sg_ok→ok invalid_address h = cc
is_sg_ok→ok device_error h = cc
is_sg_ok→ok unknown h = cc
