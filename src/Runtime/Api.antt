-- ===== src/Runtime/Api.antt =====
-- The requests that the runtime makes of the driver, as interfaces over its state `D`.
use softgpu.Base.{ℕ, ◌<◌, ◌≡◌, ◌≢◌, ◌⊎◌, Option}
use softgpu.Errno.{Rc, ok}
use softgpu.Integers.{ℤ}
use softgpu.Abi.{SubmitArgs, SubmitOut, WaitArgs, QueryArgs}

-- SG_IOC_SET_PRIORITY: it takes each channel of each engine, and each priority in a range.
pub record Priorities (D : Type 0) : Type 1 where
  pub set_priority : ℕ → ℕ → ℤ → D → Rc × D
  pub engines : D → ℕ
  pub channels : D → ℕ
  pub priority : D → ℕ → ℕ → ℤ
  pub InRange : ℤ → Type 0
  pub accepts :
      (e c : ℕ) (p : ℤ) (d : D)
      → e < engines d
      → c < channels d
      → InRange p
      → (set_priority e c p d).0 ≡ ok
  pub sets :
      (e c : ℕ) (p : ℤ) (d : D)
      → (set_priority e c p d).0 ≡ ok
      → priority (set_priority e c p d).1 e c ≡ p
  pub keeps :
      (e c : ℕ) (p : ℤ) (d : D) (i j : ℕ)
      → (i ≢ e) ⊎ (j ≢ c)
      → priority (set_priority e c p d).1 i j ≡ priority d i j
  pub keeps_engines : (e c : ℕ) (p : ℤ) (d : D) → engines (set_priority e c p d).1 ≡ engines d
  pub keeps_channels : (e c : ℕ) (p : ℤ) (d : D) → channels (set_priority e c p d).1 ≡ channels d

-- SG_IOC_SUBMIT and SG_IOC_WAIT.
pub record Queues (D : Type 0) : Type 0 where
  pub submit : SubmitArgs → D → Rc × SubmitOut × D
  pub wait : WaitArgs → D → Rc × D

-- What `sg_drv_open` returns: a descriptor, or a negative errno, which is not 0.
pub data Opened : Type 0 where
  opened : ℕ → Opened
  refused : Rc → Opened

-- sg_drv_open, SG_IOC_QUERY and sg_drv_close.
pub record Contexts (D : Type 0) : Type 0 where
  pub drv_open : D → Opened × D
  pub negative : (d : D) (rc : Rc) → (drv_open d).0 ≡ refused rc → rc ≢ ok
  pub query : ℕ → D → Rc × QueryArgs × D
  pub drv_close : ℤ → D → Rc × D

-- SG_IOC_ALLOC, SG_IOC_FREE, SG_IOC_ALLOC_MANAGED, SG_IOC_PIN, SG_IOC_UNPIN and SG_IOC_UFFD_HOLD;
-- `memalign` and `release` are posix_memalign and free of the C library: an address, or `none`.
pub record Buffers (D : Type 0) : Type 0 where
  pub alloc : ℕ → D → Rc × ℕ × D
  pub free : ℕ → D → Rc × D
  pub alloc_managed : ℕ → D → Rc × (ℕ × ℕ) × D
  pub pin : ℕ → ℕ → D → Rc × D
  pub unpin : ℕ → D → Rc × D
  pub hold : ℕ → D → D
  pub memalign : ℕ → ℕ → D → Option ℕ × D
  pub release : ℕ → D → D
