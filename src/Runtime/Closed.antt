-- ===== src/Runtime/Closed.antt =====
-- sgInit binds the default stream, and after sgShutdown no call reaches the driver.
use softgpu.Base.{
  ℕ, ◌+◌, ◌-◌, ◌/◌, ◌%◌, ◌^◌, ◌≤◌, ◌<◌, ◌≡◌, ◌≢◌, refl, sym, ap, ◌∙◌, inl, inr, [], ◌∷◌, Option,
  none, some, true, false, ◌==◌, update, eq_or_ne, ne→==, Bool-cases, arith,
}
use native.Mathlib.Nat.{mul-mod_left}
use softgpu.Errno.{Rc, ok}
use softgpu.Integers.{ℤ, pos}
use softgpu.Device.{Command}
use softgpu.Device.Runlist.{is_ok}
use softgpu.Runtime.{SgError, sg_ok, not_initialized, Stream, Runtime, is_open}
use softgpu.Runtime.Errors.{is_ok→ne, from_errno→ok}
use softgpu.Runtime.Api.{Priorities, Queues, Contexts, Buffers, Opened, opened, refused}
use softgpu.Runtime.Bind.{create_stream, stream_destroy}
use softgpu.Runtime.ChannelSearch.{uses}
use softgpu.Runtime.Bindings.{IsBound}
use softgpu.Runtime.Submit.{stream_submit, submit_on, resolve, store_stream}
use softgpu.Runtime.Entry.{
  stream_synchronize, event_destroy, event_record, event_synchronize, stream_wait_event,
  device_synchronize,
}
use softgpu.Runtime.Lifecycle.{abi_version, first_bind, adopt, init_opened, init, shutdown}
use softgpu.Runtime.Buffers.{
  host_page, round_to_page, malloc, free, malloc_managed, malloc_host, free_host, host_register,
  host_unregister, hold_host_faults,
}

-- The call returns SG_ERR_NOT_INITIALIZED and changes nothing.
abbrev pub Refuses : {D : Type 0} → Runtime D → SgError × Runtime D → Type 0
Refuses rt r = (r.0 ≡ not_initialized) × (r.1 ≡ rt)

first_bind-users : (j : ℕ) → (first_bind j).users ≡ uses j ((0, pos 0) ∷ [])
unfolding update uses
first_bind-users j = elim (eq_or_ne j 0) [
  | inl q ↦ rw q refl
  | inr q ↦ rw (ne→== j 0 q, ne→== 0 j (λ s. q (sym s))) refl
]

first_bind-priority : (j : ℕ) → (first_bind j).priority ≡ pos 0
unfolding update
first_bind-priority j = elim (Bool-cases (j == 0)) [ inl q ↦ rw q refl | inr q ↦ rw q refl ]

store_stream-drv :
    {D : Type 0} (rt : Runtime D) (handle : Option ℕ) (s : Stream)
    → (store_stream handle s rt).drv ≡ rt.drv
unfolding store_stream
store_stream-drv rt none s = refl
store_stream-drv rt (some address) s = refl

module _ {D : Type 0} (api : Priorities D) (queues : Queues D) (contexts : Contexts D)
    (buffers : Buffers D) where
  closed-Refuses :
      (rt : Runtime D) (handle : Option ℕ) (engine host_ptr a b c : ℕ) (p : ℤ) (cmd : Command)
      → is_open rt ≡ false
      → Refuses rt (shutdown contexts rt)
        × Refuses rt (stream_destroy api rt a)
        × (create_stream api rt a p ≡ (not_initialized, none, rt))
        × Refuses rt (stream_synchronize queues rt handle)
        × Refuses rt (event_destroy rt a)
        × Refuses rt (event_record queues rt a handle)
        × Refuses rt (event_synchronize queues rt a)
        × Refuses rt (stream_wait_event rt handle a)
        × Refuses rt (device_synchronize queues rt)
        × ((submit_on queues rt handle engine cmd host_ptr).0 ≡ not_initialized)
        × ((submit_on queues rt handle engine cmd host_ptr).1.drv ≡ rt.drv)
        × (malloc buffers rt a b ≡ (not_initialized, none, rt))
        × Refuses rt (free buffers rt a)
        × (malloc_managed buffers rt a b c ≡ (not_initialized, none, rt))
        × (malloc_host buffers rt a b ≡ (not_initialized, none, rt))
        × Refuses rt (free_host buffers queues rt a)
        × Refuses rt (host_register buffers rt a b)
        × Refuses rt (host_unregister buffers rt a)
        × (hold_host_faults buffers rt a ≡ rt)
  unfolding shutdown stream_destroy create_stream stream_synchronize event_destroy event_record
      event_synchronize stream_wait_event device_synchronize submit_on stream_submit malloc free
      malloc_managed malloc_host free_host host_register host_unregister hold_host_faults
  closed-Refuses rt handle engine host_ptr a b c p cmd h =
      let kept = store_stream-drv rt handle (resolve rt handle) in
      rw h (
        (refl, refl),
        (refl, refl),
        refl,
        (refl, refl),
        (refl, refl),
        (refl, refl),
        (refl, refl),
        (refl, refl),
        (refl, refl),
        refl,
        kept,
        refl,
        (refl, refl),
        refl,
        refl,
        (refl, refl),
        (refl, refl),
        (refl, refl),
        refl,
      )

  -- Once sgShutdown has been called on an open runtime, a second sgShutdown, the calls on streams and
  -- events, the submissions on a stream, and the calls that allocate, free, pin or unpin memory all
  -- return SG_ERR_NOT_INITIALIZED and leave the runtime and the driver as they are.
  pub shutdown-Refuses :
      (rt : Runtime D) (handle : Option ℕ) (engine host_ptr a b c : ℕ) (p : ℤ) (cmd : Command)
      → is_open rt ≡ true
      → let rt' = (shutdown contexts rt).1 in
        Refuses rt' (shutdown contexts rt')
        × Refuses rt' (stream_destroy api rt' a)
        × (create_stream api rt' a p ≡ (not_initialized, none, rt'))
        × Refuses rt' (stream_synchronize queues rt' handle)
        × Refuses rt' (event_destroy rt' a)
        × Refuses rt' (event_record queues rt' a handle)
        × Refuses rt' (event_synchronize queues rt' a)
        × Refuses rt' (stream_wait_event rt' handle a)
        × Refuses rt' (device_synchronize queues rt')
        × ((submit_on queues rt' handle engine cmd host_ptr).0 ≡ not_initialized)
        × ((submit_on queues rt' handle engine cmd host_ptr).1.drv ≡ rt'.drv)
        × (malloc buffers rt' a b ≡ (not_initialized, none, rt'))
        × Refuses rt' (free buffers rt' a)
        × (malloc_managed buffers rt' a b c ≡ (not_initialized, none, rt'))
        × (malloc_host buffers rt' a b ≡ (not_initialized, none, rt'))
        × Refuses rt' (free_host buffers queues rt' a)
        × Refuses rt' (host_register buffers rt' a b)
        × Refuses rt' (host_unregister buffers rt' a)
        × (hold_host_faults buffers rt' a ≡ rt')
  unfolding shutdown
  shutdown-Refuses rt handle engine host_ptr a b c p cmd h =
      closed-Refuses (shutdown contexts rt).1 handle engine host_ptr a b c p cmd (rw h refl)

module _ {D : Type 0} (contexts : Contexts D) where
  opened-bind :
      (rt rt' : Runtime D) (o : Opened)
      → ((rc : Rc) → o ≡ refused rc → rc ≢ ok)
      → init_opened contexts rt o ≡ (sg_ok, rt')
      → rt'.bind ≡ first_bind
  unfolding init_opened adopt
  opened-bind rt rt' (refused rc) n h = absurd (n rc refl (from_errno→ok rc (ap (λ x. x.0) h)))
  opened-bind rt rt' (opened fd) n h =
      let (rc, q, d) = contexts.query fd rt.drv in
      elim (Bool-cases (is_ok rc)) [
        | inr k ↦ absurd (is_ok→ne rc k (from_errno→ok rc (ap (λ x. x.0) (rw k at h))))
        | inl k ↦ elim (Bool-cases (q.abi_version == abi_version)) [
          | inr v ↦ cc (rw (k, v) at h)
          | inl v ↦ ap (λ x. x.1.bind) (sym (rw (k, v) at h))
        ]
      ]

  init-bind : (rt rt' : Runtime D) → init contexts rt ≡ (sg_ok, rt') → rt'.bind ≡ first_bind
  unfolding init
  init-bind rt rt' h =
      let (o, d) = contexts.drv_open rt.drv in
      elim (Bool-cases (is_open rt)) [
        | inl k ↦ cc (rw k at h)
        | inr k ↦ opened-bind (record rt { drv = d }) rt' o (contexts.negative rt.drv) (rw k at h)
      ]

  -- sgInit that succeeds, with a driver that has at least one channel, whose engines and channels are
  -- those that the query told, and all of whose channels have the default priority, leaves the default
  -- stream bound to channel 0 and no other stream bound.
  pub init-IsBound :
      (api : Priorities D) (rt rt' : Runtime D)
      → init contexts rt ≡ (sg_ok, rt')
      → api.engines rt'.drv ≡ rt'.num_engines
      → api.channels rt'.drv ≡ rt'.num_channels
      → 0 < rt'.num_channels
      → ((e c : ℕ) → api.priority rt'.drv e c ≡ pos 0)
      → IsBound api rt' ((0, pos 0) ∷ [])
  init-IsBound api rt rt' h e c l q =
      let b = init-bind rt rt' h in
      record {
        counted = λ j. ap (λ x. (x j).users) b ∙ first_bind-users j;
        agree = ((l, ap (λ x. (x 0).priority) b ∙ first_bind-priority 0), tt);
        programmed = λ i j a k. q i j ∙ sym (ap (λ x. (x j).priority) b ∙ first_bind-priority j);
        engines = e;
        channels = c;
      }

-- The size that sgMallocHost pins is a number of whole pages that holds the bytes, less than a page
-- more than them, unless the bytes come within a page of 2^64.
pub round_to_page_lem :
    (bytes : ℕ)
    → bytes + host_page ≤ 2 ^ 64
    → let r = round_to_page bytes in (r % host_page ≡ 0) × (bytes ≤ r) × (r < bytes + host_page)
unfolding round_to_page
round_to_page_lem bytes h = (
  mul-mod_left ((bytes + host_page - 1) % 2 ^ 64 / host_page) host_page,
  omega (arith, h),
  omega (arith, h),
)
