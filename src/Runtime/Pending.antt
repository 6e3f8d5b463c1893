-- ===== src/Runtime/Pending.antt =====
-- What a stream still owes before its next command, and `stream_submit` as one run over it.
use softgpu.Base.{
  ℕ, ◌≡◌, ◌≢◌, refl, ap, ◌∙◌, ◌⊎◌, inl, inr, List, [], ◌∷◌, ◌++◌, true, false, if◌then◌else◌,
  Bool-cases,
}
use softgpu.Errno.{Rc, ok}
use softgpu.Device.{Command}
use softgpu.Device.Runlist.{is_ok}
use softgpu.Abi.{SubmitArgs, SubmitOut}
use softgpu.Runtime.{from_errno, SgFence, Stream, Runtime, is_open}
use softgpu.Runtime.Api.{Queues}
use softgpu.Runtime.Errors.{is_ok→ok, is_ok→ne}
use softgpu.Runtime.Submit.{
  wait_command, same_ring, request, Submitted, raw_submit, wait_on, wait_on_all, submit_last,
  submit_after, stream_submit, is_direct,
}

-- The wait for one fence, when it is not on the same ring.
unfoldable pub wait_requests : ℕ → ℕ → List SgFence → List SubmitArgs
wait_requests engine channel [] = []
wait_requests engine channel (f ∷ fs) =
    let rest = wait_requests engine channel fs in
    if same_ring engine channel f then rest else request engine channel (wait_command f) 0 ∷ rest

-- The fences that the stream's next command must come after.
abbrev pub owed : Stream → List SgFence
owed s = if s.has_tail then s.extra_waits ++ s.tail ∷ [] else s.extra_waits

-- Submitting a list in order, until one is refused: the last return code and the state.
unfoldable pub submit_each : {D : Type 0} → Queues D → List SubmitArgs → D → Rc × D
submit_each q [] d = (ok, d)
submit_each q (a ∷ more) d =
    let (rc, o, d') = q.submit a d in
    let rest = submit_each q more d' in if is_ok rc then rest else (rc, d')

-- The reference: all waits that are owed, then the command.
unfoldable pub submit_in_order :
    {D : Type 0} → Queues D → Stream → ℕ → Command → ℕ → D → Rc × SubmitOut × D
unfolding submit_each wait_requests
submit_in_order q s engine cmd host_ptr d =
    let (rc, d') = submit_each q (wait_requests engine s.channel (owed s)) d in
    let last = q.submit (request engine s.channel cmd host_ptr) d' in
    if is_ok rc then last else (rc, record { fence = 0; out_flags = 0 }, d')

-- What `stream_submit` did, by the reference's result: its return value and the driver's state are the
-- reference's, and the stream either has the command's fence as its tail and owes nothing else, or
-- is left with its tail.
abbrev pub Sent : {D : Type 0} → Runtime D → Stream → ℕ → Rc × SubmitOut × D → Submitted D → Type 0
Sent rt s engine (rc, o, d) r =
    (r.err ≡ from_errno rc)
    × (r.rt ≡ record rt { drv = d })
    × (r.stream.channel ≡ s.channel)
    × (((rc ≡ ok)
          × (r.fence ≡ o.fence)
          × (r.direct ≡ is_direct o)
          × (r.stream.has_tail ≡ true)
          × (r.stream.tail ≡ record { engine = engine; channel = s.channel; value = o.fence })
          × (r.stream.extra_waits ≡ []))
        ⊎ ((rc ≢ ok)
            × (r.fence ≡ 0)
            × (r.direct ≡ false)
            × (r.stream.has_tail ≡ s.has_tail)
            × (r.stream.tail ≡ s.tail)))

pub wait_requests-++ :
    (e c : ℕ) (xs ys : List SgFence)
    → wait_requests e c (xs ++ ys) ≡ wait_requests e c xs ++ wait_requests e c ys
unfolding wait_requests
wait_requests-++ e c [] ys = refl
wait_requests-++ e c (f ∷ xs) ys = elim (Bool-cases (same_ring e c f)) [
  | inl q ↦ rw q (wait_requests-++ e c xs ys)
  | inr q ↦ rw q (ap (λ x. request e c (wait_command f) 0 ∷ x) (wait_requests-++ e c xs ys))
]

module _ {D : Type 0} (queues : Queues D) where
  pub submit_each-++ :
      (xs ys : List SubmitArgs) (d : D)
      → submit_each queues (xs ++ ys) d ≡ (
          let (rc, d') = submit_each queues xs d in
          let rest = submit_each queues ys d' in if is_ok rc then rest else (rc, d'))
  unfolding submit_each
  submit_each-++ [] ys d = refl
  submit_each-++ (a ∷ xs) ys d = elim (Bool-cases (is_ok (queues.submit a d).0)) [
    | inl q ↦ rw q (submit_each-++ xs ys (queues.submit a d).2)
    | inr q ↦ rw (q, q) refl
  ]

  wait_on_all-submit_each :
      (e c : ℕ) (fs : List SgFence) (rt : Runtime D)
      → let (rc, d) = submit_each queues (wait_requests e c fs) rt.drv in
        wait_on_all queues e c fs rt ≡ (rc, record rt { drv = d })
  unfolding wait_on_all wait_on raw_submit submit_each wait_requests
  wait_on_all-submit_each e c [] rt = refl
  wait_on_all-submit_each e c (f ∷ fs) rt = elim (Bool-cases (same_ring e c f)) [
    | inl q ↦ rw q (wait_on_all-submit_each e c fs rt)
    | inr q ↦
        let sent = queues.submit (request e c (wait_command f) 0) rt.drv in
        elim (Bool-cases (is_ok sent.0)) [
          | inl k ↦ rw (q, k) (wait_on_all-submit_each e c fs (record rt { drv = sent.2 }))
          | inr k ↦ rw (q, k) refl
        ]
  ]

  wait_on-submit_each :
      (e c : ℕ) (f : SgFence) (rt : Runtime D)
      → let (rc, d) = submit_each queues (wait_requests e c (f ∷ [])) rt.drv in
        wait_on queues e c f rt ≡ (rc, record rt { drv = d })
  unfolding wait_on raw_submit submit_each wait_requests
  wait_on-submit_each e c f rt = elim (Bool-cases (same_ring e c f)) [
    | inl q ↦ rw q refl
    | inr q ↦
        let sent = queues.submit (request e c (wait_command f) 0) rt.drv in
        elim (Bool-cases (is_ok sent.0)) [
          | inl k ↦ rw (q, k) (ap (λ x. (x, record rt { drv = sent.2 })) (is_ok→ok sent.0 k))
          | inr k ↦ rw (q, k) refl
        ]
  ]

  submit_last-Sent :
      (rt : Runtime D) (s : Stream) (engine : ℕ) (cmd : Command) (host_ptr : ℕ) (d : D)
      → Sent rt s engine (queues.submit (request engine s.channel cmd host_ptr) d) (
          submit_last queues
            (record rt { drv = d })
            (record s { extra_waits = [] })
            engine
            cmd
            host_ptr)
  unfolding submit_last raw_submit
  submit_last-Sent rt s engine cmd host_ptr d =
      let rc = (queues.submit (request engine s.channel cmd host_ptr) d).0 in
      elim (Bool-cases (is_ok rc)) [
        | inl k ↦ rw k (refl, refl, refl, inl (is_ok→ok rc k, refl, refl, refl, refl, refl))
        | inr k ↦ rw k (refl, refl, refl, inr (is_ok→ne rc k, refl, refl, refl, refl))
      ]

  -- On an open runtime, `stream_submit` does what the reference does: it submits the waits that the
  -- stream owes, in order, and then the command, and stops at the first request that is refused.
  pub stream_submit-Sent :
      (rt : Runtime D) (s : Stream) (engine : ℕ) (cmd : Command) (host_ptr : ℕ)
      → is_open rt ≡ true
      → Sent rt s engine
          (submit_in_order queues s engine cmd host_ptr rt.drv)
          (stream_submit queues rt s engine cmd host_ptr)
  unfolding stream_submit submit_after submit_in_order
  stream_submit-Sent rt s engine cmd host_ptr h =
      let c = s.channel in
      let all = wait_on_all-submit_each engine c s.extra_waits rt in
      let first = submit_each queues (wait_requests engine c s.extra_waits) rt.drv in
      let last = wait_on-submit_each engine c s.tail (record rt { drv = first.1 }) in
      let joined =
        ap (λ x. submit_each queues x rt.drv)
          (wait_requests-++ engine c s.extra_waits (s.tail ∷ []))
        ∙ submit_each-++ (wait_requests engine c s.extra_waits)
            (wait_requests engine c (s.tail ∷ [])) rt.drv in
      let second = submit_each queues (wait_requests engine c (s.tail ∷ [])) first.1 in
      elim (Bool-cases s.has_tail) [
        | inr t ↦ elim (Bool-cases (is_ok first.0)) [
          | inl k ↦ rw (h, all, t, k) (rw t at (submit_last-Sent rt s engine cmd host_ptr first.1))
          | inr k ↦
              rw (h, all, t, k) (refl, refl, refl, inr (is_ok→ne first.0 k, refl, refl, refl, refl))
        ]
        | inl t ↦ elim (Bool-cases (is_ok first.0)) [
          | inl k ↦ elim (Bool-cases (is_ok second.0)) [
            | inl m ↦
                rw (h, all, t, joined, k, last, m)
                  (rw t at (submit_last-Sent rt s engine cmd host_ptr second.1))
            | inr m ↦
                rw (h, all, t, joined, k, last, m)
                  (refl, refl, refl, inr (is_ok→ne second.0 m, refl, refl, refl, refl))
          ]
          | inr k ↦
              rw (h, all, t, joined, k, k)
                (refl, refl, refl, inr (is_ok→ne first.0 k, refl, refl, refl, refl))
        ]
      ]
