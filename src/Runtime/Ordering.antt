-- ===== src/Runtime/Ordering.antt =====
-- Events order streams: a command submitted after a wait for an event comes after what the event recorded.
use softgpu.Base.{
  ℕ, ◌≡◌, refl, sym, ap, ◌∙◌, ◌⊎◌, inl, inr, List, [], ◌∷◌, ◌++◌, Option, none, some, true, false,
  ◌==◌, update, update_self, Bool-cases, Option-cases,
}
use softgpu.Errno.{Rc, ok}
use softgpu.Abi.{SubmitArgs}
use softgpu.Device.{Command}
use softgpu.Device.Runlist.{is_ok}
use softgpu.Runtime.{SgError, from_errno, sg_ok, SgFence, Stream, Event, Runtime, is_open}
use softgpu.Runtime.Api.{Queues}
use softgpu.Runtime.Errors.{is_ok→ok, from_errno→ok, is_sg_ok→ne, is_sg_ok→ok}
use softgpu.Runtime.Submit.{
  Submitted, make_cmd, wait_command, same_ring, request, stream_submit, resolve, store_stream,
}
use softgpu.Runtime.Entry.{
  is_sg_ok, op_nop, record_engine, record_at, event_record, event_at, add_wait, stream_wait_event,
}
use softgpu.Runtime.Pending.{
  owed, submit_each, submit_each-++, wait_requests-++, wait_requests, submit_in_order,
  stream_submit-Sent,
}

-- The object of a handle is what was stored there, whatever happens to the events.
resolve_stored :
    {D : Type 0} (rt : Runtime D) (handle : Option ℕ) (s : Stream) (f : ℕ → Option Event)
    → resolve (record (store_stream handle s rt) { events = f }) handle ≡ s
unfolding resolve store_stream
resolve_stored rt none s f = refl
resolve_stored rt (some address) s f = rw (update_self rt.streams address (some s)) refl

is_open-store_stream :
    {D : Type 0} (rt : Runtime D) (handle : Option ℕ) (s : Stream)
    → is_open (store_stream handle s rt) ≡ is_open rt
unfolding store_stream
is_open-store_stream rt none s = refl
is_open-store_stream rt (some address) s = refl

resolve-store_stream :
    {D : Type 0} (rt : Runtime D) (handle : Option ℕ) (s : Stream)
    → resolve (store_stream handle s rt) handle ≡ s
unfolding resolve store_stream
resolve-store_stream rt none s = refl
resolve-store_stream rt (some address) s = rw (update_self rt.streams address (some s)) refl

-- A fence that the stream owes, between others.
wait_requests_middle :
    (engine channel : ℕ) (xs ys : List SgFence) (f : SgFence)
    → same_ring engine channel f ≡ false
    → wait_requests engine channel (xs ++ f ∷ ys)
      ≡ wait_requests engine channel xs
        ++ request engine channel (wait_command f) 0 ∷ wait_requests engine channel ys
unfolding wait_requests
wait_requests_middle engine channel xs ys f q =
    wait_requests-++ engine channel xs (f ∷ ys) ∙ rw q refl

append_middle :
    {A : Type 0} (xs ys : List A) (w a : A) → (xs ++ w ∷ ys) ++ a ∷ [] ≡ xs ++ w ∷ (ys ++ a ∷ [])
append_middle [] ys w a = refl
append_middle (x ∷ xs) ys w a = ap (λ l. x ∷ l) (append_middle xs ys w a)

append_snoc : {A : Type 0} (xs : List A) (x y : A) → (xs ++ x ∷ []) ++ y ∷ [] ≡ xs ++ x ∷ y ∷ []
append_snoc [] x y = refl
append_snoc (z ∷ xs) x y = ap (λ l. z ∷ l) (append_snoc xs x y)

owed-request :
    (engine : ℕ) (s : Stream) (xs : List SgFence) (f : SgFence)
    → let s' = record s { extra_waits = xs ++ f ∷ [] } in
      (same_ring engine s.channel f ≡ true)
      ⊎ ((ys : List SubmitArgs) × (zs : List SubmitArgs) × (wait_requests engine s.channel (owed s')
            ≡ ys ++ request engine s.channel (wait_command f) 0 ∷ zs))
owed-request engine s xs f = elim (Bool-cases (same_ring engine s.channel f)) [
  | inl q ↦ inl q
  | inr q ↦ elim (Bool-cases s.has_tail) [
    | inl t ↦
        rw (t, append_snoc xs f s.tail)
          (inr (
            wait_requests engine s.channel xs,
            wait_requests engine s.channel (s.tail ∷ []),
            wait_requests_middle engine s.channel xs (s.tail ∷ []) f q,
          ))
    | inr t ↦ rw t (
        inr (
          wait_requests engine s.channel xs,
          wait_requests engine s.channel [],
          wait_requests_middle engine s.channel xs [] f q,
        ))
  ]
]

module _ {D : Type 0} (queues : Queues D) where
  -- What a successful record leaves: the event holds the fence that is the stream's tail.
  record_at-tail :
      (rt : Runtime D) (address : ℕ) (handle : Option ℕ) (v : Event)
      → is_open rt ≡ true
      → (record_at queues rt address handle (some v)).0 ≡ sg_ok
      → let rt' = (record_at queues rt address handle (some v)).1 in
        let s = resolve rt' handle in
        (is_open rt' ≡ true)
        × (s.has_tail ≡ true)
        × (rt'.events address ≡ some (record { recorded = true; at = s.tail }))
  unfolding record_at
  record_at-tail rt address handle v h e =
      let s = resolve rt handle in
      let engine = record_engine s in
      let r = stream_submit queues rt s engine (make_cmd op_nop) 0 in
      let (err, same, channel, done) =
        stream_submit-Sent queues rt s engine (make_cmd op_nop) 0 h in
      elim (Bool-cases (is_sg_ok r.err)) [
        | inr k ↦ absurd (is_sg_ok→ne r.err k (rw k at e))
        | inl k ↦
            let rc = (submit_in_order queues s engine (make_cmd op_nop) 0 rt.drv).0 in
            let accepted : rc ≡ ok = from_errno→ok rc (sym err ∙ is_sg_ok→ok r.err k) in
            let rt' = store_stream handle r.stream r.rt in
            let fence : ℕ → SgFence =
              λ x. record { engine = engine; channel = s.channel; value = x } in
            let held : Event = record { recorded = true; at = fence r.fence } in
            let f = update rt'.events address (some held) in
            let found = resolve_stored r.rt handle r.stream f in
            let opened = is_open-store_stream r.rt handle r.stream ∙ ap (λ x. is_open x) same ∙ h in
            elim done [
              | inr d ↦ absurd (d.0 accepted)
              | inl d ↦
                  let at = ap fence d.1 ∙ sym d.4 ∙ ap (λ x. x.tail) (sym found) in
                  rw k (
                    opened,
                    ap (λ x. x.has_tail) found ∙ d.3,
                    update_self rt'.events address (some held)
                        ∙ ap (λ x. some (record { recorded = true; at = x })) at,
                  )
            ]
      ]

  event_record-tail :
      (rt : Runtime D) (address : ℕ) (handle : Option ℕ)
      → is_open rt ≡ true
      → (event_record queues rt address handle).0 ≡ sg_ok
      → let rt' = (event_record queues rt address handle).1 in
        let s = resolve rt' handle in
        (is_open rt' ≡ true)
        × (s.has_tail ≡ true)
        × (event_at rt' address ≡ some (record { recorded = true; at = s.tail }))
  unfolding event_record event_at
  event_record-tail rt address handle h e = elim (Bool-cases (address == 0)) [
    | inl z ↦ cc (rw (h, z) at e)
    | inr z ↦ elim (Option-cases (rt.events address)) [
      | inl q ↦ cc (rw (h, z, q) at e)
      | inr (v, q) ↦
          let (a, b, c) = record_at-tail rt address handle v h (rw (h, z, q) at e) in
          rw (h, z, q) (a, b, c)
    ]
  ]

  -- The reference's run, as one list: the waits and the command.
  submit_in_order-submit_each :
      (s : Stream) (engine : ℕ) (cmd : Command) (host_ptr : ℕ) (d : D)
      → let (rc, o, d') = submit_in_order queues s engine cmd host_ptr d in
        submit_each queues
          (wait_requests engine s.channel (owed s) ++ request engine s.channel cmd host_ptr ∷ [])
          d
        ≡ (rc, d')
  unfolding submit_in_order submit_each
  submit_in_order-submit_each s engine cmd host_ptr d =
      let waits = wait_requests engine s.channel (owed s) in
      let a = request engine s.channel cmd host_ptr in
      let first = submit_each queues waits d in
      let last = queues.submit a first.1 in
      let joined = submit_each-++ queues waits (a ∷ []) d in
      elim (Bool-cases (is_ok first.0)) [
        | inr k ↦ rw (joined, k) refl
        | inl k ↦ elim (Bool-cases (is_ok last.0)) [
          | inl m ↦ rw (joined, k, m) (ap (λ x. (x, last.2)) (sym (is_ok→ok last.0 m)))
          | inr m ↦ rw (joined, k, m) refl
        ]
      ]

  -- The requests of a stream's next command, with the wait for `at` before the command unless it is on
  -- the command's ring: `stream_submit` makes them in this order, until one is refused.
  abbrev pub Waits : Runtime D → Stream → ℕ → Command → ℕ → SgFence → Submitted D → Type 0
  Waits rt s engine cmd host_ptr at r =
      (same_ring engine s.channel at ≡ true)
      ⊎ ((xs : List SubmitArgs) × (ys : List SubmitArgs) × (let all =
              xs
              ++ request engine s.channel (wait_command at) 0
                ∷ (ys ++ request engine s.channel cmd host_ptr ∷ []) in
            let (rc, d) = submit_each queues all rt.drv in
            (r.err ≡ from_errno rc) × (r.rt ≡ record rt { drv = d })))

  run_middle :
      (waits xs ys : List SubmitArgs) (w a : SubmitArgs) (rc : Rc) (d d' : D)
      → waits ≡ xs ++ w ∷ ys
      → submit_each queues (waits ++ a ∷ []) d ≡ (rc, d')
      → submit_each queues (xs ++ w ∷ (ys ++ a ∷ [])) d ≡ (rc, d')
  run_middle waits xs ys w a rc d d' q h =
      let list = ap (λ x. x ++ a ∷ []) q ∙ append_middle xs ys w a in
      ap (λ x. submit_each queues x d) (sym list) ∙ h

  -- The result of a run, as the fields of what was submitted.
  ran :
      (rt rt' : Runtime D) (err : SgError) (all : List SubmitArgs) (rc : Rc) (d : D)
      → err ≡ from_errno rc
      → rt' ≡ record rt { drv = d }
      → submit_each queues all rt.drv ≡ (rc, d)
      → let (rc', d') = submit_each queues all rt.drv in
        (err ≡ from_errno rc') × (rt' ≡ record rt { drv = d' })
  ran rt rt' err all rc d e r h = rw h (e, r)

  stream_submit-Waits :
      (rt : Runtime D) (s : Stream) (engine : ℕ) (cmd : Command) (host_ptr : ℕ) (at : SgFence)
      (xs ys : List SubmitArgs)
      → is_open rt ≡ true
      → wait_requests engine s.channel (owed s)
        ≡ xs ++ request engine s.channel (wait_command at) 0 ∷ ys
      → Waits rt s engine cmd host_ptr at (stream_submit queues rt s engine cmd host_ptr)
  stream_submit-Waits rt s engine cmd host_ptr at xs ys h q =
      let r = stream_submit queues rt s engine cmd host_ptr in
      let sent = stream_submit-Sent queues rt s engine cmd host_ptr h in
      let w = request engine s.channel (wait_command at) 0 in
      let a = request engine s.channel cmd host_ptr in
      let o = submit_in_order queues s engine cmd host_ptr rt.drv in
      let run =
        run_middle (wait_requests engine s.channel (owed s)) xs ys w a o.0 rt.drv o.2 q
          (submit_in_order-submit_each s engine cmd host_ptr rt.drv) in
      inr (xs, ys, ran rt r.rt r.err (xs ++ w ∷ (ys ++ a ∷ [])) o.0 o.2 sent.0 sent.1 run)

  -- After an event is recorded on one stream, successfully, and another or the same stream is made to
  -- wait for it, `stream_submit` of the second stream's next command, on any engine, submits a WAIT_FENCE
  -- for the first stream's last command before the command, among the stream's other waits, in one run
  -- that ends at the first request that is refused; unless the command is on that fence's own ring.
  pub stream_wait_event-event_record :
      (rt : Runtime D) (address : ℕ) (from to : Option ℕ) (engine : ℕ) (cmd : Command)
      (host_ptr : ℕ)
      → is_open rt ≡ true
      → (event_record queues rt address from).0 ≡ sg_ok
      → let rt' = (event_record queues rt address from).1 in
        let (e, rt'') = stream_wait_event rt' to address in
        let s = resolve rt'' to in
        let at = (resolve rt' from).tail in
        (e ≡ sg_ok)
        × Waits rt'' s engine cmd host_ptr at (stream_submit queues rt'' s engine cmd host_ptr)
  unfolding stream_wait_event add_wait
  stream_wait_event-event_record rt address from to engine cmd host_ptr h e =
      let (opened, _, found) = event_record-tail rt address from h e in
      let rt' = (event_record queues rt address from).1 in
      let at = (resolve rt' from).tail in
      let s = resolve rt' to in
      let s' = record s { extra_waits = s.extra_waits ++ at ∷ [] } in
      let held = resolve-store_stream rt' to s' in
      let still = is_open-store_stream rt' to s' ∙ opened in
      rw (opened, found)
        (
          refl,
          rw held (elim (owed-request engine s s.extra_waits at) [
            | inl q ↦ inl q
            | inr (xs, ys, q) ↦
                stream_submit-Waits (store_stream to s' rt') s' engine cmd host_ptr at xs ys still q
          ]),
        )
