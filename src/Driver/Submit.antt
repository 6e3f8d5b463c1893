-- ===== src/Driver/Submit.antt =====
-- src/driver/driver.cpp: `do_submit`, over the driver's other parts as an interface: the rings, the
-- fences, the staging slots, the pinned ranges and the allocations. Offsets into a copy and sizes
-- are 64-bit words.
pub mod Ranges
pub mod Chunks
pub mod Blocks
mod Tests
use softgpu.Base.{
  ℕ, zero, suc, ◌+◌, ◌-◌, ◌*◌, ◌/◌, ◌^◌, ◌≡◌, min, max, List, [], ◌∷◌, ◌++◌, Bool, true, false, not,
  ◌&&◌, ◌||◌, ltb, leb, ◌==◌, if◌then◌else◌, add64, mul64,
}
use softgpu.Errno.{Rc, ok, einval, efault, eio}
use softgpu.Device.{Command, op_wait_fence}
use softgpu.Device.Runlist.{is_ok}
use softgpu.Driver.Staging.{Fence}
use softgpu.Abi.{SubmitArgs, SubmitOut, submit_direct}

-- SG_OP_FILL, ..., SG_OP_COUNT, SG_ENGINE_COMPUTE
abbrev pub op_count : ℕ
op_count = 8

-- is_copy_op
abbrev pub is_copy_op : ℕ → Bool
is_copy_op op = (op == 2) || (op == 3) || (op == 4)

-- is_compute_op
abbrev pub is_compute_op : ℕ → Bool
is_compute_op op = (op == 1) || (op == 5) || (op == 6)

-- What do_submit uses of the driver. `enqueue` and `wait_fence` return when they have waited, and the
-- other threads' work meanwhile is part of what they do to the state; `fill_slot s src n` and
-- `drain_slot s dst n` are the two memcpy calls, and `slot_ptr` a slot's address.
pub record Parts (D : Type 0) : Type 0 where
  pub num_engines : ℕ
  pub num_channels : ℕ
  pub chunk : ℕ
  pub slots : ℕ
  pub sticky : D → Rc
  pub published : ℕ → ℕ → D → ℕ
  pub owns : ℕ → ℕ → D → Bool
  pub pinned : ℕ → ℕ → D → Bool
  pub count_submit : D → D
  pub count_h2d : ℕ → D → D
  pub count_d2h : ℕ → D → D
  pub count_direct : ℕ → D → D
  pub count_staged : ℕ → D → D
  pub enqueue : ℕ → ℕ → Command → D → ℕ × D
  pub wait_fence : Fence → D → Rc × D
  pub acquire_slot : D → (ℕ × Fence) × D
  pub release_slot : ℕ → Fence → D → D
  pub fill_slot : ℕ → ℕ → ℕ → D → D
  pub drain_slot : ℕ → ℕ → ℕ → D → D
  pub slot_ptr : ℕ → ℕ

-- The caller's `fence` and `out_flags` before the call.
abbrev pub no_out : SubmitOut
no_out = record { fence = 0; out_flags = 0 }

-- `issued` and `window` of a pageable SG_OP_COPY_D2H; an `Issued` is its slot and its fence. `done` is
-- an argument of the second loop.
pub record Window : Type 0 where
  pub issued : ℕ
  pub window : List (ℕ × ℕ)

module _ {D : Type 0} (parts : Parts D) where
  abbrev pub fence_at : ℕ → ℕ → ℕ → Fence
  fence_at e c v = record { engine = e; channel = c; value = v }

  -- `if (!allowed) return rc; a.fence = enqueue(...); return 0;`
  unfoldable pub issue_if : Bool → Rc → SubmitArgs → D → Rc × SubmitOut × D
  issue_if allowed rc a d =
      let (f, d') = parts.enqueue a.engine a.channel a.cmd d in
      if allowed then (ok, record no_out { fence = f }, d') else (rc, no_out, d)

  -- The pinned branches: `cmd` has the user's address.
  unfoldable pub issue_direct : ℕ → ℕ → Command → ℕ → D → Rc × SubmitOut × D
  issue_direct e c cmd total d =
      let (f, d') = parts.enqueue e c cmd d in
      (ok, record { fence = f; out_flags = submit_direct }, parts.count_direct total d')

  -- The loop of a pageable SG_OP_COPY_H2D from `off` on: at most n rounds.
  unfoldable pub stage_h2d : ℕ → SubmitArgs → ℕ → SubmitOut → D → Rc × SubmitOut × D
  stage_h2d zero a off out d = (ok, out, d)
  stage_h2d (suc n) a off out d =
      let ((s, prev), d1) = parts.acquire_slot d in
      let size = min parts.chunk (a.cmd.size - off) in
      let (rc, d2) = parts.wait_fence prev d1 in
      let d3 = parts.fill_slot s (add64 a.host_ptr off) size d2 in
      let cmd = record (a.cmd) {
        src0 = parts.slot_ptr s;
        dst = add64 a.cmd.dst off;
        size = size;
      } in
      let (f, d4) = parts.enqueue a.engine a.channel cmd d3 in
      let d5 = parts.release_slot s (fence_at a.engine a.channel f) d4 in
      let rest = stage_h2d n a (add64 off parts.chunk) (record no_out { fence = f }) d5 in
      if ltb off a.cmd.size
      then (if is_ok rc then rest else (rc, out, parts.release_slot s prev d2))
      else (ok, out, d)

  -- `case SG_OP_COPY_H2D`
  unfoldable pub copy_h2d : SubmitArgs → D → Rc × SubmitOut × D
  unfolding issue_direct stage_h2d
  copy_h2d a d =
      let total = a.cmd.size in
      let d1 = parts.count_h2d total d in
      if (a.host_ptr == 0) || not (parts.owns a.cmd.dst total d)
      then (efault, no_out, d)
      else if parts.pinned a.host_ptr total d1
      then issue_direct a.engine a.channel (record (a.cmd) { src0 = a.host_ptr }) total d1
      else stage_h2d (total / parts.chunk + 1) a 0 no_out (parts.count_staged total d1)

  -- The lambda `issue`.
  unfoldable pub issue : SubmitArgs → Window → D → Rc × Window × D
  issue a w d =
      let ((s, prev), d1) = parts.acquire_slot d in
      let (rc, d2) = parts.wait_fence prev d1 in
      let off = mul64 w.issued parts.chunk in
      let cmd = record (a.cmd) {
        src0 = add64 a.cmd.src0 off;
        dst = parts.slot_ptr s;
        size = min parts.chunk (a.cmd.size - off);
      } in
      let (f, d3) = parts.enqueue a.engine a.channel cmd d2 in
      if is_ok rc
      then (ok, record w { issued = w.issued + 1; window = w.window ++ (s, f) ∷ [] }, d3)
      else (rc, w, parts.release_slot s prev d2)

  -- `while (issued < min(depth, nchunks)) if (int rc = issue()) return rc;`, at most n rounds.
  unfoldable pub fill_window : ℕ → ℕ → SubmitArgs → Window → D → Rc × Window × D
  unfolding issue
  fill_window zero most a w d = (ok, w, d)
  fill_window (suc n) most a w d =
      let (rc, w', d') = issue a w d in
      let rest = fill_window n most a w' d' in
      if ltb w.issued most then (if is_ok rc then rest else (rc, w', d')) else (ok, w, d)

  -- The second loop, at most n rounds. An empty window has no front: that round is not reached.
  unfoldable pub drain_window : ℕ → ℕ → SubmitArgs → ℕ → ℕ → List (ℕ × ℕ) → D → Rc × D
  unfolding issue
  drain_window zero nchunks a k i window d = (ok, d)
  drain_window (suc n) nchunks a k i [] d = (ok, d)
  drain_window (suc n) nchunks a k i ((s, f) ∷ more) d =
      let fence = fence_at a.engine a.channel f in
      let (rc, d1) = parts.wait_fence fence d in
      let off = mul64 i parts.chunk in
      let d2 = parts.drain_slot s (add64 a.host_ptr off) (min parts.chunk (a.cmd.size - off)) d1 in
      let d3 = parts.release_slot s fence d2 in
      let (rc', w, d4) = issue a (record { issued = k; window = more }) d3 in
      let rest = drain_window n nchunks a w.issued (i + 1) w.window d4 in
      let last = drain_window n nchunks a k (i + 1) more d3 in
      if not (ltb i nchunks)
      then (ok, d)
      else if not (is_ok rc)
      then (rc, parts.release_slot s fence d1)
      else if ltb k nchunks
      then (if is_ok rc' then rest else (rc', d4))
      else last

  -- `case SG_OP_COPY_D2H`
  unfoldable pub copy_d2h : SubmitArgs → D → Rc × SubmitOut × D
  unfolding issue_direct fill_window drain_window
  copy_d2h a d =
      let total = a.cmd.size in
      let d1 = parts.count_d2h total d in
      let d2 = parts.count_staged total d1 in
      let nchunks = add64 total (parts.chunk - 1) / parts.chunk in
      let most = min (max 1 (parts.slots / 2)) nchunks in
      let (rc, w, d3) = fill_window most most a (record { issued = 0; window = [] }) d2 in
      let (rc', d4) = drain_window nchunks nchunks a w.issued 0 w.window d3 in
      if (a.host_ptr == 0) || not (parts.owns a.cmd.src0 total d)
      then (efault, no_out, d)
      else if parts.pinned a.host_ptr total d1
      then issue_direct a.engine a.channel (record (a.cmd) { dst = a.host_ptr }) total d1
      else if not (is_ok rc)
      then (rc, no_out, d3)
      else if not (is_ok rc')
      then (rc', no_out, d4)
      else (ok, record no_out { fence = parts.published a.engine a.channel d4 }, d4)

  -- `uint64_t{a} * b * sizeof(float)` on 64 bits
  abbrev pub floats : ℕ → ℕ → ℕ
  floats a b = mul64 (mul64 a b) 4

  -- The switch over the opcode.
  unfoldable pub dispatch : SubmitArgs → D → Rc × SubmitOut × D
  unfolding issue_if copy_h2d copy_d2h
  dispatch a d =
      let c = a.cmd in
      if c.opcode == 0
      then issue_if true ok a d
      else if c.opcode == op_wait_fence
      then issue_if
          (ltb c.arg0 parts.num_engines
            && ltb c.arg1 parts.num_channels
            && leb c.src1 (parts.published c.arg0 c.arg1 d))
          einval a d
      else if c.opcode == 1
      then issue_if (parts.owns c.dst c.size d) efault a d
      else if c.opcode == 4
      then issue_if (parts.owns c.dst c.size d && parts.owns c.src0 c.size d) efault a d
      else if c.opcode == 2
      then copy_h2d a d
      else if c.opcode == 3
      then copy_d2h a d
      else if c.opcode == 5
      then issue_if
          (parts.owns c.dst (mul64 c.arg0 4) d
            && parts.owns c.src0 (mul64 c.arg0 4) d
            && parts.owns c.src1 (mul64 c.arg0 4) d)
          efault a d
      else if c.opcode == 6
      then issue_if
          (parts.owns c.src0 (floats c.arg0 c.arg2) d
            && parts.owns c.src1 (floats c.arg2 c.arg1) d
            && parts.owns c.dst (floats c.arg0 c.arg1) d)
          efault a d
      else (einval, no_out, d)

  -- `eng == SG_ENGINE_COMPUTE ? is_copy_op(cmd.opcode) : is_compute_op(cmd.opcode)`
  abbrev pub wrong_class : SubmitArgs → Bool
  wrong_class a = if a.engine == 0 then is_copy_op a.cmd.opcode else is_compute_op a.cmd.opcode

  -- do_submit. The lock of mutex mode is held from the count on.
  unfoldable pub do_submit : SubmitArgs → D → Rc × SubmitOut × D
  unfolding dispatch
  do_submit a d =
      let c = a.cmd in
      if leb op_count c.opcode || not (c.flags == 0) || not (c.reserved == 0)
      then (einval, no_out, d)
      else if leb parts.num_engines a.engine || leb parts.num_channels a.channel
      then (einval, no_out, d)
      else if wrong_class a
      then (einval, no_out, d)
      else if not (is_ok (parts.sticky d))
      then (eio, no_out, d)
      else dispatch a (parts.count_submit d)
