-- ===== src/Device/Execute.antt =====
-- src/device/device.cpp: `Device::execute`. Memory is a function from addresses to bytes; memcpy and
-- memmove read all of their source before they write. The float operations are the compiler's.
pub mod Kernels
pub mod Product
pub mod Arrays
pub mod Copies
pub mod Transfers
pub mod Gather
pub mod Staged
pub mod Retried
mod Tests
use softgpu.Base.{
  ℕ, zero, suc, ◌+◌, ◌-◌, ◌*◌, ◌%◌, min, Bool, true, false, not, ◌&&◌, ◌||◌, ltb, leb, ◌==◌,
  if◌then◌else◌, add64, mul64,
}
use softgpu.Errno.{Rc, einval}
use softgpu.Mmu.{Mmu}
use softgpu.Device.{Bytes, Replay, Command}
use softgpu.Device.Runs.{
  Ended, success, page_fault, split, refused, is_success, run_at, resolve, for_runs,
}

-- memcpy and memmove: n bytes `from 0`, `from 1`, ... go to p.
unfoldable pub copy_bytes : (ℕ → ℕ) → ℕ → (ℕ → ℕ) → ℕ → ℕ → ℕ
copy_bytes mem p from n a = if leb p a && ltb a (p + n) then from (a - p) else mem a

-- The floats of the compute engine, with their four bytes in memory.
pub record Float32 : Type 1 where
  pub Float : Type 0
  pub zero_f : Float
  pub add : Float → Float → Float
  pub mul : Float → Float → Float
  pub of_bytes : ℕ → ℕ → ℕ → ℕ → Float
  pub to_byte : Float → ℕ → ℕ

-- The float arrays that a kernel reads and writes, over the state that holds them.
pub record Operands (f : Float32) (S : Type 0) : Type 0 where
  pub src0 : S → ℕ → f.Float
  pub src1 : S → ℕ → f.Float
  pub out : S → ℕ → f.Float
  pub store : S → ℕ → f.Float → S

-- The fixed part of the device that a command runs on, and what it changes.
pub record Board : Type 0 where
  pub mmu : Mmu
  pub vram : ℕ → ℕ
  pub host : ℕ → ℕ

module _ (f : Float32) where
  -- `reinterpret_cast<const float*>(p)[i]`
  abbrev pub load_float : (ℕ → ℕ) → ℕ → ℕ → f.Float
  load_float mem p i =
      f.of_bytes (mem (p + 4 * i)) (mem (p + 4 * i + 1)) (mem (p + 4 * i + 2)) (mem (p + 4 * i + 3))

  unfoldable pub store_float : (ℕ → ℕ) → ℕ → ℕ → f.Float → ℕ → ℕ
  unfolding copy_bytes
  store_float mem p i x = copy_bytes mem (p + 4 * i) (f.to_byte x) 4

  module _ {S : Type 0} (io : Operands f S) where
    -- SG_OP_VADD_F32: elements i, ..., i + n - 1.
    unfoldable pub vadd_from : ℕ → ℕ → S → S
    vadd_from i zero s = s
    vadd_from i (suc n) s = vadd_from (i + 1) n (io.store s i (f.add (io.src0 s i) (io.src1 s i)))

    -- `crow[j] = 0.0f`, from j on; `row` is `i * n`.
    unfoldable pub clear_row : ℕ → ℕ → ℕ → S → S
    clear_row row j zero s = s
    clear_row row j (suc n) s = clear_row row (j + 1) n (io.store s (row + j) f.zero_f)

    -- `crow[j] += aip * brow[j]`, from j on.
    unfoldable pub add_row : f.Float → ℕ → ℕ → ℕ → ℕ → S → S
    add_row aip row brow j zero s = s
    add_row aip row brow j (suc n) s =
        add_row aip row brow (j + 1) n
          (io.store s (row + j) (f.add (io.out s (row + j)) (f.mul aip (io.src1 s (brow + j)))))

    -- The loop over p.
    unfoldable pub add_rows : ℕ → ℕ → ℕ → ℕ → ℕ → S → S
    unfolding add_row
    add_rows n k i p zero s = s
    add_rows n k i p (suc left) s =
        add_rows n k i (p + 1) left (add_row (io.src0 s (i * k + p)) (i * n) (p * n) 0 n s)

    -- SG_OP_GEMM_F32: rows i, ..., i + left - 1.
    unfoldable pub gemm_from : ℕ → ℕ → ℕ → ℕ → S → S
    unfolding clear_row add_rows
    gemm_from n k i zero s = s
    gemm_from n k i (suc left) s =
        gemm_from n k (i + 1) left (add_rows n k i 0 k (clear_row (i * n) 0 n s))

  -- A kernel's arrays in VRAM, and in the vectors of a replay.
  abbrev pub in_place : ℕ → ℕ → ℕ → Operands f (ℕ → ℕ)
  in_place d s0 s1 = record {
    src0 = λ mem i. load_float mem s0 i;
    src1 = λ mem i. load_float mem s1 i;
    out = λ mem i. load_float mem d i;
    store = λ mem i x. store_float mem d i x;
  }

  abbrev pub in_vectors : (ℕ → ℕ) → (ℕ → ℕ) → Operands f (ℕ → ℕ)
  in_vectors a b = record {
    src0 = λ mem i. load_float a 0 i;
    src1 = λ mem i. load_float b 0 i;
    out = λ mem i. load_float mem 0 i;
    store = λ mem i x. store_float mem 0 i x;
  }

-- `buf.resize(len)`: new bytes are 0.
unfoldable pub resize : Bytes → ℕ → Bytes
resize b len = record { size = len; byte = λ i. if ltb i b.size then b.byte i else 0 }

abbrev pub is_copy_op : ℕ → Bool
is_copy_op op = (op == 2) || (op == 3) || (op == 4)

abbrev pub is_compute_op : ℕ → Bool
is_compute_op op = (op == 1) || (op == 5) || (op == 6)

-- What a call of execute leaves: its result, the replay and the board.
abbrev pub Outcome : Type 0
Outcome = Ended × Replay × Board

-- What follows a step that succeeded.
abbrev pub and_then : Outcome → (Replay → Board → Outcome) → Outcome
and_then (rc, r, b) next = if is_success rc then next r b else (rc, r, b)

-- `rc != kPageFault && rc != kSplit`
abbrev pub is_final : Ended → Bool
is_final success = true
is_final (page_fault a) = false
is_final split = false
is_final (refused rc) = true

abbrev pub is_split : Ended → Bool
is_split split = true
is_split success = false
is_split (page_fault a) = false
is_split (refused rc) = false

module _ (vram_size engine : ℕ) where
  -- for_runs with an `op` that writes byte k of the range with `g k`.
  unfoldable pub write_range : ℕ → ℕ → (ℕ → ℕ) → Replay → Board → Outcome
  unfolding for_runs copy_bytes
  write_range va len g r b =
      let (rc, r', m, v) =
        for_runs len vram_size engine va len true
          (λ p off n mem. copy_bytes mem p (λ j. g (off + j)) n) r b.mmu b.vram in
      (rc, r', record b { mmu = m; vram = v })

  -- for_runs with an `op` that copies the range to `at` in another memory.
  unfoldable pub read_range : ℕ → ℕ → ℕ → (ℕ → ℕ) → Replay → Board → Ended × Replay × Mmu × (ℕ → ℕ)
  unfolding for_runs copy_bytes
  read_range va len at to r b =
      for_runs len vram_size engine va len false
        (λ p off n mem. copy_bytes mem (at + off) (λ j. b.vram (p + j)) n) r b.mmu to

  -- The lambda `gather`.
  unfoldable pub gather_into : ℕ → ℕ → Bytes → Replay → Board → Ended × Replay × Bytes × Board
  unfolding read_range resize
  gather_into va len buf r b =
      let buf' = if ltb buf.size len then resize buf len else buf in
      let (rc, r', m, x) = read_range va len 0 buf'.byte r b in
      (rc, r', record buf' { byte = x }, record b { mmu = m })

  -- Phases 0 and 1: a source to its vector.
  unfoldable pub load_first : ℕ → ℕ → Replay → Board → Outcome
  load_first va len r b =
      let (rc, r', buf, b') = gather_into va len r.a r b in
      let r'' = record r' { a = buf } in
      if not (r.phase == 0)
      then (success, r, b)
      else if is_success rc
      then (success, record r'' { phase = 1; done = 0 }, b')
      else (rc, r'', b')

  unfoldable pub load_second : ℕ → ℕ → Replay → Board → Outcome
  load_second va len r b =
      let (rc, r', buf, b') = gather_into va len r.b r b in
      let r'' = record r' { b = buf } in
      if not (r.phase == 1)
      then (success, r, b)
      else if is_success rc
      then (success, record r'' { phase = 2; done = 0 }, b')
      else (rc, r'', b')

  -- The loop of a copy between ranges that do not overlap.
  unfoldable pub copy_forward : ℕ → ℕ → ℕ → ℕ → Replay → Board → Outcome
  unfolding run_at copy_bytes
  copy_forward zero dst src size r b = (success, r, b)
  copy_forward (suc fuel) dst src size r b =
      let left = size - r.done in
      let ((rcd, d, nd), md) = run_at vram_size engine (add64 dst r.done) left true b.mmu in
      let ((rcs, s, ns), ms) = run_at vram_size engine (add64 src r.done) left false md in
      let n = min nd ns in
      let rest =
        copy_forward fuel dst src size (record r { done = r.done + n })
          (record b { mmu = ms; vram = copy_bytes b.vram d (λ j. b.vram (s + j)) n }) in
      if not (ltb r.done size)
      then (success, r, b)
      else if not (is_success rcd)
      then (rcd, r, record b { mmu = md })
      else if not (is_success rcs)
      then (rcs, r, record b { mmu = ms })
      else rest

  -- A copy between ranges that overlap, through a vector.
  unfoldable pub copy_through : ℕ → ℕ → ℕ → Replay → Board → Outcome
  unfolding load_first write_range
  copy_through dst src size r b =
      and_then (load_first src size r b) (λ r' b'. write_range dst size r'.a.byte r' b')

  -- The same in one go, when each side is one run.
  unfoldable pub copy_overlapping : ℕ → ℕ → ℕ → Replay → Board → Outcome
  unfolding copy_through resolve copy_bytes
  copy_overlapping dst src size r b =
      let ((rcd, d), md) = resolve vram_size engine dst size true b.mmu in
      let ((rcs, s), ms) = resolve vram_size engine src size false md in
      let rc = if is_success rcd then rcs else rcd in
      let m = if is_success rcd then ms else md in
      let b' = record b { mmu = m } in
      let r' = record r { gather = true } in
      if r.gather
      then copy_through dst src size r b
      else if is_success rc
      then (success, r, record b' { vram = copy_bytes b.vram d (λ j. b.vram (s + j)) size })
      else if is_final rc
      then (rc, r, b')
      else if is_split rc
      then copy_through dst src size r' b'
      else (rc, r', b')

  abbrev pub overlap : ℕ → ℕ → ℕ → Bool
  overlap dst src size = not (size == 0) && ltb dst (add64 src size) && ltb src (add64 dst size)

  -- SG_OP_COPY_D2D
  unfoldable pub copy_d2d : ℕ → ℕ → ℕ → Replay → Board → Outcome
  unfolding copy_forward copy_overlapping
  copy_d2d dst src size r b =
      if overlap dst src size
      then copy_overlapping dst src size r b
      else copy_forward size dst src size r b

  -- SG_OP_COPY_D2H
  unfoldable pub copy_d2h : ℕ → ℕ → ℕ → Replay → Board → Outcome
  unfolding read_range
  copy_d2h dst src size r b =
      let (rc, r', m, h) = read_range src size dst b.host r b in
      (rc, r', record b { mmu = m; host = h })

  module _ (f : Float32) where
    -- Phase 2, and the scatter of phase 3.
    unfoldable pub run_and_scatter :
        ℕ → ℕ → (Operands f (ℕ → ℕ) → (ℕ → ℕ) → ℕ → ℕ) → Replay → Board → Outcome
    unfolding resize
    run_and_scatter dst bd kernel r b =
        let c = resize r.c bd in
        let x = kernel (in_vectors f r.a.byte r.b.byte) c.byte in
        let r' = if r.phase == 2 then record r { c = record c { byte = x }; phase = 3 } else r in
        write_range dst bd r'.c.byte r' b

    unfoldable pub compute_through :
        Command → ℕ → ℕ → ℕ → (Operands f (ℕ → ℕ) → (ℕ → ℕ) → ℕ → ℕ) → Replay → Board → Outcome
    compute_through c b0 b1 bd kernel r b = and_then (load_first c.src0 b0 r b) (λ r1 x1.
        and_then (load_second c.src1 b1 r1 x1) (λ r2 x2. run_and_scatter c.dst bd kernel r2 x2))

    -- The three calls of resolve: the result, and the places of dst, src0 and src1.
    unfoldable pub resolve_all : Command → ℕ → ℕ → ℕ → Mmu → Ended × (ℕ × ℕ × ℕ) × Mmu
    unfolding resolve
    resolve_all c b0 b1 bd m =
        let ((rc0, s0), m0) = resolve vram_size engine c.src0 b0 false m in
        let ((rc1, s1), m1) = resolve vram_size engine c.src1 b1 false m0 in
        let ((rcd, d), md) = resolve vram_size engine c.dst bd true m1 in
        if not (is_success rc0)
        then (rc0, (0, s0, 0), m0)
        else if not (is_success rc1)
        then (rc1, (0, s0, s1), m1)
        else (rcd, (d, s0, s1), md)

    -- The lambda `compute`.
    unfoldable pub compute :
        Command → ℕ → ℕ → ℕ → (Operands f (ℕ → ℕ) → (ℕ → ℕ) → ℕ → ℕ) → Replay → Board → Outcome
    unfolding compute_through resolve_all
    compute c b0 b1 bd kernel r b =
        let (rc, (d, s0, s1), m) = resolve_all c b0 b1 bd b.mmu in
        let b' = record b { mmu = m } in
        let r' = record r { gather = true } in
        if r.gather
        then compute_through c b0 b1 bd kernel r b
        else if is_success rc
        then (success, r, record b' { vram = kernel (in_place f d s0 s1) b.vram })
        else if is_final rc
        then (rc, r, b')
        else if is_split rc
        then compute_through c b0 b1 bd kernel r' b'
        else (rc, r', b')

    -- Device::execute
    unfoldable pub execute : Replay → Command → Board → Outcome
    execute r c b =
        let vadd_bytes = mul64 c.arg0 4 in
        if (if engine == 0 then is_copy_op c.opcode else is_compute_op c.opcode)
        then (refused einval, r, b)
        else if c.opcode == 0
        then (success, r, b)
        else if c.opcode == 1
        then write_range c.dst c.size (λ k. c.value % 256) r b
        else if c.opcode == 2
        then write_range c.dst c.size (λ k. b.host (c.src0 + k)) r b
        else if c.opcode == 3
        then copy_d2h c.dst c.src0 c.size r b
        else if c.opcode == 4
        then copy_d2d c.dst c.src0 c.size r b
        else if c.opcode == 5
        then compute c vadd_bytes vadd_bytes vadd_bytes (λ io s. vadd_from f io 0 c.arg0 s) r b
        else if c.opcode == 6
        then compute c (mul64 (mul64 c.arg0 c.arg2) 4) (mul64 (mul64 c.arg2 c.arg1) 4)
            (mul64 (mul64 c.arg0 c.arg1) 4) (λ io s. gemm_from f io c.arg1 c.arg2 0 c.arg0 s) r b
        else (refused einval, r, b)
