-- ===== src/Runtime/Submit.antt =====
-- src/runtime/runtime.cpp: submission on a stream, waiting, and the copies and the compute calls that
-- stand on them. `Option ℕ` is a stream's handle: `none` for null, which is the default stream.
use softgpu.Base.{
  ℕ, ◌%◌, ◌/◌, List, [], ◌∷◌, Option, none, some, Bool, true, false, not, ◌&&◌, ◌==◌, if◌then◌else◌,
  update,
}
use softgpu.Errno.{Rc, ok}
use softgpu.Device.{Command, op_wait_fence}
use softgpu.Device.Runlist.{is_ok}
use softgpu.Abi.{SubmitArgs, SubmitOut, submit_direct, WaitArgs, wait_all_engines}
use softgpu.Runtime.{
  SgError, not_initialized, from_errno, SgFence, Stream, Runtime, new_stream, is_open,
}
use softgpu.Runtime.Api.{Queues}

-- make_cmd
abbrev pub make_cmd : ℕ → Command
make_cmd op = record {
  opcode = op;
  flags = 0;
  dst = 0;
  src0 = 0;
  src1 = 0;
  size = 0;
  arg0 = 0;
  arg1 = 0;
  arg2 = 0;
  value = 0;
  reserved = 0;
}

-- The command of `wait_on`.
abbrev pub wait_command : SgFence → Command
wait_command f = record (make_cmd op_wait_fence) {
  arg0 = f.engine;
  arg1 = f.channel;
  src1 = f.value;
}

-- `f.engine == engine && f.channel == s->channel`
abbrev pub same_ring : ℕ → ℕ → SgFence → Bool
same_ring engine channel f = (f.engine == engine) && (f.channel == channel)

-- The request of `raw_submit`.
abbrev pub request : ℕ → ℕ → Command → ℕ → SubmitArgs
request engine channel cmd host_ptr = record {
  cmd = cmd;
  host_ptr = host_ptr;
  engine = engine;
  channel = channel;
}

-- `(a.out_flags & SG_SUBMIT_DIRECT) != 0`: the flag is bit 0.
abbrev pub is_direct : SubmitOut → Bool
is_direct o = (o.out_flags / submit_direct) % 2 == 1

-- What `stream_submit` leaves: its return value, `*fence_out`, `*direct`, the stream and the globals.
pub record Submitted (D : Type 0) : Type 0 where
  pub err : SgError
  pub fence : ℕ
  pub direct : Bool
  pub stream : Stream
  pub rt : Runtime D

-- `resolve`, and the object that a handle names. A handle of no stream is undefined behaviour: here
-- it names a new stream.
abbrev pub or_new : Option Stream → Stream
or_new none = new_stream
or_new (some s) = s

unfoldable pub resolve : {D : Type 0} → Runtime D → Option ℕ → Stream
resolve rt none = rt.default_stream
resolve rt (some address) = or_new (rt.streams address)

-- The writes to the object that a handle names.
unfoldable pub store_stream : {D : Type 0} → Option ℕ → Stream → Runtime D → Runtime D
store_stream none s rt = record rt { default_stream = s }
store_stream (some address) s rt = record rt { streams = update rt.streams address (some s) }

module _ {D : Type 0} (queues : Queues D) where
  -- raw_submit. The outputs are read where it returns 0.
  unfoldable pub raw_submit : ℕ → ℕ → Command → ℕ → Runtime D → Rc × SubmitOut × Runtime D
  raw_submit engine channel cmd host_ptr rt =
      let (rc, o, d) = queues.submit (request engine channel cmd host_ptr) rt.drv in
      (rc, o, record rt { drv = d })

  -- wait_on, for a stream of this channel.
  unfoldable pub wait_on : ℕ → ℕ → SgFence → Runtime D → Rc × Runtime D
  unfolding raw_submit
  wait_on engine channel f rt =
      let (rc, _, rt') = raw_submit engine channel (wait_command f) 0 rt in
      if same_ring engine channel f then (ok, rt) else (rc, rt')

  -- The loop over `extra_waits`.
  unfoldable pub wait_on_all : ℕ → ℕ → List SgFence → Runtime D → Rc × Runtime D
  unfolding wait_on
  wait_on_all engine channel [] rt = (ok, rt)
  wait_on_all engine channel (f ∷ fs) rt =
      let (rc, rt') = wait_on engine channel f rt in
      let rest = wait_on_all engine channel fs rt' in if is_ok rc then rest else (rc, rt')

  -- The last part of `stream_submit`: the command itself.
  unfoldable pub submit_last : Runtime D → Stream → ℕ → Command → ℕ → Submitted D
  unfolding raw_submit
  submit_last rt s engine cmd host_ptr =
      let (rc, o, rt') = raw_submit engine s.channel cmd host_ptr rt in
      if is_ok rc
      then record {
        err = from_errno rc;
        fence = o.fence;
        direct = is_direct o;
        stream = record s {
          has_tail = true;
          tail = record { engine = engine; channel = s.channel; value = o.fence };
        };
        rt = rt';
      }
      else record { err = from_errno rc; fence = 0; direct = false; stream = s; rt = rt' }

  abbrev pub refused : Rc → Stream → Runtime D → Submitted D
  refused rc s rt = record { err = from_errno rc; fence = 0; direct = false; stream = s; rt = rt }

  -- The part after the loop.
  unfoldable pub submit_after : Runtime D → Stream → ℕ → Command → ℕ → Submitted D
  unfolding submit_last wait_on
  submit_after rt s engine cmd host_ptr =
      let (rc, rt') = wait_on engine s.channel s.tail rt in
      if s.has_tail
      then if is_ok rc then submit_last rt' s engine cmd host_ptr else refused rc s rt'
      else submit_last rt s engine cmd host_ptr

  -- stream_submit
  unfoldable pub stream_submit : Runtime D → Stream → ℕ → Command → ℕ → Submitted D
  unfolding submit_after wait_on_all
  stream_submit rt s engine cmd host_ptr =
      let (rc, rt') = wait_on_all engine s.channel s.extra_waits rt in
      if not (is_open rt)
      then record { err = not_initialized; fence = 0; direct = false; stream = s; rt = rt }
      else if is_ok rc
      then submit_after rt' (record s { extra_waits = [] }) engine cmd host_ptr
      else refused rc s rt'

  -- `stream_submit(resolve(stream), ...)`
  unfoldable pub submit_on : Runtime D → Option ℕ → ℕ → Command → ℕ → SgError × Runtime D
  unfolding stream_submit store_stream resolve
  submit_on rt handle engine cmd host_ptr =
      let r = stream_submit rt (resolve rt handle) engine cmd host_ptr in
      (r.err, store_stream handle r.stream r.rt)

  -- wait_fence
  unfoldable pub wait_fence : Runtime D → SgFence → SgError × Runtime D
  wait_fence rt f =
      let w : WaitArgs = record {
        engine = f.engine;
        channel = f.channel;
        fence = f.value;
        flags = rt.sync_flags;
      } in
      let (rc, d) = queues.wait w rt.drv in (from_errno rc, record rt { drv = d })

  -- wait_all
  unfoldable pub wait_all : Runtime D → SgError × Runtime D
  wait_all rt =
      let w : WaitArgs = record {
        engine = wait_all_engines;
        channel = 0;
        fence = 0;
        flags = rt.sync_flags;
      } in
      let (rc, d) = queues.wait w rt.drv in (from_errno rc, record rt { drv = d })

  -- copy_sync, on the default stream as its callers have it.
  unfoldable pub copy_sync : Runtime D → Command → ℕ → SgError × Runtime D
  unfolding stream_submit store_stream wait_fence
  copy_sync rt cmd host_ptr =
      let s = rt.default_stream in
      let r = stream_submit rt s s.ce cmd host_ptr in
      let rt' = store_stream none r.stream r.rt in
      let waited =
        wait_fence rt' (record { engine = s.ce; channel = s.channel; value = r.fence }) in
      if r.direct then waited else (r.err, rt')
