-- ===== src/Runtime/Entry.antt =====
-- src/runtime/runtime.cpp: the entry points on streams and events, the copies and the compute calls.
-- Addresses are numbers, 0 for a null pointer.
use softgpu.Base.{
  ℕ, ◌%◌, [], ◌∷◌, ◌++◌, Option, none, some, Bool, true, false, not, ◌==◌, if◌then◌else◌, update,
}
use softgpu.Runtime.{
  SgError, sg_ok, not_initialized, invalid_value, SgFence, Stream, Event, Runtime, new_event,
  is_open,
}
use softgpu.Runtime.Api.{Queues}
use softgpu.Runtime.Submit.{
  make_cmd, resolve, store_stream, stream_submit, submit_on, wait_fence, wait_all, copy_sync,
}

-- SG_OP_NOP, SG_OP_FILL, SG_OP_COPY_H2D, SG_OP_COPY_D2H, SG_OP_COPY_D2D, SG_OP_VADD_F32,
-- SG_OP_GEMM_F32 and SG_ENGINE_COMPUTE
abbrev pub op_nop : ℕ
op_nop = 0

abbrev pub op_fill : ℕ
op_fill = 1

abbrev pub op_copy_h2d : ℕ
op_copy_h2d = 2

abbrev pub op_copy_d2h : ℕ
op_copy_d2h = 3

abbrev pub op_copy_d2d : ℕ
op_copy_d2d = 4

abbrev pub op_vadd_f32 : ℕ
op_vadd_f32 = 5

abbrev pub op_gemm_f32 : ℕ
op_gemm_f32 = 6

abbrev pub engine_compute : ℕ
engine_compute = 0

-- `e == SG_OK`
abbrev pub is_sg_ok : SgError → Bool
is_sg_ok SgError.sg_ok = true
is_sg_ok _ = false

-- The event's address, and the object there: `none` of a null address.
unfoldable pub event_at : {D : Type 0} → Runtime D → ℕ → Option Event
event_at rt address = if address == 0 then none else rt.events address

-- sgEventCreate with a non-null `out`: `address` is what `new` returns, and the result `*out`.
unfoldable pub event_create : {D : Type 0} → Runtime D → ℕ → SgError × Option ℕ × Runtime D
event_create rt address =
    if not (is_open rt)
    then (not_initialized, none, rt)
    else (sg_ok, some address, record rt { events = update rt.events address (some new_event) })

-- sgEventDestroy
unfoldable pub event_destroy : {D : Type 0} → Runtime D → ℕ → SgError × Runtime D
event_destroy rt address =
    if not (is_open rt)
    then (not_initialized, rt)
    else if address == 0
    then (invalid_value, rt)
    else (sg_ok, record rt { events = update rt.events address none })

-- The part of sgStreamWaitEvent that appends to `extra_waits`.
unfoldable pub add_wait : {D : Type 0} → Runtime D → Option ℕ → Option Event → SgError × Runtime D
unfolding store_stream resolve
add_wait rt handle none = (invalid_value, rt)
add_wait rt handle (some v) =
    let s = resolve rt handle in
    if not v.recorded
    then (sg_ok, rt)
    else (sg_ok, store_stream handle (record s { extra_waits = s.extra_waits ++ v.at ∷ [] }) rt)

-- sgStreamWaitEvent
unfoldable pub stream_wait_event : {D : Type 0} → Runtime D → Option ℕ → ℕ → SgError × Runtime D
unfolding add_wait event_at
stream_wait_event rt handle address =
    if not (is_open rt) then (not_initialized, rt) else add_wait rt handle (event_at rt address)

-- The engine of sgEventRecord's command.
abbrev pub record_engine : Stream → ℕ
record_engine s = if s.has_tail then s.tail.engine else engine_compute

module _ {D : Type 0} (queues : Queues D) where
  -- sgStreamSynchronize
  unfoldable pub stream_synchronize : Runtime D → Option ℕ → SgError × Runtime D
  unfolding resolve wait_fence
  stream_synchronize rt handle =
      let s = resolve rt handle in
      let waited = wait_fence queues rt s.tail in
      if not (is_open rt)
      then (not_initialized, rt)
      else if not s.has_tail
      then (sg_ok, rt)
      else waited

  unfoldable pub record_at : Runtime D → ℕ → Option ℕ → Option Event → SgError × Runtime D
  unfolding resolve store_stream stream_submit
  record_at rt address handle none = (invalid_value, rt)
  record_at rt address handle (some v) =
      let s = resolve rt handle in
      let engine = record_engine s in
      let r = stream_submit queues rt s engine (make_cmd op_nop) 0 in
      let rt' = store_stream handle r.stream r.rt in
      let at : SgFence = record { engine = engine; channel = s.channel; value = r.fence } in
      if is_sg_ok r.err
      then (
        sg_ok,
        record rt' {
          events = update rt'.events address (some (record { recorded = true; at = at }));
        },
      )
      else (r.err, rt')

  -- sgEventRecord
  unfoldable pub event_record : Runtime D → ℕ → Option ℕ → SgError × Runtime D
  unfolding record_at event_at
  event_record rt address handle =
      if not (is_open rt)
      then (not_initialized, rt)
      else record_at rt address handle (event_at rt address)

  unfoldable pub synchronize_at : Runtime D → Option Event → SgError × Runtime D
  unfolding wait_fence
  synchronize_at rt none = (invalid_value, rt)
  synchronize_at rt (some v) =
      let waited = wait_fence queues rt v.at in if not v.recorded then (sg_ok, rt) else waited

  -- sgEventSynchronize
  unfoldable pub event_synchronize : Runtime D → ℕ → SgError × Runtime D
  unfolding synchronize_at event_at
  event_synchronize rt address =
      if not (is_open rt) then (not_initialized, rt) else synchronize_at rt (event_at rt address)

  -- sgDeviceSynchronize
  unfoldable pub device_synchronize : Runtime D → SgError × Runtime D
  unfolding wait_all
  device_synchronize rt =
      let waited = wait_all queues rt in if not (is_open rt) then (not_initialized, rt) else waited

  -- sgMemsetAsync, of the int `value` as its 32 bits, and sgMemset
  unfoldable pub memset_async : Runtime D → ℕ → ℕ → ℕ → Option ℕ → SgError × Runtime D
  unfolding submit_on
  memset_async rt dst value bytes handle =
      let c = record (make_cmd op_fill) { dst = dst; size = bytes; value = value % 256 } in
      submit_on queues rt handle engine_compute c 0

  unfoldable pub memset : Runtime D → ℕ → ℕ → ℕ → SgError × Runtime D
  unfolding memset_async
  memset rt dst value bytes = memset_async rt dst value bytes none

  -- sgMemcpyH2D
  unfoldable pub memcpy_h2d : Runtime D → ℕ → ℕ → ℕ → SgError × Runtime D
  unfolding copy_sync
  memcpy_h2d rt dst src bytes =
      let c = record (make_cmd op_copy_h2d) { dst = dst; size = bytes } in
      let copied = copy_sync queues rt c src in if src == 0 then (invalid_value, rt) else copied

  -- sgMemcpyD2H
  unfoldable pub memcpy_d2h : Runtime D → ℕ → ℕ → ℕ → SgError × Runtime D
  unfolding copy_sync
  memcpy_d2h rt dst src bytes =
      let c = record (make_cmd op_copy_d2h) { src0 = src; size = bytes } in
      let copied = copy_sync queues rt c dst in if dst == 0 then (invalid_value, rt) else copied

  -- sgMemcpyD2DAsync and sgMemcpyD2D
  unfoldable pub memcpy_d2d_async : Runtime D → ℕ → ℕ → ℕ → Option ℕ → SgError × Runtime D
  unfolding submit_on resolve
  memcpy_d2d_async rt dst src bytes handle =
      let c = record (make_cmd op_copy_d2d) { dst = dst; src0 = src; size = bytes } in
      submit_on queues rt handle (resolve rt handle).ce c 0

  unfoldable pub memcpy_d2d : Runtime D → ℕ → ℕ → ℕ → SgError × Runtime D
  unfolding memcpy_d2d_async
  memcpy_d2d rt dst src bytes = memcpy_d2d_async rt dst src bytes none

  -- sgMemcpyH2DAsync
  unfoldable pub memcpy_h2d_async : Runtime D → ℕ → ℕ → ℕ → Option ℕ → SgError × Runtime D
  unfolding submit_on resolve
  memcpy_h2d_async rt dst src bytes handle =
      let c = record (make_cmd op_copy_h2d) { dst = dst; size = bytes } in
      let sent = submit_on queues rt handle (resolve rt handle).ce c src in
      if src == 0 then (invalid_value, rt) else sent

  -- sgMemcpyD2HAsync
  unfoldable pub memcpy_d2h_async : Runtime D → ℕ → ℕ → ℕ → Option ℕ → SgError × Runtime D
  unfolding submit_on resolve
  memcpy_d2h_async rt dst src bytes handle =
      let c = record (make_cmd op_copy_d2h) { src0 = src; size = bytes } in
      let sent = submit_on queues rt handle (resolve rt handle).ce c dst in
      if dst == 0 then (invalid_value, rt) else sent

  -- sgVaddF32Async and sgVaddF32
  unfoldable pub vadd_async : Runtime D → ℕ → ℕ → ℕ → ℕ → Option ℕ → SgError × Runtime D
  unfolding submit_on
  vadd_async rt out a b n handle =
      let c = record (make_cmd op_vadd_f32) { dst = out; src0 = a; src1 = b; arg0 = n } in
      submit_on queues rt handle engine_compute c 0

  unfoldable pub vadd : Runtime D → ℕ → ℕ → ℕ → ℕ → SgError × Runtime D
  unfolding vadd_async
  vadd rt out a b n = vadd_async rt out a b n none

  -- sgGemmF32Async and sgGemmF32
  unfoldable pub gemm_async : Runtime D → ℕ → ℕ → ℕ → ℕ → ℕ → ℕ → Option ℕ → SgError × Runtime D
  unfolding submit_on
  gemm_async rt out a b m n k handle =
      let c = record (make_cmd op_gemm_f32) {
        dst = out;
        src0 = a;
        src1 = b;
        arg0 = m;
        arg1 = n;
        arg2 = k;
      } in
      submit_on queues rt handle engine_compute c 0

  unfoldable pub gemm : Runtime D → ℕ → ℕ → ℕ → ℕ → ℕ → ℕ → SgError × Runtime D
  unfolding gemm_async
  gemm rt out a b m n k = gemm_async rt out a b m n k none
