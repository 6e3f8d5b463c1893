-- ===== src/Runtime/Tests.antt =====
-- Streams over the device's registers, and a driver that takes every request.
use softgpu.Base.{
  ℕ, ◌+◌, ◌<◌, ◌≡◌, ◌≢◌, refl, ◌⊎◌, List, [], ◌∷◌, ◌++◌, length, none, some, true, false, arith,
}
use softgpu.Errno.{ok}
use softgpu.Integers.{pos, negsuc}
use softgpu.Device.{Command, Device, fresh_replay}
use softgpu.Abi.{SubmitArgs, QueryArgs}
use softgpu.Runtime.{sg_ok, invalid_value, Runtime, new_stream}
use softgpu.Runtime.Api.{Queues, Contexts, Buffers, opened}
use softgpu.Runtime.Bind.{bind_channel, unbind_channel}
use softgpu.Runtime.Bindings.{IsBound}
use softgpu.Runtime.StreamChannels.{bind_channel_lem, unbind_channel_lem}
use softgpu.Runtime.DevicePriorities.{device_priorities}
use softgpu.Runtime.Lifecycle.{init, abi_version, first_bind}
use softgpu.Runtime.Closed.{init-IsBound}
use softgpu.Runtime.Submit.{make_cmd, stream_submit, resolve}
use softgpu.Runtime.Entry.{event_record, stream_wait_event}
use softgpu.Runtime.Pending.{Sent, submit_in_order, stream_submit-Sent}
use softgpu.Runtime.Ordering.{Waits, stream_wait_event-event_record}

abbrev nop : Command
nop = record {
  opcode = 0;
  flags = 0;
  dst = 0;
  src0 = 0;
  src1 = 0;
  size = 0;
  arg0 = 0;
  arg1 = 0;
  arg2 = 0;
  value = 0;
  reserved = 0;
}

abbrev quiet : Device
quiet = record {
  num_engines = 2;
  num_channels = 2;
  channel = λ e c. record {
    ring = λ i. nop;
    depth = 8;
    put = 0;
    get = 0;
    sticky_error = ok;
    irq_target = 0;
    last_irq_cycles = 0;
    parked = false;
    fault_fail = ok;
    priority = pos 0;
  };
  replay = λ e c. fresh_replay;
  mixed_priority = false;
  faults = [];
  last_irq = 0;
  irqs = λ e. 0;
  irq_pulses = 0;
  fault_pulses = 0;
  doorbells = λ e. 0;
}

abbrev answer : Device → QueryArgs
answer d = record {
  abi_version = abi_version;
  staging_slots = 4;
  vram_size = 65536;
  staging_chunk = 4096;
  num_engines = d.num_engines;
  num_channels = d.num_channels;
  wait_policy = 3;
  submit_mode = 0;
  spin_ns = 0;
  idle_policy = 2;
  uffd = 0;
  idle_ns = 0;
  priority_least = pos 0;
  priority_greatest = negsuc 6;
  timeslice_ns = 0;
  kmod = 0;
}

abbrev device_contexts : Contexts Device
device_contexts = record {
  drv_open = λ d. (opened 3, d);
  negative = λ d rc h. cc;
  query = λ fd d. (ok, answer d, d);
  drv_close = λ fd d. (ok, d);
}

abbrev fresh : {D : Type 0} → D → Runtime D
fresh d = record {
  fd = negsuc 0;
  managed_coherent = false;
  kmod = false;
  num_engines = 1;
  num_ce = 0;
  num_channels = 1;
  prio_least = pos 0;
  prio_greatest = negsuc 6;
  timeslice_ns = 0;
  sync_flags = 0;
  next_stream_id = 1;
  default_stream = new_stream;
  bind = first_bind;
  streams = λ a. none;
  events = λ a. none;
  drv = d;
}

abbrev started : Runtime Device
started = (init device_contexts (fresh quiet)).1

in_range : (device_priorities).InRange (negsuc 2)
unfolding device_priorities
in_range = (refl, refl)

started-IsBound : IsBound device_priorities started ((0, pos 0) ∷ [])
unfolding init device_priorities
started-IsBound =
    init-IsBound device_contexts device_priorities (fresh quiet) started refl refl refl
      (omega arith) (λ e c. refl)

bind_channel_lem_example :
    let (e, o, rt') = bind_channel device_priorities started (negsuc 2) in
    ((c : ℕ) × (e ≡ sg_ok)
      × (o ≡ some c)
      × IsBound device_priorities rt' ((c, negsuc 2) ∷ (0, pos 0) ∷ []))
    ⊎ ((e ≡ invalid_value)
        × (o ≡ none)
        × (rt' ≡ started)
        × ((c : ℕ)
            → c < started.num_channels
            → ((started.bind c).priority ≢ negsuc 2) × (0 < (started.bind c).users)))
bind_channel_lem_example =
    bind_channel_lem device_priorities started ((0, pos 0) ∷ []) (negsuc 2) started-IsBound in_range

least_in_range : (device_priorities).InRange (pos 0)
unfolding device_priorities
least_in_range = (refl, refl)

unbind_channel_lem_example :
    IsBound device_priorities (unbind_channel device_priorities started 0) []
unbind_channel_lem_example =
    unbind_channel_lem device_priorities started [] [] 0 (pos 0) started-IsBound least_in_range

-- A driver that takes every request and keeps the list.
abbrev taking : Queues (List SubmitArgs)
taking = record {
  submit = λ a l. (ok, record { fence = length l + 1; out_flags = 0 }, l ++ a ∷ []);
  wait = λ w l. (ok, l);
}

abbrev busy : Runtime (List SubmitArgs)
busy = record (fresh []) {
  fd = pos 3;
  default_stream = record new_stream {
    has_tail = true;
    tail = record { engine = 0; channel = 0; value = 7 };
  };
  streams = λ a. some (record new_stream { channel = 1 });
  events =
      λ a. some (record { recorded = false; at = record { engine = 0; channel = 0; value = 0 } });
}

stream_submit-Sent_example :
    let s = record new_stream {
      extra_waits = record { engine = 1; channel = 2; value = 5 } ∷ [];
    } in
    Sent busy s 0 (submit_in_order taking s 0 nop 0 []) (stream_submit taking busy s 0 nop 0)
stream_submit-Sent_example =
    stream_submit-Sent taking busy
      (record new_stream { extra_waits = record { engine = 1; channel = 2; value = 5 } ∷ [] }) 0 nop
      0 refl

stream_wait_event-event_record_example :
    let rt' = (event_record taking busy 8 none).1 in
    let (e, rt'') = stream_wait_event rt' (some 16) 8 in
    let s = resolve rt'' (some 16) in
    let at = (resolve rt' none).tail in
    (e ≡ sg_ok)
    × Waits taking rt'' s 1 (make_cmd 2) 4096 at (stream_submit taking rt'' s 1 (make_cmd 2) 4096)
unfolding event_record
stream_wait_event-event_record_example =
    stream_wait_event-event_record taking busy 8 none (some 16) 1 (make_cmd 2) 4096 refl refl

abbrev device_queues : Queues Device
device_queues = record {
  submit = λ a d. (ok, record { fence = 1; out_flags = 0 }, d);
  wait = λ w d. (ok, d);
}

abbrev device_buffers : Buffers Device
device_buffers = record {
  alloc = λ n d. (ok, 4096, d);
  free = λ a d. (ok, d);
  alloc_managed = λ n d. (ok, (4096, 8192), d);
  pin = λ a n d. (ok, d);
  unpin = λ a d. (ok, d);
  hold = λ h d. d;
  memalign = λ a n d. (some 4096, d);
  release = λ a d. d;
}

abbrev opened_once : Runtime Device
opened_once = record (fresh quiet) { fd = pos 3 }
