-- ===== src/Device/Runlist/Visit.antt =====
-- src/device/device.cpp, `Device::run`: the visit of the channel that a scan has chosen. The visit runs with
-- no other thread between its accesses.
pub mod Course
pub mod Rounds
pub mod Ends
pub mod Boundary
use softgpu.Base.{
  ℕ, zero, suc, ◌+◌, ◌-◌, ◌%◌, ◌^◌, Bool, true, false, not, ◌&&◌, ◌||◌, ltb, leb, ◌==◌,
  if◌then◌else◌, add64, sub64, update,
}
use softgpu.Errno.{Rc, ok, einval, positive}
use softgpu.Integers.{ℤ, ltb_int}
use softgpu.Device.{
  Command, Channel, Replay, Fault, Device, op_wait_fence, fresh_replay, set_channel, push_fault,
}
use softgpu.Device.Runs.{Ended, success, page_fault, split, refused}
use softgpu.Device.Execute.{Float32, Board, Outcome, execute}
use softgpu.Device.Runlist.{is_ok, head, wait_blocked, stick, fire}

-- The clock at the points of the visit where it is read, and what it loads of the gates, at the command of
-- a number: `started` and `ended` around execute, `fired` for the interrupt, `checked` and `restarted` for
-- the timeslice, `woken` for each engine woken; `num_blocked` and `asleep_blocked` of wake_blocked_sleepers.
pub record Readings : Type 0 where
  pub started : ℕ → ℕ
  pub ended : ℕ → ℕ
  pub fired : ℕ → ℕ
  pub checked : ℕ → ℕ
  pub restarted : ℕ → ℕ
  pub woken : ℕ → ℕ → ℕ
  pub num_blocked : ℕ → ℕ
  pub asleep_blocked : ℕ → ℕ → Bool

-- What a visit reads and changes: the engine's `put`, `slice_start` and `retired`, the statistics of the
-- engine, `access_`, and the bells with their stamps. `cmds_executed` counts on past 2 ^ 64.
pub record Visit : Type 0 where
  pub dev : Device
  pub board : Board
  pub put : ℕ
  pub slice_start : ℕ
  pub retired : Bool
  pub access : ℕ
  pub busy_cycles : ℕ
  pub cmds_executed : ℕ
  pub faults : ℕ
  pub preempts : ℕ
  pub bells : ℕ → ℕ
  pub wake_stamp : ℕ → ℕ

-- The lambda `other_runnable`: channel c, and channels c, ..., c + n - 1.
abbrev pub compares : Bool → ℤ → ℤ → Bool
compares better p self =
    if better then ltb_int p self else not (ltb_int p self) && not (ltb_int self p)

unfoldable pub competes : Device → ℕ → ℕ → ℤ → Bool → ℕ → Bool
competes d e self p better c =
    let o = d.channel e c in
    not (c == self)
    && compares better o.priority p
    && not o.parked
    && ltb o.get o.put
    && not (wait_blocked d (head o))

unfoldable pub other_from : Device → ℕ → ℕ → ℤ → Bool → ℕ → ℕ → Bool
unfolding competes
other_from d e self p better c zero = false
other_from d e self p better c (suc n) =
    competes d e self p better c || other_from d e self p better (c + 1) n

abbrev pub other_runnable : Device → ℕ → ℕ → ℤ → Bool → Bool
other_runnable d e self p better = other_from d e self p better 0 d.num_channels

-- `rc`, as the int of the source.
abbrev pub code : Ended → Rc
code success = ok
code (page_fault a) = positive 1
code split = positive 2
code (refused rc) = rc

-- `compare_exchange_strong(0, rc)` when `rc != 0`.
abbrev pub stick_error : Rc → Rc → Rc
stick_error old rc = if is_ok rc then old else stick old rc

-- The replay after a command that ended.
abbrev pub rewound : Replay → Replay
rewound r = if r.gather then fresh_replay else record r { done = 0 }

abbrev pub set_replay : Device → ℕ → ℕ → Replay → Device
set_replay d e c r = record d { replay = update d.replay e (update (d.replay e) c r) }

module _ (r : Readings) (e c : ℕ) where
  -- The loop of Device::wake_blocked_sleepers when command k has retired: engine i, and engines
  -- i, ..., i + n - 1.
  unfoldable pub wake_one : ℕ → ℕ → Visit → Visit
  wake_one k i v =
      if not (i == e) && r.asleep_blocked k i
      then record v {
        wake_stamp = update v.wake_stamp i (r.woken k i);
        bells = update v.bells i ((v.bells i + 1) % 2 ^ 32);
      }
      else v

  unfoldable pub wake_from : ℕ → ℕ → ℕ → Visit → Visit
  unfolding wake_one
  wake_from k i zero v = v
  wake_from k i (suc n) v = wake_from k (i + 1) n (wake_one k i v)

  -- Device::wake_blocked_sleepers
  unfoldable pub wake_blocked_sleepers : ℕ → Visit → Visit
  unfolding wake_from
  wake_blocked_sleepers k v = if r.num_blocked k == 0 then v else wake_from k 0 v.dev.num_engines v

  -- The command has ended with `rc`: it retires, and the interrupt fires if it is due.
  unfoldable pub retire_head : Rc → Visit → Visit
  unfolding set_channel wake_blocked_sleepers fire
  retire_head rc v =
      let ch = v.dev.channel e c in
      let ch' = record ch { sticky_error = stick_error ch.sticky_error rc; get = add64 ch.get 1 } in
      let v' = record v {
        dev = set_channel v.dev e c ch';
        retired = true;
        cmds_executed = suc v.cmds_executed;
      } in
      let w = wake_blocked_sleepers ch.get v' in record w { dev = fire w.dev e c (r.fired ch.get) }

  -- The head faults: the channel parks before the fault is published.
  unfoldable pub park : ℕ → Visit → Visit
  unfolding set_channel push_fault
  park va v =
      let d = set_channel v.dev e c (record (v.dev.channel e c) { parked = true }) in
      record v {
        dev = push_fault d (record { va = va; engine = e; channel = c });
        faults = add64 v.faults 1;
      }

  module _ (timeslice_ns : ℕ) where
    -- The boundary after the command k: does the visit go on?
    unfoldable pub boundary : ℕ → Visit → Bool × Visit
    boundary k v =
        let ch = v.dev.channel e c in
        let put = if ch.get == v.put then ch.put else v.put in
        let v' = record v { put = put } in
        let mixed = v.dev.mixed_priority in
        let due = not (timeslice_ns == 0) && leb timeslice_ns (sub64 (r.checked k) v.slice_start) in
        let yielded = record v' { preempts = add64 v.preempts 1 } in
        if ch.get == put
        then (false, v')
        else if mixed && other_runnable v.dev e c ch.priority true
        then (false, yielded)
        else if due && other_runnable v.dev e c ch.priority false
        then (false, yielded)
        else if due
        then (true, record v' { slice_start = r.restarted k })
        else (true, v')

    module _ (vram_size : ℕ) (f : Float32) where
      -- What execute leaves behind, with its time and its access marks.
      unfoldable pub executed : Command → Visit → Ended × Visit
      executed cmd v =
          let k = (v.dev.channel e c).get in
          let (rc, r', b) = execute vram_size e f (v.dev.replay e c) cmd v.board in
          (
            rc,
            record v {
              dev = set_replay v.dev e c r';
              board = b;
              access = v.access + 2;
              busy_cycles = add64 v.busy_cycles (sub64 (r.ended k) (r.started k));
            },
          )

      unfoldable pub finish : Ended → Visit → Bool × Visit
      unfolding park retire_head boundary
      finish (page_fault a) v = (false, park a v)
      finish rc v =
          let d = set_replay v.dev e c (rewound (v.dev.replay e c)) in
          boundary (v.dev.channel e c).get (retire_head (code rc) (record v { dev = d }))

      -- One round of the `while` loop: false when it breaks.
      unfoldable pub visit_round : Visit → Bool × Visit
      unfolding executed finish
      visit_round v =
          let k = (v.dev.channel e c).get in
          let cmd = head (v.dev.channel e c) in
          let (rc, v') = executed cmd v in
          if not (cmd.opcode == op_wait_fence)
          then finish rc v'
          else if leb v.dev.num_engines cmd.arg0 || leb v.dev.num_channels cmd.arg1
          then boundary k (retire_head einval v)
          else if wait_blocked v.dev cmd
          then (false, v)
          else boundary k (retire_head ok v)

      -- The loop. A round that goes on has retired a command, so PUT - GET rounds do.
      unfoldable pub visit_from : ℕ → Visit → Visit
      unfolding visit_round
      visit_from zero v = v
      visit_from (suc n) v =
          let (more, v') = visit_round v in
          let rest = visit_from n v' in
          if (v.dev.channel e c).get == v.put then v else if more then rest else v'

      unfoldable pub visit : Visit → Visit
      unfolding visit_from
      visit v = visit_from (v.put - (v.dev.channel e c).get) v
