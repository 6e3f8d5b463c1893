-- ===== src/Device/Runlist/Visit/Rounds.antt =====
-- One round of a visit: it retires the head, or the visit ends there.
use softgpu.Base.{
  ℕ, zero, suc, ◌+◌, ◌≤◌, ◌<◌, ◌≡◌, refl, sym, ap, subst, ◌∙◌, ◌⊎◌, inl, inr, arith, Bool,
  Bool-cases, true, false, not, ◌&&◌, ◌==◌, add64, u64_mod, ◌||◌, leb,
}
use softgpu.Errno.{Rc, ok, einval, positive}
use softgpu.Device.{Command, Replay, set_channel, op_wait_fence, push_fault}
use softgpu.Device.Runs.{Ended, success, page_fault, split, refused}
use softgpu.Device.Execute.{Float32}
use softgpu.Device.Runlist.{fire, head, wait_blocked}
use softgpu.Device.Runlist.Channels.{set_channel_self}
use softgpu.Device.Runlist.Visit.{
  Visit, Readings, wake_one, wake_from, wake_blocked_sleepers, retire_head, park, boundary,
  executed, finish, visit_round, stick_error, set_replay, rewound,
}
use softgpu.Device.Runlist.Visit.Course.{
  IsQuiet, Moved, Moved-trans, Moved-refl, set_channel-Moved, fire-Moved, fields-Moved,
}
use softgpu.Device.Runlist.Visit.Boundary.{Stops, boundary-Bounded}

-- Waking the others changes neither the registers, nor the count, nor `put`.
abbrev Apart : Visit → Visit → Type 0
Apart v w = (w.dev ≡ v.dev) × (w.cmds_executed ≡ v.cmds_executed) × (w.put ≡ v.put)

wake_one-Apart : (r : Readings) (e c k i : ℕ) (v : Visit) → Apart v (wake_one r e c k i v)
unfolding wake_one
wake_one-Apart r e c k i v = elim (Bool-cases (not (i == e) && r.asleep_blocked k i)) [
  | inl t ↦ rw t (refl, refl, refl)
  | inr t ↦ rw t (refl, refl, refl)
]

wake_from-Apart : (r : Readings) (e c k i n : ℕ) (v : Visit) → Apart v (wake_from r e c k i n v)
unfolding wake_from
wake_from-Apart r e c k i zero v = (refl, refl, refl)
wake_from-Apart r e c k i (suc n) v =
    let (a, b, p) = wake_one-Apart r e c k i v in
    let (a', b', p') = wake_from-Apart r e c k (i + 1) n (wake_one r e c k i v) in
    (a' ∙ a, b' ∙ b, p' ∙ p)

wake_blocked_sleepers-Apart :
    (r : Readings) (e c k : ℕ) (v : Visit) → Apart v (wake_blocked_sleepers r e c k v)
unfolding wake_blocked_sleepers
wake_blocked_sleepers-Apart r e c k v = elim (Bool-cases (r.num_blocked k == 0)) [
  | inl t ↦ rw t (refl, refl, refl)
  | inr t ↦ rw t (wake_from-Apart r e c k 0 v.dev.num_engines v)
]

-- The head has retired.
pub record Retired (e c : ℕ) (v v' : Visit) : Type 0 where
  pub moved : Moved e c v.dev v'.dev
  pub next : (v'.dev.channel e c).get ≡ (v.dev.channel e c).get + 1
  pub quiet : IsQuiet (v'.dev.channel e c)
  pub counted : v'.cmds_executed ≡ suc v.cmds_executed
  pub same_put : v'.put ≡ v.put

pub retire_head-Retired :
    (r : Readings) (e c : ℕ) (rc : Rc) (v : Visit)
    → (v.dev.channel e c).get + 1 < u64_mod
    → Retired e c v (retire_head r e c rc v)
unfolding retire_head
retire_head-Retired r e c rc v l =
    let ch = v.dev.channel e c in
    let ch' = record ch { sticky_error = stick_error ch.sticky_error rc; get = add64 ch.get 1 } in
    let v' = record v {
      dev = set_channel v.dev e c ch';
      retired = true;
      cmds_executed = suc v.cmds_executed;
    } in
    let (same, count, put) = wake_blocked_sleepers-Apart r e c ch.get v' in
    let up : ch'.get ≡ ch.get + 1 = omega (arith, l) in
    let set = set_channel-Moved v.dev e c ch' (record {
      same_ring = refl;
      same_depth = refl;
      same_put = refl;
      same_priority = refl;
      get_up = omega (arith, up);
    }) in
    let (moved, get, quiet) = fire-Moved (set_channel v.dev e c ch') e c (r.fired ch.get) in
    rw same (record {
      moved = Moved-trans e c _ _ _ set moved;
      next = get ∙ ap (λ x. x.get) (set_channel_self v.dev e c ch') ∙ up;
      quiet = quiet;
      counted = count;
      same_put = put;
    })

-- The device that it leaves.
pub retire_head-dev :
    (r : Readings) (e c : ℕ) (rc : Rc) (v : Visit)
    → let ch = v.dev.channel e c in
      let ch' = record ch { sticky_error = stick_error ch.sticky_error rc; get = add64 ch.get 1 } in
      (retire_head r e c rc v).dev ≡ fire (set_channel v.dev e c ch') e c (r.fired ch.get)
unfolding retire_head
retire_head-dev r e c rc v =
    let ch = v.dev.channel e c in
    let ch' = record ch { sticky_error = stick_error ch.sticky_error rc; get = add64 ch.get 1 } in
    let v' = record v {
      dev = set_channel v.dev e c ch';
      retired = true;
      cmds_executed = suc v.cmds_executed;
    } in
    ap (λ d. fire d e c (r.fired ch.get)) (wake_blocked_sleepers-Apart r e c ch.get v').0

-- What a round of the visit does, with whether it goes on.
pub record Round (e c : ℕ) (v : Visit) (more : Bool) (v' : Visit) : Type 0 where
  pub moved : Moved e c v.dev v'.dev
  pub quiet : IsQuiet (v.dev.channel e c) → IsQuiet (v'.dev.channel e c)
  pub counted :
      v'.cmds_executed + (v.dev.channel e c).get ≡ v.cmds_executed + (v'.dev.channel e c).get
  pub its_put : v'.put ≡ (v'.dev.channel e c).put
  pub most : (v'.dev.channel e c).get ≤ (v.dev.channel e c).get + 1
  pub next : more ≡ true → (v'.dev.channel e c).get ≡ (v.dev.channel e c).get + 1
  pub stops : more ≡ false → Stops e c v'.dev
  pub progress :
      ((v'.dev.channel e c).get ≡ (v.dev.channel e c).get + 1)
      ⊎ (((v'.dev.channel e c).parked ≡ true)
          ⊎ (wait_blocked v'.dev (head (v'.dev.channel e c)) ≡ true))

retire_head-Round :
    (r : Readings) (e c timeslice k : ℕ) (rc : Rc) (v : Visit)
    → v.put ≡ (v.dev.channel e c).put
    → (v.dev.channel e c).get + 1 < u64_mod
    → let (more, v') = boundary r e c timeslice k (retire_head r e c rc v) in Round e c v more v'
retire_head-Round r e c timeslice k rc v q l =
    let w = retire_head r e c rc v in
    let x = boundary r e c timeslice k w in
    let h = retire_head-Retired r e c rc v l in
    let b = boundary-Bounded r e c timeslice k w (h.same_put ∙ q ∙ sym h.moved.own.same_put) in
    let own = ap (λ d. d.channel e c) b.same_dev in
    let get = ap (λ ch. ch.get) own ∙ h.next in
    record {
      moved = subst (Moved e c v.dev) (sym b.same_dev) h.moved;
      quiet = λ z. subst IsQuiet (sym own) h.quiet;
      counted = omega (arith, get, b.same_count, h.counted);
      its_put = b.its_put ∙ sym (ap (λ ch. ch.put) own);
      most = omega (arith, get);
      next = λ m. get;
      stops = λ m. subst (Stops e c) (sym b.same_dev) (b.stops m);
      progress = inl get;
    }

-- A round may begin with what the registers do not show.
same-Round :
    (e c : ℕ) (v u : Visit) (more : Bool) (w : Visit)
    → Moved e c v.dev u.dev
    → u.dev.channel ≡ v.dev.channel
    → u.cmds_executed ≡ v.cmds_executed
    → Round e c u more w
    → Round e c v more w
same-Round e c v u more w m q n h =
    let get = ap (λ f. (f e c).get) q in
    record {
      moved = Moved-trans e c _ _ _ m h.moved;
      quiet = λ z. h.quiet (subst (λ f. IsQuiet (f e c)) (sym q) z);
      counted = omega (arith, get, h.counted, n);
      its_put = h.its_put;
      most = omega (arith, get, h.most);
      next = λ t. omega (arith, get, h.next t);
      stops = h.stops;
      progress = elim h.progress [ inl t ↦ inl (omega (arith, t, get)) | inr t ↦ inr t ];
    }

park-Round :
    (r : Readings) (e c va : ℕ) (v : Visit)
    → v.put ≡ (v.dev.channel e c).put
    → Round e c v false (park r e c va v)
unfolding park push_fault Stops
park-Round r e c va v q =
    let ch = record (v.dev.channel e c) { parked = true } in
    let self = set_channel_self v.dev e c ch in
    let set = set_channel-Moved v.dev e c ch (record {
      same_ring = refl;
      same_depth = refl;
      same_put = refl;
      same_priority = refl;
      get_up = omega arith;
    }) in
    let get = ap (λ x. x.get) self in
    record {
      moved = fields-Moved e c v.dev (set_channel v.dev e c ch) _ refl refl refl refl set;
      quiet = λ z. subst IsQuiet (sym self) (unfold IsQuiet in z);
      counted = omega (arith, get);
      its_put = q ∙ sym (ap (λ x. x.put) self);
      most = omega (arith, get);
      next = λ m. cc;
      stops = λ m. inr (inr (inl (ap (λ x. x.parked) self, va, _, refl)));
      progress = inr (inl (ap (λ x. x.parked) self));
    }

-- The replay does not show in the registers.
replayed-Round :
    (r : Readings) (e c timeslice : ℕ) (rc : Rc) (p : Replay) (v : Visit)
    → v.put ≡ (v.dev.channel e c).put
    → (v.dev.channel e c).get + 1 < u64_mod
    → let u = record v { dev = set_replay v.dev e c p } in
      let (more, v') = boundary r e c timeslice (v.dev.channel e c).get (retire_head r e c rc u) in
      Round e c v more v'
replayed-Round r e c timeslice rc p v q l =
    let u = record v { dev = set_replay v.dev e c p } in
    let k = (v.dev.channel e c).get in
    let x = boundary r e c timeslice k (retire_head r e c rc u) in
    let none = fields-Moved e c v.dev v.dev u.dev refl refl refl refl (Moved-refl e c v.dev) in
    same-Round e c v u x.0 x.1 none refl refl (retire_head-Round r e c timeslice k rc u q l)

module _ (r : Readings) (e c timeslice vram_size : ℕ) (f : Float32) where
  finish-Round :
      (rc : Ended) (v : Visit)
      → v.put ≡ (v.dev.channel e c).put
      → (v.dev.channel e c).get + 1 < u64_mod
      → let (more, v') = finish r e c timeslice vram_size f rc v in Round e c v more v'
  unfolding finish
  finish-Round (page_fault a) v q l = park-Round r e c a v q
  finish-Round success v q l = replayed-Round r e c timeslice ok (rewound (v.dev.replay e c)) v q l
  finish-Round split v q l =
      replayed-Round r e c timeslice (positive 2) (rewound (v.dev.replay e c)) v q l
  finish-Round (refused rc) v q l =
      replayed-Round r e c timeslice rc (rewound (v.dev.replay e c)) v q l

  executed-Round :
      (cmd : Command) (v : Visit)
      → v.put ≡ (v.dev.channel e c).put
      → (v.dev.channel e c).get + 1 < u64_mod
      → let (rc, u) = executed r e c timeslice vram_size f cmd v in
        let (more, v') = finish r e c timeslice vram_size f rc u in Round e c v more v'
  unfolding executed
  executed-Round cmd v q l =
      let (rc, u) = executed r e c timeslice vram_size f cmd v in
      let x = finish r e c timeslice vram_size f rc u in
      let none = fields-Moved e c v.dev v.dev u.dev refl refl refl refl (Moved-refl e c v.dev) in
      same-Round e c v u x.0 x.1 none refl refl (finish-Round rc u q l)

  -- A round retires the head and goes on, or ends the visit with or without it.
  pub visit_round-Round :
      (v : Visit)
      → v.put ≡ (v.dev.channel e c).put
      → (v.dev.channel e c).get + 1 < u64_mod
      → let (more, v') = visit_round r e c timeslice vram_size f v in Round e c v more v'
  unfolding visit_round
  visit_round-Round v q l =
      let cmd = head (v.dev.channel e c) in
      let k = (v.dev.channel e c).get in
      elim (Bool-cases (not (cmd.opcode == op_wait_fence))) [
        | inl t ↦ rw t (executed-Round cmd v q l)
        | inr t ↦
            elim (Bool-cases (leb v.dev.num_engines cmd.arg0 || leb v.dev.num_channels cmd.arg1)) [
              | inl u ↦ rw (t, u) (retire_head-Round r e c timeslice k einval v q l)
              | inr u ↦ elim (Bool-cases (wait_blocked v.dev cmd)) [
                | inl w ↦
                    rw (t, u, w)
                      (record {
                        moved = Moved-refl e c v.dev;
                        quiet = λ z. z;
                        counted = refl;
                        its_put = q;
                        most = omega arith;
                        next = λ m. cc;
                        stops = λ m. unfold Stops in inr (inl w);
                        progress = inr (inr w);
                      })
                | inr w ↦ rw (t, u, w) (retire_head-Round r e c timeslice k ok v q l)
              ]
            ]
      ]
