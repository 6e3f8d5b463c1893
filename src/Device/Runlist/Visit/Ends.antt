-- ===== src/Device/Runlist/Visit/Ends.antt =====
-- What a whole visit does, and that it ends for cause.
use softgpu.Base.{
  ℕ, zero, suc, ◌+◌, ◌-◌, ◌≤◌, ◌<◌, ◌≡◌, refl, ap, subst, ◌⊎◌, inl, inr, arith, Bool-cases, true,
  false, ◌==◌, u64_mod, eq_or_ne,
}
use softgpu.Device.{Device}
use softgpu.Device.Execute.{Float32}
use softgpu.Device.Runlist.{head, wait_blocked}
use softgpu.Device.Runlist.Visit.{Visit, Readings, visit_round, visit_from, visit}
use softgpu.Device.Runlist.Visit.Course.{IsQuiet, Moved, Moved-trans, Moved-refl}
use softgpu.Device.Runlist.Visit.Boundary.{Stops}
use softgpu.Device.Runlist.Visit.Rounds.{Round, visit_round-Round}

-- What a visit leaves: only its channel has changed, its GET by the commands counted and not past PUT, no
-- interrupt is left armed for what has retired, and the visit had cause to end.
pub record Visited (e c : ℕ) (v v' : Visit) : Type 0 where
  pub moved : Moved e c v.dev v'.dev
  pub quiet : IsQuiet (v.dev.channel e c) → IsQuiet (v'.dev.channel e c)
  pub counted :
      v'.cmds_executed + (v.dev.channel e c).get ≡ v.cmds_executed + (v'.dev.channel e c).get
  pub within : (v'.dev.channel e c).get ≤ (v'.dev.channel e c).put
  pub stops : Stops e c v'.dev

-- A round, and the rounds after it.
Round-Visited : (e c : ℕ) (v u w : Visit) → Round e c v true u → Visited e c u w → Visited e c v w
Round-Visited e c v u w h k = record {
  moved = Moved-trans e c _ _ _ h.moved k.moved;
  quiet = λ z. k.quiet (h.quiet z);
  counted = omega (arith, h.counted, k.counted);
  within = k.within;
  stops = k.stops;
}

Round-last :
    (e c : ℕ) (v u : Visit)
    → (v.dev.channel e c).get < (v.dev.channel e c).put
    → Round e c v false u
    → Visited e c v u
Round-last e c v u l h = record {
  moved = h.moved;
  quiet = h.quiet;
  counted = h.counted;
  within = omega (arith, h.most, l, h.moved.own.same_put);
  stops = h.stops refl;
}

module _ (r : Readings) (e c timeslice vram_size : ℕ) (f : Float32) where
  visit_from-Visited :
      (n : ℕ) (v : Visit)
      → v.put ≡ (v.dev.channel e c).put
      → (v.dev.channel e c).get ≤ v.put
      → v.put ≤ (v.dev.channel e c).get + n
      → v.put < u64_mod
      → Visited e c v (visit_from r e c timeslice vram_size f n v)
  unfolding visit_from
  visit_from-Visited zero v q g l b = record {
    moved = Moved-refl e c v.dev;
    quiet = λ z. z;
    counted = refl;
    within = omega (arith, q, g);
    stops = unfold Stops in inl (omega (arith, q, g, l));
  }
  visit_from-Visited (suc n) v q g l b =
      let u = visit_round r e c timeslice vram_size f v in
      elim (Bool-cases ((v.dev.channel e c).get == v.put)) [
        | inl t ↦ rw t (record {
          moved = Moved-refl e c v.dev;
          quiet = λ z. z;
          counted = refl;
          within = omega (arith, q, g);
          stops = unfold Stops in inl (ground (arith, t, q));
        })
        | inr t ↦
            let k : (v.dev.channel e c).get < (v.dev.channel e c).put = ground (arith, t, g, q) in
            let h = visit_round-Round r e c timeslice vram_size f v q (omega (arith, k, q, b)) in
            elim (Bool-cases u.0) [
              | inl m ↦
                  let h' = subst (λ x. Round e c v x u.1) m h in
                  let p = h'.its_put in
                  let s = h'.moved.own.same_put in
                  let up = h'.next refl in
                  rw (t, m)
                    (Round-Visited e c v u.1 _ h' (
                      visit_from-Visited n u.1 p (omega (arith, p, s, up, k))
                        (omega (arith, p, s, up, q, l)) (omega (arith, p, s, q, b))))
              | inr m ↦ rw (t, m) (Round-last e c v u.1 k (subst (λ x. Round e c v x u.1) m h))
            ]
      ]

  -- A visit of a channel c whose PUT is the one it was told, below 2 ^ 64 and not behind GET, changes no
  -- other channel, and neither the commands, PUT nor priority of c. GET of c moves up by the number of
  -- commands counted as executed, not past PUT. If no interrupt was armed for a command that had retired,
  -- none is after it. The loop ends, with c drained, blocked by a fence or parked with its fault queued,
  -- or with another channel of the engine able to run whose priority is better or the same.
  pub visit-Visited :
      (v : Visit)
      → v.put ≡ (v.dev.channel e c).put
      → (v.dev.channel e c).get ≤ v.put
      → v.put < u64_mod
      → Visited e c v (visit r e c timeslice vram_size f v)
  unfolding visit
  visit-Visited v q g b =
      visit_from-Visited (v.put - (v.dev.channel e c).get) v q g (omega (arith, g)) b

-- No channel goes back.
Moved-get :
    (e c : ℕ) (d d' : Device) (i j : ℕ)
    → Moved e c d d'
    → (d.channel i j).get ≤ (d'.channel i j).get
Moved-get e c d d' i j h = elim (eq_or_ne i e) [
  | inl q ↦ elim (eq_or_ne j c) [
    | inl r ↦ rw (q, r) h.own.get_up
    | inr n ↦ omega (arith, ap (λ x. x.get) (h.others i j (λ z. n z.1)))
  ]
  | inr n ↦ omega (arith, ap (λ x. x.get) (h.others i j (λ z. n z.0)))
]

-- A head that was not blocked and has not retired is not blocked.
Moved-unblocked :
    (e c : ℕ) (d d' : Device)
    → Moved e c d d'
    → (d'.channel e c).get ≡ (d.channel e c).get
    → wait_blocked d (head (d.channel e c)) ≡ false
    → wait_blocked d' (head (d'.channel e c)) ≡ false
unfolding wait_blocked
Moved-unblocked e c d d' h g b =
    let cmd = head (d.channel e c) in
    let same : head (d'.channel e c) ≡ cmd = rw (h.own.same_ring, h.own.same_depth, g) refl in
    let up = Moved-get e c d d' cmd.arg0 cmd.arg1 h in
    rw (same, h.same_engines, h.same_channels) (ground (arith, up, b))

module _ (r : Readings) (e c timeslice vram_size : ℕ) (f : Float32) where
  round_progress :
      (v : Visit)
      → v.put ≡ (v.dev.channel e c).put
      → (v.dev.channel e c).get + 1 < u64_mod
      → wait_blocked v.dev (head (v.dev.channel e c)) ≡ false
      → let w = (visit_round r e c timeslice vram_size f v).1.dev.channel e c in
        ((v.dev.channel e c).get < w.get) ⊎ (w.parked ≡ true)
  round_progress v q l b =
      let u = (visit_round r e c timeslice vram_size f v).1 in
      let h = visit_round-Round r e c timeslice vram_size f v q l in
      elim h.progress [
        | inl t ↦ inl (omega (arith, t))
        | inr (inl t) ↦ inr t
        | inr (inr t) ↦ elim (eq_or_ne (u.dev.channel e c).get (v.dev.channel e c).get) [
          | inl s ↦ cc (t, Moved-unblocked e c v.dev u.dev h.moved s b)
          | inr s ↦ inl (omega (arith, s, h.moved.own.get_up))
        ]
      ]

  first_progress :
      (m : ℕ) (v : Visit)
      → v.put ≡ (v.dev.channel e c).put
      → (v.dev.channel e c).get < v.put
      → v.put < u64_mod
      → v.put ≡ (v.dev.channel e c).get + suc m
      → wait_blocked v.dev (head (v.dev.channel e c)) ≡ false
      → let w = (visit_from r e c timeslice vram_size f (suc m) v).dev.channel e c in
        ((v.dev.channel e c).get < w.get) ⊎ (w.parked ≡ true)
  unfolding visit_from
  first_progress m v q g b l n =
      let u = visit_round r e c timeslice vram_size f v in
      let h = visit_round-Round r e c timeslice vram_size f v q (omega (arith, g, b)) in
      let p = round_progress v q (omega (arith, g, b)) n in
      let t : ((v.dev.channel e c).get == v.put) ≡ false = ground (arith, g) in
      elim (Bool-cases u.0) [
        | inl m' ↦
            let up = h.next m' in
            let s = h.moved.own.same_put in
            let i = h.its_put in
            let rest =
              visit_from-Visited r e c timeslice vram_size f m u.1 i (omega (arith, i, s, up, q, g))
                (omega (arith, i, s, up, q, l)) (omega (arith, i, s, q, b)) in
            rw (t, m') (inl (omega (arith, up, rest.moved.own.get_up)))
        | inr m' ↦ rw (t, m') p
      ]

  -- A visit of a channel that can run retires its head, or parks it.
  pub visit-progress :
      (v : Visit)
      → v.put ≡ (v.dev.channel e c).put
      → (v.dev.channel e c).get < v.put
      → v.put < u64_mod
      → wait_blocked v.dev (head (v.dev.channel e c)) ≡ false
      → let w = (visit r e c timeslice vram_size f v).dev.channel e c in
        ((v.dev.channel e c).get < w.get) ⊎ (w.parked ≡ true)
  unfolding visit
  visit-progress v q g b n =
      let m = v.put - (v.dev.channel e c).get - 1 in
      let k : v.put - (v.dev.channel e c).get ≡ suc m = omega (arith, g) in
      rw k (first_progress m v q g b (omega (arith, g)) n)
