-- ===== src/Device/Gate/Heard.antt =====
-- The invariant of the gate.
use softgpu.Base.{
  ℕ, ◌≡◌, ◌<◌, ◌≤◌, ◌⊎◌, inl, inr, refl, ◌∙◌, sym, ap, subst, Bool, true, false, update,
  update_self, update_ne, arith, eq_or_ne,
}
use softgpu.Device.Gate.{
  EngineAt, running, armed, checking, found, waiting, CallerAt, outside, stored, ringing, Gate,
  Step, Reachable, start, next, scan_step, advance_step, advance, Drained, park_step, arm_step,
  mark_step, pass_step, work_step, wait_step, return_step, leave_step, put_step, unpark_step,
  asleep_step, awake_step, ring_step, other_step, scan_put, arm, mark_asleep, leave, signal,
  store_put, store_unparked, see_asleep, see_awake, ring,
}

-- A caller has stored for channel c and not finished its doorbell.
abbrev pub Pending : (ℕ → CallerAt) → ℕ → Type 0
Pending callers c = (p : ℕ) × ((callers p ≡ stored c) ⊎ (callers p ≡ ringing c))

-- Channel c has nothing new, or the engine's wait will not last, or a doorbell for c is under way.
abbrev pub Heard : Gate → ℕ → Type 0
Heard g c = (g.parked c ≡ true) ⊎ Drained g c ⊎ (g.seen < g.seq) ⊎ Pending g.callers c

-- How many channels the engine has asked since it stored `asleep_`, and is it still stored?
abbrev asked : ℕ → EngineAt → ℕ
asked n running = 0
asked n armed = 0
asked n (checking c) = c
asked n found = 0
asked n waiting = n

abbrev is_gated : EngineAt → Bool
is_gated running = false
is_gated armed = false
is_gated (checking c) = true
is_gated found = true
is_gated waiting = true

record Inv (n : ℕ) (g : Gate) : Type 0 where
  flag : g.asleep ≡ is_gated g.engine
  seen_le : g.seen ≤ g.seq
  heard : (c : ℕ) → c < asked n g.engine → Heard g c

not_gated : (n : ℕ) (e : EngineAt) → is_gated e ≡ false → asked n e ≡ 0
not_gated n running h = refl
not_gated n armed h = refl
not_gated n (checking c) h = cc
not_gated n found h = cc
not_gated n waiting h = cc

-- Another caller's store leaves a pending doorbell pending.
pending_beside :
    (callers : ℕ → CallerAt) (p x : ℕ) (to : CallerAt)
    → callers p ≡ outside
    → Pending callers x
    → Pending (update callers p to) x
pending_beside callers p x to o (q, h) = elim (eq_or_ne q p) [
  | inl e ↦ absurd (busy (subst (λ y. (callers y ≡ stored x) ⊎ (callers y ≡ ringing x)) e h))
  | inr e ↦ (q, rw (update_ne callers p q to e) h)
]
  where
    busy : (callers p ≡ stored x) ⊎ (callers p ≡ ringing x) → ⊥
    busy (inl y) = cc (o, y)
    busy (inr y) = cc (o, y)

pending_seen :
    (callers : ℕ → CallerAt) (p c x : ℕ)
    → callers p ≡ stored c
    → Pending callers x
    → Pending (update callers p (ringing c)) x
pending_seen callers p c x o (q, h) = elim (eq_or_ne q p) [
  | inl e ↦ (
    p,
    inr (
        update_self callers p (ringing c)
        ∙ ap ringing (same (subst (λ y. (callers y ≡ stored x) ⊎ (callers y ≡ ringing x)) e h))),
  )
  | inr e ↦ (q, rw (update_ne callers p q (ringing c) e) h)
]
  where
    same : (callers p ≡ stored x) ⊎ (callers p ≡ ringing x) → c ≡ x
    same (inl y) = cc (o, y)
    same (inr y) = cc (o, y)

-- Where the engine goes with no channel asked.
moved :
    (n : ℕ) (g g' : Gate)
    → g'.asleep ≡ is_gated g'.engine
    → g'.seen ≤ g'.seq
    → asked n g'.engine ≡ 0
    → Inv n g'
moved n g g' f s a = record { flag = f; seen_le = s; heard = λ c l. absurd (omega (arith, a)) }

Step-Inv : (n : ℕ) {g g' : Gate} → Step n g g' → Inv n g → Inv n g'
unfolding scan_put advance arm mark_asleep leave signal store_put store_unparked see_asleep
    see_awake ring
Step-Inv n (scan_step g c e) i = moved n g (scan_put g c) i.flag i.seen_le (ap (λ x. asked n x) e)
Step-Inv n (advance_step g c get b e) i =
    moved n g (advance g c get b) i.flag i.seen_le (ap (λ x. asked n x) e)
Step-Inv n (park_step g c e) i =
    moved n g (record g { parked = update g.parked c true }) i.flag i.seen_le
      (ap (λ x. asked n x) e)
Step-Inv n (arm_step g e) i = moved n g (arm g) (i.flag ∙ ap is_gated e) (omega arith) refl
Step-Inv n (mark_step g e) i = moved n g (mark_asleep g) refl i.seen_le refl
Step-Inv n (pass_step g c e l h) i = record {
  flag = i.flag ∙ ap is_gated e;
  seen_le = i.seen_le;
  heard = λ x u. elim (eq_or_ne x c) [
    | inl q ↦ rw q (elim h [ inl y ↦ inl y | inr y ↦ inr (inl y) ])
    | inr q ↦ i.heard x (rw e (omega arith))
  ];
}
Step-Inv n (work_step g c e l w) i =
    moved n g (record g { engine = found }) (i.flag ∙ ap is_gated e) i.seen_le refl
Step-Inv n (wait_step g e) i = record {
  flag = i.flag ∙ ap is_gated e;
  seen_le = i.seen_le;
  heard = λ x u. i.heard x (rw e u);
}
Step-Inv n (return_step g e) i =
    moved n g (record g { engine = found }) (i.flag ∙ ap is_gated e) i.seen_le refl
Step-Inv n (leave_step g e) i = moved n g (leave g) refl i.seen_le refl
Step-Inv n (put_step g p c v e l) i = record {
  flag = i.flag;
  seen_le = i.seen_le;
  heard = λ x u. elim (eq_or_ne x c) [
    | inl q ↦ rw q (inr (inr (inr (p, inl (update_self g.callers p (stored c))))))
    | inr q ↦ elim (i.heard x u) [
      | inl y ↦ inl y
      | inr (inl y) ↦ inr (inl (update_ne g.put c x v q ∙ y.0, y.1))
      | inr (inr (inl y)) ↦ inr (inr (inl y))
      | inr (inr (inr y)) ↦ inr (inr (inr (pending_beside g.callers p x (stored c) e y)))
    ]
  ];
}
Step-Inv n (unpark_step g p c e) i = record {
  flag = i.flag;
  seen_le = i.seen_le;
  heard = λ x u. elim (eq_or_ne x c) [
    | inl q ↦ rw q (inr (inr (inr (p, inl (update_self g.callers p (stored c))))))
    | inr q ↦ elim (i.heard x u) [
      | inl y ↦ inl (update_ne g.parked c x false q ∙ y)
      | inr (inl y) ↦ inr (inl y)
      | inr (inr (inl y)) ↦ inr (inr (inl y))
      | inr (inr (inr y)) ↦ inr (inr (inr (pending_beside g.callers p x (stored c) e y)))
    ]
  ];
}
Step-Inv n (asleep_step g p c e a) i = record {
  flag = i.flag;
  seen_le = i.seen_le;
  heard = λ x u. elim (i.heard x u) [
    | inl y ↦ inl y
    | inr (inl y) ↦ inr (inl y)
    | inr (inr (inl y)) ↦ inr (inr (inl y))
    | inr (inr (inr y)) ↦ inr (inr (inr (pending_seen g.callers p c x e y)))
  ];
}
Step-Inv n (awake_step g p c e a) i =
    moved n g (see_awake g p) i.flag i.seen_le (not_gated n g.engine (sym i.flag ∙ a))
Step-Inv n (ring_step g p c e) i = record {
  flag = i.flag;
  seen_le = omega (arith, i.seen_le);
  heard = λ x u. inr (inr (inl (omega (arith, i.seen_le))));
}
Step-Inv n (other_step g) i = record {
  flag = i.flag;
  seen_le = omega (arith, i.seen_le);
  heard = λ x u. inr (inr (inl (omega (arith, i.seen_le))));
}

Reachable-Inv : (n : ℕ) {g : Gate} → Reachable n g → Inv n g
Reachable-Inv n start = record {
  flag = refl;
  seen_le = omega arith;
  heard = λ c l. inr (inl (refl, inl refl));
}
Reachable-Inv n (next r s) = Step-Inv n s (Reachable-Inv n r)

-- Whenever the engine sleeps on the bell's word that it saw, and no caller is between its store and the end
-- of its doorbell, every channel is parked, or has the PUT that the engine saw and either nothing left to run
-- or a head that waited for a fence when the engine asked for it.
pub waiting_heard :
    (n : ℕ) (g : Gate)
    → Reachable n g
    → g.engine ≡ waiting
    → g.seq ≡ g.seen
    → ((p : ℕ) → g.callers p ≡ outside)
    → (c : ℕ) → c < n
    → (g.parked c ≡ true) ⊎ Drained g c
waiting_heard n g r e s o c l = elim ((Reachable-Inv n r).heard c (rw e l)) [
  | inl y ↦ inl y
  | inr (inl y) ↦ inr y
  | inr (inr (inl y)) ↦ absurd (omega arith)
  | inr (inr (inr (p, inl y))) ↦ cc (o p, y)
  | inr (inr (inr (p, inr y))) ↦ cc (o p, y)
]
