-- ===== src/Device/Runlist/Visit/Boundary.antt =====
-- Where a visit ends: drained, blocked, parked, or for another channel.
use softgpu.Base.{
  ℕ, zero, suc, ◌+◌, ◌≤◌, ◌<◌, ◌≡◌, refl, ◌∙◌, ◌⊎◌, inl, inr, arith, Bool, Bool-cases, true, false,
  not, ◌&&◌, ◌==◌, List, [], ◌∷◌, ◌++◌, leb, sub64, ◌≢◌, if◌then◌else◌,
}
use softgpu.Integers.{ℤ}
use softgpu.Device.{Device, Fault}
use softgpu.Device.Runlist.{head, wait_blocked}
use softgpu.Device.Runlist.Visit.{
  Visit, Readings, compares, competes, other_from, other_runnable, boundary,
}

-- Another channel of the engine can run, and its priority compares as asked.
pub record Rival (d : Device) (e self : ℕ) (p : ℤ) (better : Bool) (k : ℕ) : Type 0 where
  pub of_engine : k < d.num_channels
  pub another : k ≢ self
  pub compared : compares better (d.channel e k).priority p ≡ true
  pub awake : (d.channel e k).parked ≡ false
  pub pending : (d.channel e k).get < (d.channel e k).put
  pub unblocked : wait_blocked d (head (d.channel e k)) ≡ false

-- The visit of channel c has nothing left to run, waits for a fence, is parked with its fault queued, or
-- another channel of a better priority or of the same can run.
unfoldable pub Stops : ℕ → ℕ → Device → Type 0
Stops e c d =
    let ch = d.channel e c in
    (ch.get ≡ ch.put)
    ⊎ ((wait_blocked d (head ch) ≡ true)
        ⊎ (((ch.parked ≡ true)
              × (va : ℕ) × (fs : List Fault) × (d.faults
                  ≡ fs ++ (record { va = va; engine = e; channel = c } ∷ [])))
            ⊎ ((better : Bool) × (k : ℕ) × Rival d e c ch.priority better k)))

competes-tests :
    (d : Device) (e self : ℕ) (p : ℤ) (better : Bool) (k : ℕ)
    → competes d e self p better k ≡ true
    → k < d.num_channels
    → Rival d e self p better k
unfolding competes
competes-tests d e self p better k h l =
    let o = d.channel e k in
    let split : (k ≢ self)
        × (compares better o.priority p ≡ true)
        × (o.parked ≡ false)
        × (o.get < o.put)
        × (wait_blocked d (head o) ≡ false) =
      ground (arith, h) in
    record {
      of_engine = l;
      another = split.0;
      compared = split.1;
      awake = split.2;
      pending = split.3;
      unblocked = split.4;
    }

other_from-Rival :
    (d : Device) (e self : ℕ) (p : ℤ) (better : Bool) (c n : ℕ)
    → c + n ≤ d.num_channels
    → other_from d e self p better c n ≡ true
    → (k : ℕ) × Rival d e self p better k
unfolding other_from
other_from-Rival d e self p better c zero l h = cc
other_from-Rival d e self p better c (suc n) l h =
    elim (Bool-cases (competes d e self p better c)) [
      | inl t ↦ (c, competes-tests d e self p better c t (omega (arith, l)))
      | inr f ↦
          other_from-Rival d e self p better (c + 1) n (omega (arith, l)) (ground (arith, h, f))
    ]

rival-Stops :
    (d : Device) (e c : ℕ) (better : Bool)
    → other_runnable d e c (d.channel e c).priority better ≡ true
    → Stops e c d
unfolding Stops
rival-Stops d e c better h =
    let (k, r) =
      other_from-Rival d e c (d.channel e c).priority better 0 d.num_channels (omega arith) h in
    inr (inr (inr (better, k, r)))

pub record Bounded (e c : ℕ) (v : Visit) (more : Bool) (v' : Visit) : Type 0 where
  pub same_dev : v'.dev ≡ v.dev
  pub same_count : v'.cmds_executed ≡ v.cmds_executed
  pub its_put : v'.put ≡ (v.dev.channel e c).put
  pub stops : more ≡ false → Stops e c v.dev

-- A boundary changes no register, and ends the visit only for cause.
pub boundary-Bounded :
    (r : Readings) (e c timeslice k : ℕ) (v : Visit)
    → v.put ≡ (v.dev.channel e c).put
    → let (more, v') = boundary r e c timeslice k v in Bounded e c v more v'
unfolding boundary
boundary-Bounded r e c timeslice k v q =
    let ch = v.dev.channel e c in
    let put = if ch.get == v.put then ch.put else v.put in
    let its : put ≡ ch.put = ground (arith, q) in
    let mixed = v.dev.mixed_priority in
    let due = not (timeslice == 0) && leb timeslice (sub64 (r.checked k) v.slice_start) in
    let bounded : (w : Visit) (more : Bool)
        → w.dev ≡ v.dev
        → w.cmds_executed ≡ v.cmds_executed
        → w.put ≡ put
        → (more ≡ false → Stops e c v.dev)
        → Bounded e c v more w =
      λ w more a b p s. record { same_dev = a; same_count = b; its_put = p ∙ its; stops = s } in
    elim (Bool-cases (ch.get == put)) [
      | inl t ↦
          rw t (bounded _ false refl refl refl (λ x. unfold Stops in inl (ground (arith, t, its))))
      | inr t ↦ elim (Bool-cases (mixed && other_runnable v.dev e c ch.priority true)) [
        | inl u ↦
            rw (t, u)
              (bounded _ false refl refl refl (λ x. rival-Stops v.dev e c true (ground (arith, u))))
        | inr u ↦ elim (Bool-cases (due && other_runnable v.dev e c ch.priority false)) [
          | inl w ↦
              rw (t, u, w)
                (bounded _ false refl refl refl
                  (λ x. rival-Stops v.dev e c false (ground (arith, w))))
          | inr w ↦ elim (Bool-cases due) [
            | inl z ↦ rw (t, u, w, z) (bounded _ true refl refl refl (λ x. cc))
            | inr z ↦ rw (t, u, w, z) (bounded _ true refl refl refl (λ x. cc))
          ]
        ]
      ]
    ]
