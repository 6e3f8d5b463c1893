-- ===== src/Device/Runlist/Rounds.antt =====
-- One round of a scan: what it does to the channels, and when it makes its channel the choice.
use softgpu.Base.{
  ℕ, ◌<◌, ◌≡◌, refl, ap, ◌∙◌, ◌⊎◌, inl, inr, arith, Option, true, false, ltb, ◌==◌, Bool-cases,
}
use softgpu.Integers.{ℤ}
use softgpu.Device.{Command, Device}
use softgpu.Device.Runlist.{Scan, is_ok, head, refuse, wait_blocked, choose, scan_one}
use softgpu.Device.Runlist.Channels.{
  Evolves, IsSane, Evolves-refl, set_channel-Evolves, fail_head-Evolves,
}

-- The engine could run the channel's head command now.
unfoldable pub Runnable : Device → ℕ → ℕ → Type 0
Runnable d e c =
    let ch = d.channel e c in
    (is_ok ch.fault_fail ≡ true)
    × (ch.parked ≡ false)
    × (ch.get < ch.put)
    × (wait_blocked d (head ch) ≡ false)

wait_blocked-Evolves :
    (d d' : Device) (cmd : Command)
    → Evolves d d'
    → wait_blocked d cmd ≡ false
    → wait_blocked d' cmd ≡ false
unfolding wait_blocked
wait_blocked-Evolves d d' cmd h b =
    let up = (h.later cmd.arg0 cmd.arg1).get_up in
    rw (h.same_engines, h.same_channels) (ground (arith, up, b))

-- What can run still can after other channels were scanned.
pub Evolves-Runnable : (d d' : Device) (e c : ℕ) → Evolves d d' → Runnable d e c → Runnable d' e c
unfolding Runnable
Evolves-Runnable d d' e c h (f, p, g, b) =
    let l = h.later e c in
    let k = l.kept f in
    let same : head (d'.channel e c) ≡ head (d.channel e c) =
      rw (l.same_ring, l.same_depth, k.0) refl in
    (
      k.1,
      l.same_parked ∙ p,
      omega (arith, g, k.0, l.same_put),
      ap (wait_blocked d') same ∙ wait_blocked-Evolves d d' (head (d.channel e c)) h b,
    )

-- The tests of one round, in their order.
Runnable-tests :
    (d : Device) (e c : ℕ)
    → Runnable d e c
    → let ch = d.channel e c in
      (is_ok ch.fault_fail ≡ true)
      × (ch.parked ≡ false)
      × ((ch.put == ch.get) ≡ false)
      × (ltb ch.put ch.get ≡ false)
      × (wait_blocked d (head ch) ≡ false)
unfolding Runnable
Runnable-tests d e c (f, p, g, b) = (f, p, ground (arith, g), ground (arith, g), b)

tests-Runnable :
    (d : Device) (e c : ℕ)
    → let ch = d.channel e c in
      is_ok ch.fault_fail ≡ true
      → ch.parked ≡ false
      → (ch.put == ch.get) ≡ false
      → ltb ch.put ch.get ≡ false
      → wait_blocked d (head ch) ≡ false
      → Runnable d e c
unfolding Runnable
tests-Runnable d e c f p q l b = (f, p, ground (arith, q, l), b)

-- One round either chooses between the best so far and its channel, which can run, or keeps it.
unfoldable pub Chosen : Device → ℕ → ℕ → Option (ℕ × ℤ) → Scan → Type 0
Chosen d e c o s =
    (Runnable d e c × (s.dev ≡ d) × (s.chosen ≡ choose o c (d.channel e c).priority))
    ⊎ ((¬ Runnable d e c) × (s.chosen ≡ o))

pub scan_one-Chosen :
    (e : ℕ) (now : ℕ → ℕ) (s : Scan) (c : ℕ) → Chosen s.dev e c s.chosen (scan_one e now s c)
unfolding Chosen scan_one
scan_one-Chosen e now s c =
    let ch = s.dev.channel e c in
    elim (Bool-cases (is_ok ch.fault_fail)) [
      | inr f ↦ rw f (inr ((λ r. let k = Runnable-tests s.dev e c r in cc), refl))
      | inl f ↦ rw f (elim (Bool-cases ch.parked) [
        | inl p ↦ rw p (inr ((λ r. let k = Runnable-tests s.dev e c r in cc), refl))
        | inr p ↦ rw p (elim (Bool-cases (ch.put == ch.get)) [
          | inl q ↦ rw q (inr ((λ r. let k = Runnable-tests s.dev e c r in cc), refl))
          | inr q ↦ rw q (elim (Bool-cases (ltb ch.put ch.get)) [
            | inl l ↦ rw l (inr ((λ r. let k = Runnable-tests s.dev e c r in cc), refl))
            | inr l ↦ rw l (elim (Bool-cases (wait_blocked s.dev (head ch))) [
              | inl b ↦ rw b (inr ((λ r. let k = Runnable-tests s.dev e c r in cc), refl))
              | inr b ↦ rw b (inl (tests-Runnable s.dev e c f p q l b, refl, refl))
            ])
          ])
        ])
      ])
    ]

refuse-Evolves : (d : Device) (e c : ℕ) → Evolves d (refuse d e c)
unfolding refuse
refuse-Evolves d e c = set_channel-Evolves d e c _ (record {
  same_ring = refl;
  same_depth = refl;
  same_put = refl;
  same_parked = refl;
  same_priority = refl;
  get_up = omega arith;
  bounded = λ h. h;
  kept = λ h. (refl, h);
})

pub scan_one-Evolves :
    (e : ℕ) (now : ℕ → ℕ) (s : Scan) (c : ℕ) → IsSane s.dev → Evolves s.dev (scan_one e now s c).dev
unfolding scan_one
scan_one-Evolves e now s c n =
    let ch = s.dev.channel e c in
    let same = Evolves-refl s.dev in
    elim (Bool-cases (is_ok ch.fault_fail)) [
      | inr f ↦ rw f (fail_head-Evolves s.dev e c (now c) n f)
      | inl f ↦ rw f (elim (Bool-cases ch.parked) [
        | inl p ↦ simp p same
        | inr p ↦ simp p (elim (Bool-cases (ch.put == ch.get)) [
          | inl q ↦ rw q same
          | inr q ↦ rw q (elim (Bool-cases (ltb ch.put ch.get)) [
            | inl l ↦ rw l (refuse-Evolves s.dev e c)
            | inr l ↦ rw l (elim (Bool-cases (wait_blocked s.dev (head ch))) [
              | inl b ↦ rw b same
              | inr b ↦ rw b same
            ])
          ])
        ])
      ])
    ]
