-- ===== src/Device/Runlist/Choice.antt =====
-- The channel that a scan picks: one that can run, of the best priority, first in turn.
use softgpu.Base.{
  ℕ, zero, suc, ◌+◌, ◌%◌, ◌<◌, ◌≡◌, refl, sym, subst, inl, inr, arith, Option, none, some, true,
  false, Bool-cases, eq_or_ne,
}
use softgpu.Integers.{ℤ, ltb_int, ltb_int_self, ltb_int_lower, ltb_int_below}
use softgpu.Device.{Device}
use softgpu.Device.Runlist.{Scan, choose, scan_one, scan_rounds, scan}
use softgpu.Device.Runlist.Channels.{Evolves, IsSane, Evolves-refl, Evolves-trans, Evolves-IsSane}
use softgpu.Device.Runlist.Rounds.{
  Runnable, Evolves-Runnable, Chosen, scan_one-Chosen, scan_one-Evolves,
}

-- The best of the first i rounds' channels, each taken as it was before the scan: k is its round.
pub record Best (d : Device) (e : ℕ) (at : ℕ → ℕ) (i : ℕ) (d' : Device) (c : ℕ) (p : ℤ) (k : ℕ)
    : Type 0 where
  pub in_scan : k < i
  pub its_channel : at k ≡ c
  pub its_priority : p ≡ (d.channel e c).priority
  pub runs : Runnable d' e c
  pub none_better :
      (j : ℕ) → j < i → Runnable d e (at j) → ltb_int (d.channel e (at j)).priority p ≡ false
  pub first_in_turn :
      (j : ℕ) → j < k → Runnable d e (at j) → ltb_int p (d.channel e (at j)).priority ≡ true

-- What the scan of i rounds has chosen.
unfoldable pub Picked : Device → ℕ → (ℕ → ℕ) → ℕ → Device → Option (ℕ × ℤ) → Type 0
Picked d e at i d' none = (j : ℕ) → j < i → ¬ Runnable d e (at j)
Picked d e at i d' (some (c, p)) = (k : ℕ) × Best d e at i d' c p k

-- What holds below i and at i holds below i + 1.
extend : (P : ℕ → Type 0) (i : ℕ) → ((j : ℕ) → j < i → P j) → P i → (j : ℕ) → j < i + 1 → P j
extend P i h k j l = elim (eq_or_ne j i) [
  | inl q ↦ subst P (sym q) k
  | inr q ↦ h j (omega (arith, l, q))
]

module _ (d : Device) (e : ℕ) (at : ℕ → ℕ) where
  prio : ℕ → ℤ
  prio j = (d.channel e (at j)).priority

  -- The i-th channel is best when every runnable one before it is beaten.
  takes :
      (i : ℕ) (d' : Device)
      → Runnable d' e (at i)
      → ((j : ℕ)
          → j < i
          → Runnable d e (at j)
          → (ltb_int (prio j) (prio i) ≡ false) × (ltb_int (prio i) (prio j) ≡ true))
      → Best d e at (i + 1) d' (at i) (prio i) i
  unfolding prio
  takes i d' r h = record {
    in_scan = omega arith;
    its_channel = refl;
    its_priority = refl;
    runs = r;
    none_better =
        extend (λ j. Runnable d e (at j) → ltb_int (prio j) (prio i) ≡ false) i
          (λ j l q. (h j l q).0) (λ q. ltb_int_self (prio i));
    first_in_turn = λ j l q. (h j l q).1;
  }

  -- The best so far stays when the i-th channel does not beat it or cannot run.
  stays :
      (i : ℕ) (d' d'' : Device) (c : ℕ) (p : ℤ) (k : ℕ)
      → Evolves d' d''
      → Best d e at i d' c p k
      → (Runnable d e (at i) → ltb_int (prio i) p ≡ false)
      → Best d e at (i + 1) d'' c p k
  unfolding prio
  stays i d' d'' c p k h b q = record {
    in_scan = omega (arith, b.in_scan);
    its_channel = b.its_channel;
    its_priority = b.its_priority;
    runs = Evolves-Runnable d' d'' e c h b.runs;
    none_better = extend (λ j. Runnable d e (at j) → ltb_int (prio j) p ≡ false) i b.none_better q;
    first_in_turn = b.first_in_turn;
  }

  -- A channel that can run, compared with the best so far.
  picks :
      (i : ℕ) (d' : Device) (o : Option (ℕ × ℤ))
      → Picked d e at i d' o
      → Runnable d' e (at i)
      → Picked d e at (i + 1) d' (choose o (at i) (prio i))
  unfolding Picked choose
  picks i d' none k r = (i, takes i d' r (λ j l q. elim (k j l q) [ ]))
  picks i d' (some (c, p)) (k, b) r = elim (Bool-cases (ltb_int (prio i) p)) [
    | inl t ↦ rw t (
      i,
      takes i d' r (λ j l q. (
        ltb_int_lower (prio i) p (prio j) t (unfold prio in b.none_better j l q),
        ltb_int_below (prio i) p (prio j) t (unfold prio in b.none_better j l q),
      )),
    )
    | inr f ↦ rw f (k, stays i d' d' c p k (Evolves-refl d') b (λ q. f))
  ]

  -- A channel that cannot run leaves the best as it was.
  skips :
      (i : ℕ) (d' d'' : Device) (o : Option (ℕ × ℤ))
      → Evolves d d'
      → Evolves d' d''
      → Picked d e at i d' o
      → (¬ Runnable d' e (at i))
      → Picked d e at (i + 1) d'' o
  unfolding Picked
  skips i d' d'' none h h' k r =
      extend (λ j. ¬ Runnable d e (at j)) i k (λ q. r (Evolves-Runnable d d' e (at i) h q))
  skips i d' d'' (some (c, p)) h h' (k, b) r =
      (k, stays i d' d'' c p k h' b (λ q. elim (r (Evolves-Runnable d d' e (at i) h q)) [ ]))

  -- One round of the scan.
  scan_one-Picked :
      (now : ℕ → ℕ) (i : ℕ) (s : Scan)
      → IsSane s.dev
      → Evolves d s.dev
      → Picked d e at i s.dev s.chosen
      → Picked d e at (i + 1) (scan_one e now s (at i)).dev (scan_one e now s (at i)).chosen
  unfolding Chosen
  scan_one-Picked now i s n h k = elim (scan_one-Chosen e now s (at i)) [
    | inl (r, q, w) ↦
        let same : (s.dev.channel e (at i)).priority ≡ prio i =
          unfold prio in (h.later e (at i)).same_priority in
        rw (q, w, same) (picks i s.dev s.chosen k r)
    | inr (r, w) ↦ rw w (
        skips i s.dev (scan_one e now s (at i)).dev s.chosen h (scan_one-Evolves e now s (at i) n) k
          r)
  ]

-- The rounds that are left, up to t.
scan_rounds-Picked :
    (d : Device) (e : ℕ) (now : ℕ → ℕ) (rr i n t : ℕ) (s : Scan)
    → i + n ≡ t
    → IsSane s.dev
    → Evolves d s.dev
    → Picked d e (λ j. (rr + j) % d.num_channels) i s.dev s.chosen
    → let s' = scan_rounds e now rr i n s in
      Evolves d s'.dev × Picked d e (λ j. (rr + j) % d.num_channels) t s'.dev s'.chosen
unfolding scan_rounds
scan_rounds-Picked d e now rr i zero t s q v h k =
    let r : i ≡ t = omega (arith, q) in
    (h, subst (λ x. Picked d e (λ j. (rr + j) % d.num_channels) x s.dev s.chosen) r k)
scan_rounds-Picked d e now rr i (suc n) t s q v h k =
    let at = λ (j : ℕ). (rr + j) % d.num_channels in
    let s' = scan_one e now s (at i) in
    let u = scan_one-Evolves e now s (at i) v in
    subst
      (λ m.
        let r = scan_rounds e now rr (i + 1) n (scan_one e now s ((rr + i) % m)) in
        Evolves d r.dev × Picked d e at t r.dev r.chosen)
      (sym h.same_channels)
      (scan_rounds-Picked d e now rr (i + 1) n t s' (omega (arith, q))
        (Evolves-IsSane s.dev s'.dev u v) (Evolves-trans d s.dev s'.dev h u)
        (scan_one-Picked d e at now i s v h k))

-- When PUT is not behind GET anywhere, a scan leaves every channel's commands, PUT and priority as
-- they were. If it chooses no channel, none could run before it. If it chooses one, that can run
-- after it, no channel that could run before it has a better priority, and those of them whose turn
-- is earlier have a worse one.
pub scan-Picked :
    (d : Device) (e : ℕ) (now : ℕ → ℕ) (rr : ℕ) (seen : ℕ → ℕ)
    → IsSane d
    → let s = scan e now rr seen d in
      Evolves d s.dev × Picked d e (λ j. (rr + j) % d.num_channels) d.num_channels s.dev s.chosen
unfolding scan
scan-Picked d e now rr seen v =
    scan_rounds-Picked d e now rr 0 d.num_channels d.num_channels
      (record { dev = d; seen_put = seen; progress = false; pending = false; chosen = none })
      (omega arith) v (Evolves-refl d) (unfold Picked in λ j l q. omega (arith, l))
