-- ===== src/Device/Runlist/Turn/Seen.antt =====
-- A scan knows the PUT of the channel that it has chosen.
use softgpu.Base.{
  ℕ, zero, suc, ◌+◌, ◌%◌, ◌≡◌, refl, sym, ap, subst, ◌∙◌, inl, inr, Option, none, some, Bool-cases,
  false, ltb, ◌==◌, update, update_self, update_ne, eq_or_ne, not, ◌≢◌, some-injective,
}
use softgpu.Integers.{ℤ, ltb_int}
use softgpu.Device.{Device}
use softgpu.Device.Runlist.{Scan, is_ok, head, wait_blocked, choose, scan_one, scan_rounds, scan}
use softgpu.Device.Runlist.Channels.{IsSane, Evolves-IsSane}
use softgpu.Device.Runlist.Rounds.{Chosen, scan_one-Chosen, scan_one-Evolves}

unfoldable pub Seen : ℕ → Scan → Type 0
Seen e s = (k : ℕ) (p : ℤ) → s.chosen ≡ some (k, p) → s.seen_put k ≡ (s.dev.channel e k).put

scan_one-seen_put :
    (e : ℕ) (now : ℕ → ℕ) (s : Scan) (c : ℕ)
    → (scan_one e now s c).seen_put ≡ update s.seen_put c (s.dev.channel e c).put
unfolding scan_one
scan_one-seen_put e now s c =
    let ch = s.dev.channel e c in
    elim (Bool-cases (not (is_ok ch.fault_fail))) [
      | inl t ↦ rw t refl
      | inr t ↦ elim (Bool-cases ch.parked) [
        | inl p ↦ rw (t, p) refl
        | inr p ↦ elim (Bool-cases (ch.put == ch.get)) [
          | inl q ↦ rw (t, p, q) refl
          | inr q ↦ elim (Bool-cases (ltb ch.put ch.get)) [
            | inl l ↦ rw (t, p, q, l) refl
            | inr l ↦ elim (Bool-cases (wait_blocked s.dev (head ch))) [
              | inl w ↦ rw (t, p, q, l, w) refl
              | inr w ↦ rw (t, p, q, l, w) refl
            ]
          ]
        ]
      ]
    ]

-- Another choice than the newcomer was the choice before.
choose-other :
    (o : Option (ℕ × ℤ)) (c : ℕ) (q : ℤ) (k : ℕ) (p : ℤ)
    → choose o c q ≡ some (k, p)
    → k ≢ c
    → o ≡ some (k, p)
unfolding choose
choose-other none c q k p h n = elim (n (sym (ap (λ x. x.0) (some-injective (c, q) (k, p) h)))) [ ]
choose-other (some (c', p')) c q k p h n = elim (Bool-cases (ltb_int q p')) [
  | inl t ↦ elim (n (sym (ap (λ x. x.0) (some-injective (c, q) (k, p) (rw t at h))))) [ ]
  | inr t ↦ rw t at h
]

scan_one-other :
    (e : ℕ) (now : ℕ → ℕ) (s : Scan) (c k : ℕ) (p : ℤ)
    → (scan_one e now s c).chosen ≡ some (k, p)
    → k ≢ c
    → s.chosen ≡ some (k, p)
unfolding Chosen
scan_one-other e now s c k p h n = elim (scan_one-Chosen e now s c) [
  | inl (r, q, w) ↦ choose-other s.chosen c (s.dev.channel e c).priority k p (sym w ∙ h) n
  | inr (r, w) ↦ sym w ∙ h
]

scan_one-Seen :
    (e : ℕ) (now : ℕ → ℕ) (s : Scan) (c : ℕ) → IsSane s.dev → Seen e s → Seen e (scan_one e now s c)
unfolding Seen
scan_one-Seen e now s c n h k p q =
    let later = (scan_one-Evolves e now s c n).later e k in
    let seen = ap (λ f. f k) (scan_one-seen_put e now s c) in
    let put = (s.dev.channel e c).put in
    elim (eq_or_ne k c) [
      | inl t ↦
          let own : update s.seen_put c put k ≡ (s.dev.channel e k).put =
            subst (λ x. update s.seen_put c put x ≡ (s.dev.channel e x).put) (sym t)
              (update_self s.seen_put c put) in
          seen ∙ own ∙ sym later.same_put
      | inr t ↦
          seen
          ∙ update_ne s.seen_put c k put t
          ∙ h k p (scan_one-other e now s c k p q t)
          ∙ sym later.same_put
    ]

scan_rounds-Seen :
    (e : ℕ) (now : ℕ → ℕ) (rr i n : ℕ) (s : Scan)
    → IsSane s.dev
    → Seen e s
    → Seen e (scan_rounds e now rr i n s)
unfolding scan_rounds
scan_rounds-Seen e now rr i zero s v h = h
scan_rounds-Seen e now rr i (suc n) s v h =
    let c = (rr + i) % s.dev.num_channels in
    let s' = scan_one e now s c in
    scan_rounds-Seen e now rr (i + 1) n s'
      (Evolves-IsSane s.dev s'.dev (scan_one-Evolves e now s c v) v) (scan_one-Seen e now s c v h)

pub scan-Seen :
    (e : ℕ) (now : ℕ → ℕ) (rr : ℕ) (seen : ℕ → ℕ) (d : Device)
    → IsSane d
    → Seen e (scan e now rr seen d)
unfolding scan Seen
scan-Seen e now rr seen d v =
    scan_rounds-Seen e now rr 0 d.num_channels
      (record { dev = d; seen_put = seen; progress = false; pending = false; chosen = none }) v
      (λ k p q. cc)
