-- ===== src/Device/Runlist/Channels.antt =====
-- How a scan changes the channels: never their commands or priority, and `get` only upwards.
use softgpu.Base.{
  ℕ, ◌≤◌, ◌<◌, ◌≡◌, refl, sym, subst, ◌∙◌, inl, inr, arith, true, false, not, ◌&&◌, leb, ◌==◌,
  add64, u64_mod, update, eq→==, ne→==, eq_or_ne, Bool-cases, ==→ne,
}
use softgpu.Errno.{ok}
use softgpu.Device.{Channel, Device, set_channel}
use softgpu.Device.Runlist.{is_ok, fire, fail_head, stick}

pub record Later (x y : Channel) : Type 0 where
  pub same_ring : y.ring ≡ x.ring
  pub same_depth : y.depth ≡ x.depth
  pub same_put : y.put ≡ x.put
  pub same_parked : y.parked ≡ x.parked
  pub same_priority : y.priority ≡ x.priority
  pub get_up : x.get ≤ y.get
  pub bounded : x.get ≤ x.put → y.get ≤ y.put
  pub kept : is_ok x.fault_fail ≡ true → (y.get ≡ x.get) × (is_ok y.fault_fail ≡ true)

pub record Evolves (d d' : Device) : Type 0 where
  pub same_engines : d'.num_engines ≡ d.num_engines
  pub same_channels : d'.num_channels ≡ d.num_channels
  pub later : (e c : ℕ) → Later (d.channel e c) (d'.channel e c)

-- What the driver sees to: PUT is never behind GET, and no counter has reached 2 ^ 64.
unfoldable pub IsSane : Device → Type 0
IsSane d = (e c : ℕ) → ((d.channel e c).get ≤ (d.channel e c).put) × ((d.channel e c).put < u64_mod)

pub Later-refl : (x : Channel) → Later x x
Later-refl x = record {
  same_ring = refl;
  same_depth = refl;
  same_put = refl;
  same_parked = refl;
  same_priority = refl;
  get_up = omega arith;
  bounded = λ h. h;
  kept = λ h. (refl, h);
}

pub Later-trans : (x y z : Channel) → Later x y → Later y z → Later x z
Later-trans x y z h k = record {
  same_ring = k.same_ring ∙ h.same_ring;
  same_depth = k.same_depth ∙ h.same_depth;
  same_put = k.same_put ∙ h.same_put;
  same_parked = k.same_parked ∙ h.same_parked;
  same_priority = k.same_priority ∙ h.same_priority;
  get_up = omega (arith, h.get_up, k.get_up);
  bounded = λ b. k.bounded (h.bounded b);
  kept = λ f. ((k.kept (h.kept f).1).0 ∙ (h.kept f).0, (k.kept (h.kept f).1).1);
}

pub Evolves-refl : (d : Device) → Evolves d d
Evolves-refl d = record {
  same_engines = refl;
  same_channels = refl;
  later = λ e c. Later-refl (d.channel e c);
}

pub Evolves-trans : (d d' d'' : Device) → Evolves d d' → Evolves d' d'' → Evolves d d''
Evolves-trans d d' d'' h k = record {
  same_engines = k.same_engines ∙ h.same_engines;
  same_channels = k.same_channels ∙ h.same_channels;
  later = λ e c. Later-trans _ _ _ (h.later e c) (k.later e c);
}

pub Evolves-IsSane : (d d' : Device) → Evolves d d' → IsSane d → IsSane d'
unfolding IsSane
Evolves-IsSane d d' h s e c =
    ((h.later e c).bounded (s e c).0, omega (arith, s e c, (h.later e c).same_put))

pub set_channel-Evolves :
    (d : Device) (e c : ℕ) (ch : Channel)
    → Later (d.channel e c) ch
    → Evolves d (set_channel d e c ch)
unfolding set_channel update
set_channel-Evolves d e c ch h = record {
  same_engines = refl;
  same_channels = refl;
  later = λ e' c'. elim (eq_or_ne e' e) [
    | inl q ↦ elim (eq_or_ne c' c) [
      | inl r ↦ rw (q, r, eq→== e e refl, eq→== c c refl) h
      | inr r ↦ rw (q, eq→== e e refl, ne→== c' c r) (Later-refl (d.channel e c'))
    ]
    | inr q ↦ rw (ne→== e' e q) (Later-refl (d.channel e' c'))
  ];
}

pub set_channel_self :
    (d : Device) (e c : ℕ) (ch : Channel) → (set_channel d e c ch).channel e c ≡ ch
unfolding set_channel update
set_channel_self d e c ch = rw (eq→== e e refl, eq→== c c refl)

-- Changing what the channels' registers do not show.
pub fields-Evolves :
    (d d' d'' : Device)
    → d''.num_engines ≡ d'.num_engines
    → d''.num_channels ≡ d'.num_channels
    → d''.channel ≡ d'.channel
    → Evolves d d'
    → Evolves d d''
fields-Evolves d d' d'' p q r h = record {
  same_engines = p ∙ h.same_engines;
  same_channels = q ∙ h.same_channels;
  later = λ e c. subst (λ f. Later (d.channel e c) (f e c)) (sym r) (h.later e c);
}

pub fire-Evolves : (d : Device) (e c now : ℕ) → Evolves d (fire d e c now)
unfolding fire
fire-Evolves d e c now =
    let ch = d.channel e c in
    let ch' = record ch { irq_target = 0; last_irq_cycles = now } in
    let s = set_channel-Evolves d e c ch' (record {
      same_ring = refl;
      same_depth = refl;
      same_put = refl;
      same_parked = refl;
      same_priority = refl;
      get_up = omega arith;
      bounded = λ h. h;
      kept = λ h. (refl, h);
    }) in
    elim (Bool-cases (not (ch.irq_target == 0) && leb ch.irq_target ch.get)) [
      | inl t ↦ rw t (fields-Evolves d (set_channel d e c ch') _ refl refl refl s)
      | inr f ↦ rw f (Evolves-refl d)
    ]

-- A failed head: the channel's fault is taken, and its `get` moves on unless it is empty.
pub fail_head-Evolves :
    (d : Device) (e c now : ℕ)
    → IsSane d
    → is_ok (d.channel e c).fault_fail ≡ false
    → Evolves d (fail_head d e c now)
unfolding fail_head IsSane
fail_head-Evolves d e c now s f =
    let ch = d.channel e c in
    let ch' = record ch { fault_fail = ok; sticky_error = stick ch.sticky_error ch.fault_fail } in
    let ch'' = record ch' { get = add64 ch.get 1 } in
    elim (Bool-cases (ch.put == ch.get)) [
      | inl t ↦ rw t (
          set_channel-Evolves d e c ch' (record {
            same_ring = refl;
            same_depth = refl;
            same_put = refl;
            same_parked = refl;
            same_priority = refl;
            get_up = omega arith;
            bounded = λ h. h;
            kept = λ h. cc;
          }))
      | inr t ↦ rw t (
          Evolves-trans _ _ _
            (fields-Evolves d (set_channel d e c ch'') _ refl refl refl (
              set_channel-Evolves d e c ch'' (record {
                same_ring = refl;
                same_depth = refl;
                same_put = refl;
                same_parked = refl;
                same_priority = refl;
                get_up = omega (arith, s e c, ==→ne ch.put ch.get t);
                bounded = λ h. omega (arith, s e c, ==→ne ch.put ch.get t);
                kept = λ h. cc;
              })))
            (fire-Evolves _ e c now))
    ]
