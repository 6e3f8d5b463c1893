-- ===== src/Device/Runlist/Visit/Course.antt =====
-- How a visit changes the device: only its own channel, whose commands, PUT and priority stay.
use softgpu.Base.{
  ℕ, ◌≤◌, ◌<◌, ◌≡◌, refl, ◌∙◌, ◌⊎◌, inl, inr, arith, Bool-cases, not, ◌&&◌, leb, ◌==◌, update,
  eq_or_ne, ap, subst, sym, eq→==, ne→==,
}
use softgpu.Device.{Channel, Device, set_channel}
use softgpu.Device.Runlist.{fire}
use softgpu.Device.Runlist.Channels.{set_channel_self}

-- No interrupt is armed for what the channel has retired.
unfoldable pub IsQuiet : Channel → Type 0
IsQuiet ch = (ch.irq_target ≡ 0) ⊎ (ch.get < ch.irq_target)

pub record Ahead (x y : Channel) : Type 0 where
  pub same_ring : y.ring ≡ x.ring
  pub same_depth : y.depth ≡ x.depth
  pub same_put : y.put ≡ x.put
  pub same_priority : y.priority ≡ x.priority
  pub get_up : x.get ≤ y.get

pub record Moved (e c : ℕ) (d d' : Device) : Type 0 where
  pub same_engines : d'.num_engines ≡ d.num_engines
  pub same_channels : d'.num_channels ≡ d.num_channels
  pub same_mixed : d'.mixed_priority ≡ d.mixed_priority
  pub others : (i j : ℕ) → ¬ ((i ≡ e) × (j ≡ c)) → d'.channel i j ≡ d.channel i j
  pub own : Ahead (d.channel e c) (d'.channel e c)

pub Ahead-refl : (x : Channel) → Ahead x x
Ahead-refl x = record {
  same_ring = refl;
  same_depth = refl;
  same_put = refl;
  same_priority = refl;
  get_up = omega arith;
}

pub Moved-refl : (e c : ℕ) (d : Device) → Moved e c d d
Moved-refl e c d = record {
  same_engines = refl;
  same_channels = refl;
  same_mixed = refl;
  others = λ i j h. refl;
  own = Ahead-refl _;
}

pub Moved-trans :
    (e c : ℕ) (d d' d'' : Device) → Moved e c d d' → Moved e c d' d'' → Moved e c d d''
Moved-trans e c d d' d'' h k = record {
  same_engines = k.same_engines ∙ h.same_engines;
  same_channels = k.same_channels ∙ h.same_channels;
  same_mixed = k.same_mixed ∙ h.same_mixed;
  others = λ i j n. k.others i j n ∙ h.others i j n;
  own = record {
    same_ring = k.own.same_ring ∙ h.own.same_ring;
    same_depth = k.own.same_depth ∙ h.own.same_depth;
    same_put = k.own.same_put ∙ h.own.same_put;
    same_priority = k.own.same_priority ∙ h.own.same_priority;
    get_up = omega (arith, h.own.get_up, k.own.get_up);
  };
}

-- What the registers of the channels do not show.
pub fields-Moved :
    (e c : ℕ) (d d' d'' : Device)
    → d''.num_engines ≡ d'.num_engines
    → d''.num_channels ≡ d'.num_channels
    → d''.mixed_priority ≡ d'.mixed_priority
    → d''.channel ≡ d'.channel
    → Moved e c d d'
    → Moved e c d d''
fields-Moved e c d d' d'' p q r s h = record {
  same_engines = p ∙ h.same_engines;
  same_channels = q ∙ h.same_channels;
  same_mixed = r ∙ h.same_mixed;
  others = λ i j n. ap (λ f. f i j) s ∙ h.others i j n;
  own = subst (λ f. Ahead (d.channel e c) (f e c)) (sym s) h.own;
}

pub set_channel_ne :
    (d : Device) (e c : ℕ) (ch : Channel) (i j : ℕ)
    → ¬ ((i ≡ e) × (j ≡ c))
    → (set_channel d e c ch).channel i j ≡ d.channel i j
unfolding set_channel update
set_channel_ne d e c ch i j h = elim (eq_or_ne i e) [
  | inl q ↦ elim (eq_or_ne j c) [
    | inl r ↦ elim (h (q, r)) [ ]
    | inr r ↦ rw (q, eq→== e e refl, ne→== j c r) refl
  ]
  | inr q ↦ rw (ne→== i e q) refl
]

pub set_channel-Moved :
    (d : Device) (e c : ℕ) (ch : Channel)
    → Ahead (d.channel e c) ch
    → Moved e c d (set_channel d e c ch)
set_channel-Moved d e c ch h = record {
  same_engines = unfold set_channel in refl;
  same_channels = unfold set_channel in refl;
  same_mixed = unfold set_channel in refl;
  others = set_channel_ne d e c ch;
  own = rw (set_channel_self d e c ch) h;
}

-- The interrupt moves no `get`, and leaves none armed for what has retired.
pub fire-Moved :
    (d : Device) (e c now : ℕ)
    → let d' = fire d e c now in
      Moved e c d d' × ((d'.channel e c).get ≡ (d.channel e c).get) × IsQuiet (d'.channel e c)
unfolding fire IsQuiet
fire-Moved d e c now =
    let ch = d.channel e c in
    let ch' = record ch { irq_target = 0; last_irq_cycles = now } in
    let self = set_channel_self d e c ch' in
    elim (Bool-cases (not (ch.irq_target == 0) && leb ch.irq_target ch.get)) [
      | inl t ↦ rw t (
        fields-Moved e c d (set_channel d e c ch') _ refl refl refl refl (
            set_channel-Moved d e c ch' (record {
              same_ring = refl;
              same_depth = refl;
              same_put = refl;
              same_priority = refl;
              get_up = omega arith;
            })),
        ap (λ x. x.get) self,
        inl (ap (λ x. x.irq_target) self),
      )
      | inr f ↦ rw f (Moved-refl e c d, refl, ground (arith, f))
    ]
