-- ===== src/Runtime/DevicePriorities.antt =====
-- The device's registers serve SG_IOC_SET_PRIORITY: the interface that the streams' channels stand on.
use softgpu.Base.{
  ℕ, ◌≡◌, ◌≢◌, refl, sym, ap, ◌∙◌, ◌⊎◌, inl, inr, false, ◌||◌, leb, Bool-cases, update, update_ne,
  update_self, eq_or_ne,
}
use softgpu.Integers.{ℤ, ltb_int}
use softgpu.Device.{
  Device, set_channel, set_channel_priority, mixed_engines, priority_least, priority_greatest,
}
use softgpu.Device.Priority.{set_channel_priority_lem}
use softgpu.Runtime.Api.{Priorities}

-- What a request that is served changes.
pub served :
    (e c : ℕ) (p : ℤ) (d : Device)
    → let d' = (set_channel_priority d e c p).1 in
      (d' ≡ d)
      ⊎ (d' ≡ record (set_channel d e c (record (d.channel e c) { priority = p })) {
        mixed_priority =
            mixed_engines
              (set_channel d e c (record (d.channel e c) { priority = p }))
              0
              d.num_engines;
      })
unfolding set_channel_priority set_channel
served e c p d = elim (Bool-cases (leb d.num_engines e || leb d.num_channels c)) [
  | inl t ↦ rw t (inl refl)
  | inr t ↦ rw t (elim (Bool-cases (ltb_int priority_least p || ltb_int p priority_greatest)) [
    | inl u ↦ rw u (inl refl)
    | inr u ↦ rw u (inr refl)
  ])
]

pub other_channel :
    (d : Device) (e c : ℕ) (p : ℤ) (i j : ℕ)
    → (i ≢ e) ⊎ (j ≢ c)
    → ((set_channel d e c (record (d.channel e c) { priority = p })).channel i j).priority
      ≡ (d.channel i j).priority
unfolding set_channel
other_channel d e c p i j h =
    let b = record (d.channel e c) { priority = p } in
    let row = update (d.channel e) c b in
    elim (eq_or_ne i e) [
      | inr q ↦ ap (λ x. (x j).priority) (update_ne d.channel e i row q)
      | inl q ↦ elim h [
        | inl k ↦ absurd (k q)
        | inr k ↦
            ap (λ x. (update d.channel e row x j).priority) q
            ∙ ap (λ x. (x j).priority) (update_self d.channel e row)
            ∙ ap (λ x. x.priority) (update_ne (d.channel e) c j b k)
            ∙ ap (λ x. (d.channel x j).priority) (sym q)
      ]
    ]

-- The requests of the runtime, served by Device::set_channel_priority.
unfoldable pub device_priorities : Priorities Device
unfolding set_channel
device_priorities = record {
  set_priority = λ e c p d. set_channel_priority d e c p;
  engines = λ d. d.num_engines;
  channels = λ d. d.num_channels;
  priority = λ d e c. (d.channel e c).priority;
  InRange = λ p. (ltb_int priority_least p ≡ false) × (ltb_int p priority_greatest ≡ false);
  accepts = λ e c p d h k r. elim (set_channel_priority_lem d e c p) [
    | inl s ↦ s.0
    | inr s ↦ absurd (s.1 (h, k, r.0, r.1))
  ];
  sets = λ e c p d q. elim (set_channel_priority_lem d e c p) [
    | inl s ↦ s.2
    | inr s ↦ absurd (cc (s.0, q))
  ];
  keeps = λ e c p d i j h. elim (served e c p d) [
    | inl s ↦ ap (λ x. (x.channel i j).priority) s
    | inr s ↦ ap (λ x. (x.channel i j).priority) s ∙ other_channel d e c p i j h
  ];
  keeps_engines = λ e c p d. elim (served e c p d) [
    | inl s ↦ ap (λ x. x.num_engines) s
    | inr s ↦ ap (λ x. x.num_engines) s
  ];
  keeps_channels = λ e c p d. elim (served e c p d) [
    | inl s ↦ ap (λ x. x.num_channels) s
    | inr s ↦ ap (λ x. x.num_channels) s
  ];
}
