-- ===== src/Runtime/StreamChannels.antt =====
-- `bind_channel` and `unbind_channel` keep the streams bound.
use softgpu.Base.{
  ℕ, suc, ◌-◌, ◌<◌, ◌≡◌, ◌≢◌, refl, sym, ap, subst, ◌∙◌, ◌⊎◌, inl, inr, List, [], ◌∷◌, ◌++◌, All,
  none, some, not, ◌&&◌, ◌==◌, update, update_self, update_ne, arith, eq_or_ne, Bool-cases,
  Option-cases,
}
use softgpu.Errno.{ok}
use softgpu.Integers.{ℤ}
use softgpu.Device.{priority_least, is_default}
use softgpu.Runtime.{sg_ok, invalid_value, ChanBind, Runtime}
use softgpu.Runtime.Api.{Priorities}
use softgpu.Runtime.Bind.{
  least_users, first_unused, set_priority_from, set_priority_all, take_channel, claim_unused,
  bind_found, bind_channel, unbind_channel,
}
use softgpu.Runtime.ChannelSearch.{
  uses, Agrees, Agrees-users, Agrees-unused, Found, least_users-Found, least_users-none,
  first_unused-some, first_unused-none,
}
use softgpu.Runtime.Bindings.{IsBound, set_priority_from-Programmed}

uses-cons_self : (c : ℕ) (p : ℤ) (l : List (ℕ × ℤ)) → uses c ((c, p) ∷ l) ≡ suc (uses c l)
unfolding uses
uses-cons_self c p l = ground arith

uses-cons_ne : (c k : ℕ) (p : ℤ) (l : List (ℕ × ℤ)) → k ≢ c → uses c ((k, p) ∷ l) ≡ uses c l
unfolding uses
uses-cons_ne c k p l q = ground (arith, q)

-- The priority of a changed channel, whichever channel is asked for.
update-priority :
    (bind : ℕ → ChanBind) (c : ℕ) (b : ChanBind) (j : ℕ)
    → b.priority ≡ (bind c).priority
    → (update bind c b j).priority ≡ (bind j).priority
update-priority bind c b j e = elim (eq_or_ne j c) [
  | inl q ↦
      ap (λ x. (update bind c b x).priority) q
      ∙ ap (λ x. x.priority) (update_self bind c b)
      ∙ e
      ∙ ap (λ x. (bind x).priority) (sym q)
  | inr q ↦ ap (λ x. x.priority) (update_ne bind c j b q)
]

uses_middle :
    (j : ℕ) (xs ys : List (ℕ × ℤ)) (s : ℕ × ℤ) → uses j (xs ++ s ∷ ys) ≡ uses j (s ∷ xs ++ ys)
unfolding uses
uses_middle j [] ys s = refl
uses_middle j ((k, p) ∷ xs) ys s = omega (arith, uses_middle j xs ys s)

All-middle :
    {A : Type 0} (P : A → Type 0) (xs ys : List A) (s : A)
    → All P (xs ++ s ∷ ys)
    → All P (s ∷ xs ++ ys)
All-middle P [] ys s h = h
All-middle P (x ∷ xs) ys s h = let t = All-middle P xs ys s h.1 in (t.0, (h.0, t.1))

module _ {D : Type 0} (api : Priorities D) where
  take_channel-IsBound :
      (rt : Runtime D) (l : List (ℕ × ℤ)) (c : ℕ) (p : ℤ)
      → IsBound api rt l
      → c < rt.num_channels
      → (rt.bind c).priority ≡ p
      → IsBound api (take_channel api rt c).2 ((c, p) ∷ l)
  unfolding take_channel
  take_channel-IsBound rt l c p w h e =
      let b = record (rt.bind c) { users = suc (rt.bind c).users } in
      record {
        counted = λ j. elim (eq_or_ne j c) [
          | inl q ↦
              ap (λ x. (update rt.bind c b x).users) q
              ∙ ap (λ x. x.users) (update_self rt.bind c b)
              ∙ ap suc (w.counted c)
              ∙ sym (uses-cons_self c p l)
              ∙ ap (λ x. uses x ((c, p) ∷ l)) (sym q)
          | inr q ↦
              ap (λ x. x.users) (update_ne rt.bind c j b q)
              ∙ w.counted j
              ∙ sym (uses-cons_ne j c p l (λ s. q (sym s)))
        ];
        agree = (
          (h, ap (λ x. x.priority) (update_self rt.bind c b) ∙ e),
          Agrees-users rt.bind rt.num_channels c b l refl w.agree,
        );
        programmed = λ i j a k. w.programmed i j a k ∙ sym (update-priority rt.bind c b j refl);
        engines = w.engines;
        channels = w.channels;
      }

  -- Programming a channel that no stream has.
  reprogram :
      (rt : Runtime D) (l : List (ℕ × ℤ)) (c : ℕ) (p : ℤ)
      → IsBound api rt l
      → c < rt.num_channels
      → uses c l ≡ 0
      → api.InRange p
      → let (rc, rt') = set_priority_all api rt c p in
        (rc ≡ ok)
        × IsBound api
            (record rt' { bind = update rt'.bind c (record (rt'.bind c) { priority = p }) })
            l
  unfolding set_priority_all
  reprogram rt l c p w h u r =
      let (rc, k) =
        set_priority_from-Programmed api c p 0 rt.num_engines rt.num_engines rt.drv (omega arith)
          (omega (arith, w.engines)) (omega (arith, h, w.channels)) r in
      let b = record (rt.bind c) { priority = p } in
      (
        rc,
        record {
          counted = λ j. elim (eq_or_ne j c) [
            | inl q ↦
                ap (λ x. (update rt.bind c b x).users) q
                ∙ ap (λ x. x.users) (update_self rt.bind c b)
                ∙ w.counted c
                ∙ ap (λ x. uses x l) (sym q)
            | inr q ↦ ap (λ x. x.users) (update_ne rt.bind c j b q) ∙ w.counted j
          ];
          agree = Agrees-unused rt.bind rt.num_channels c b l u w.agree;
          programmed = λ i j a m. elim (eq_or_ne j c) [
            | inl q ↦
                ap (λ x. api.priority (set_priority_from api c p 0 rt.num_engines rt.drv).1 i x) q
                ∙ k.sets i (omega arith) a
                ∙ ap (λ x. x.priority) (sym (update_self rt.bind c b))
                ∙ ap (λ x. (update rt.bind c b x).priority) (sym q)
            | inr q ↦
                k.others i j q
                ∙ w.programmed i j a m
                ∙ ap (λ x. x.priority) (sym (update_ne rt.bind c j b q))
          ];
          engines = k.same_engines ∙ w.engines;
          channels = k.same_channels ∙ w.channels;
        },
      )

  claim_unused-IsBound :
      (rt : Runtime D) (l : List (ℕ × ℤ)) (p : ℤ) (c : ℕ)
      → IsBound api rt l
      → c < rt.num_channels
      → (rt.bind c).users ≡ 0
      → api.InRange p
      → let (e, o, rt') = claim_unused api rt p (some c) in
        (e ≡ sg_ok) × (o ≡ some c) × IsBound api rt' ((c, p) ∷ l)
  unfolding claim_unused set_priority_all
  claim_unused-IsBound rt l p c w h u r =
      let (rc, k) = reprogram rt l c p w h (sym (w.counted c) ∙ u) r in
      let rt' = (set_priority_all api rt c p).1 in
      let b = record (rt'.bind c) { priority = p } in
      let done = record rt' { bind = update rt'.bind c b } in
      rw rc (
        refl,
        refl,
        take_channel-IsBound done l c p k h (ap (λ x. x.priority) (update_self rt'.bind c b)),
      )

  -- A stream of a priority in range is bound to a channel of that priority, and the streams stay
  -- bound; it is refused only when no channel has the priority and each has users, and then nothing
  -- changes.
  pub bind_channel_lem :
      (rt : Runtime D) (l : List (ℕ × ℤ)) (p : ℤ)
      → IsBound api rt l
      → api.InRange p
      → let (e, o, rt') = bind_channel api rt p in
        ((c : ℕ) × (e ≡ sg_ok) × (o ≡ some c) × IsBound api rt' ((c, p) ∷ l))
        ⊎ ((e ≡ invalid_value)
            × (o ≡ none)
            × (rt' ≡ rt)
            × ((c : ℕ)
                → c < rt.num_channels
                → ((rt.bind c).priority ≢ p) × (0 < (rt.bind c).users)))
  unfolding bind_channel bind_found claim_unused Found take_channel
  bind_channel_lem rt l p w r =
      let found =
        least_users-Found rt.bind p 0 rt.num_channels rt.num_channels none (omega arith) tt in
      elim (Option-cases (least_users rt.bind p 0 rt.num_channels none)) [
        | inr (b, q) ↦
            let (c, u) = b in
            let f : Found rt.bind p rt.num_channels (some (c, u)) = rw q at found in
            rw q (inl (c, refl, refl, take_channel-IsBound rt l c p w f.0 f.1))
        | inl q ↦ elim (Option-cases (first_unused rt.bind 0 rt.num_channels)) [
          | inr (c, s) ↦
              let t = first_unused-some rt.bind 0 rt.num_channels c s in
              let m = claim_unused-IsBound rt l p c w (omega (arith, t.0)) t.1 r in
              rw (q, s) (inl (c, m.0, m.1, m.2))
          | inl s ↦
              rw (q, s)
                (inr (
                  refl,
                  refl,
                  refl,
                  λ c h. (
                    least_users-none rt.bind p 0 rt.num_channels q c (omega arith)
                        (omega (arith, h)),
                    first_unused-none rt.bind 0 rt.num_channels s c (omega arith)
                        (omega (arith, h)),
                  ),
                ))
        ]
      ]

  IsBound-move :
      (rt : Runtime D) (xs ys : List (ℕ × ℤ)) (s : ℕ × ℤ)
      → IsBound api rt (xs ++ s ∷ ys)
      → IsBound api rt (s ∷ xs ++ ys)
  IsBound-move rt xs ys s w = record {
    counted = λ c. w.counted c ∙ uses_middle c xs ys s;
    agree = All-middle (Agrees rt.bind rt.num_channels) xs ys s w.agree;
    programmed = w.programmed;
    engines = w.engines;
    channels = w.channels;
  }

  -- One user of a channel less.
  drop_user-IsBound :
      (rt : Runtime D) (l : List (ℕ × ℤ)) (c : ℕ) (p : ℤ)
      → IsBound api rt ((c, p) ∷ l)
      → let b = record (rt.bind c) { users = (rt.bind c).users - 1 } in
        IsBound api (record rt { bind = update rt.bind c b }) l
  drop_user-IsBound rt l c p w =
      let b = record (rt.bind c) { users = (rt.bind c).users - 1 } in
      record {
        counted = λ j. elim (eq_or_ne j c) [
          | inl q ↦
              ap (λ x. (update rt.bind c b x).users) q
              ∙ ap (λ x. x.users) (update_self rt.bind c b)
              ∙ omega (arith, w.counted c, uses-cons_self c p l)
              ∙ ap (λ x. uses x l) (sym q)
          | inr q ↦
              ap (λ x. x.users) (update_ne rt.bind c j b q)
              ∙ w.counted j
              ∙ uses-cons_ne j c p l (λ s. q (sym s))
        ];
        agree = Agrees-users rt.bind rt.num_channels c b l refl w.agree.1;
        programmed = λ i j a k. w.programmed i j a k ∙ sym (update-priority rt.bind c b j refl);
        engines = w.engines;
        channels = w.channels;
      }

  -- When one of the bound streams is destroyed, the others stay bound.
  pub unbind_channel_lem :
      (rt : Runtime D) (xs ys : List (ℕ × ℤ)) (c : ℕ) (p : ℤ)
      → IsBound api rt (xs ++ (c, p) ∷ ys)
      → api.InRange priority_least
      → IsBound api (unbind_channel api rt c) (xs ++ ys)
  unfolding unbind_channel set_priority_all
  unbind_channel_lem rt xs ys c p w0 r =
      let w = IsBound-move rt xs ys (c, p) w0 in
      let b = record (rt.bind c) { users = (rt.bind c).users - 1 } in
      let rt' = record rt { bind = update rt.bind c b } in
      let k = drop_user-IsBound rt (xs ++ ys) c p w in
      elim (Bool-cases ((b.users == 0) && not (is_default b.priority))) [
        | inr f ↦ rw f k
        | inl q ↦
            let u : b.users ≡ 0 = ground (arith, q) in
            let none_left = sym (k.counted c) ∙ ap (λ x. x.users) (update_self rt.bind c b) ∙ u in
            let (rc, t) = reprogram rt' (xs ++ ys) c priority_least k w.agree.0.0 none_left r in
            let reset = (set_priority_all api rt' c priority_least).1 in
            rw (q, rc)
              (subst
                (λ (x : ChanBind).
                  IsBound api
                    (record reset {
                      bind = update reset.bind c (record x { priority = priority_least });
                    })
                    (xs ++ ys))
                (update_self rt.bind c b) t)
      ]
