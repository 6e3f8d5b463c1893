-- ===== src/Runtime/Bindings.antt =====
-- Streams and channels: each stream's channel has the stream's priority on every engine.
use softgpu.Base.{
  ℕ, zero, suc, ◌+◌, ◌≤◌, ◌<◌, ◌≡◌, ◌≢◌, refl, ap, ◌∙◌, inl, inr, List, All, arith, eq_or_ne,
}
use softgpu.Errno.{ok}
use softgpu.Integers.{ℤ}
use softgpu.Runtime.{Runtime}
use softgpu.Runtime.Api.{Priorities}
use softgpu.Runtime.Bind.{set_priority_from}
use softgpu.Runtime.ChannelSearch.{uses, Agrees}

-- After `set_priority_all` of channel c on engines e, ..., t - 1.
pub record Programmed {D : Type 0} (api : Priorities D) (d d' : D) (c : ℕ) (p : ℤ) (e t : ℕ)
    : Type 0 where
  pub sets : (i : ℕ) → e ≤ i → i < t → api.priority d' i c ≡ p
  pub others : (i j : ℕ) → j ≢ c → api.priority d' i j ≡ api.priority d i j
  pub before : (i : ℕ) → i < e → api.priority d' i c ≡ api.priority d i c
  pub same_engines : api.engines d' ≡ api.engines d
  pub same_channels : api.channels d' ≡ api.channels d

-- The streams `l`, each with its channel and its priority, are bound: a channel's users are the
-- streams on it, each stream's channel has its priority, and the driver has programmed every
-- channel with its priority on every engine.
pub record IsBound {D : Type 0} (api : Priorities D) (rt : Runtime D) (l : List (ℕ × ℤ))
    : Type 0 where
  pub counted : (c : ℕ) → (rt.bind c).users ≡ uses c l
  pub agree : All (Agrees rt.bind rt.num_channels) l
  pub programmed :
      (e c : ℕ)
      → e < rt.num_engines
      → c < rt.num_channels
      → api.priority rt.drv e c ≡ (rt.bind c).priority
  pub engines : api.engines rt.drv ≡ rt.num_engines
  pub channels : api.channels rt.drv ≡ rt.num_channels

module _ {D : Type 0} (api : Priorities D) where
  pub set_priority_from-Programmed :
      (c : ℕ) (p : ℤ) (e n t : ℕ) (d : D)
      → e + n ≡ t
      → t ≤ api.engines d
      → c < api.channels d
      → api.InRange p
      → let (rc, d') = set_priority_from api c p e n d in (rc ≡ ok) × Programmed api d d' c p e t
  unfolding set_priority_from
  set_priority_from-Programmed c p e zero t d q h l r = (
    refl,
    record {
      sets = λ i a b. absurd (omega (arith, a, b, q));
      others = λ i j a. refl;
      before = λ i a. refl;
      same_engines = refl;
      same_channels = refl;
    },
  )
  set_priority_from-Programmed c p e (suc n) t d q h l r =
      let d' = (api.set_priority e c p d).1 in
      let rc = api.accepts e c p d (omega (arith, q, h)) l r in
      let ee = api.keeps_engines e c p d in
      let cc' = api.keeps_channels e c p d in
      let (rest, k) =
        set_priority_from-Programmed c p (suc e) n t d' (omega (arith, q)) (omega (arith, h, ee))
          (omega (arith, l, cc')) r in
      rw rc (
        rest,
        record {
          sets = λ i a b. elim (eq_or_ne i e) [
            | inl z ↦
                ap (λ x. api.priority (set_priority_from api c p (suc e) n d').1 x c) z
                ∙ k.before e (omega arith)
                ∙ api.sets e c p d rc
            | inr z ↦ k.sets i (omega (arith, a, z)) b
          ];
          others = λ i j a. k.others i j a ∙ api.keeps e c p d i j (inr a);
          before =
              λ i a. k.before i (omega (arith, a)) ∙ api.keeps e c p d i c (inl (omega (arith, a)));
          same_engines = k.same_engines ∙ ee;
          same_channels = k.same_channels ∙ cc';
        },
      )
