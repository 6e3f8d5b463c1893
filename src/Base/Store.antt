-- ===== src/Base/Store.antt =====
-- Arrays and registers as functions of their index.
use Prim.Native.Nat.{ℕ}
use mathlib.Core.Path.{◌≡◌, refl}
use mathlib.Core.Logic.{◌≢◌}
use softgpu.Base.Tests.{◌==◌, if◌then◌else◌, eq→==, ne→==}

module _ {ℓ} {A : Type ℓ} where
  -- `f[i] = v`
  unfoldable pub update : (ℕ → A) → ℕ → A → ℕ → A
  update f i v j = if j == i then v else f j

  pub update_self : (f : ℕ → A) (i : ℕ) (v : A) → update f i v i ≡ v
  unfolding update
  update_self f i v = rw (eq→== i i refl)

  pub update_ne : (f : ℕ → A) (i j : ℕ) (v : A) → j ≢ i → update f i v j ≡ f j
  unfolding update
  update_ne f i j v h = rw (ne→== j i h)
