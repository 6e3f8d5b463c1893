-- ===== src/Driver/Fences/Arming.antt =====
-- Arming a channel's interrupt, and the retirements that follow.
use softgpu.Base.{ℕ, ◌≤◌, ◌<◌, ◌≡◌, List, [], ◌∷◌, ◌⊎◌}
use softgpu.Device.{Channel, Device}
use softgpu.Errno.{Rc}
use softgpu.Device.Runlist.Visit.{Visit, Readings, retire_head}
use softgpu.Driver.Fences.{Rings, arm_irq}

-- The interrupt is armed for `target` or a lower value.
Armed : ℕ → Channel → Type 0
Armed target ch = (0 < ch.irq_target) × (ch.irq_target ≤ target)

-- What happens on the channel: another waiter arms it for its fence, or its head retires with a code.
pub data Move : Type 0 where
  arms : ℕ → Move
  retires : Rc → Move

-- The waiters' fences are not 0.
unfoldable pub ArmsFences : List Move → Type 0
ArmsFences [] = Unit
ArmsFences (arms t ∷ l) = (0 < t) × ArmsFences l
ArmsFences (retires rc ∷ l) = ArmsFences l

module _ (readings : Readings) (r : Rings) (e c : ℕ) where
  unfoldable pub arm_on : Visit → ℕ → Visit
  arm_on v t = record v { dev = (arm_irq (record r { dev = v.dev }) e c t).dev }

  unfoldable pub run_moves : Visit → List Move → Visit
  run_moves v [] = v
  run_moves v (arms t ∷ l) = run_moves (arm_on v t) l
  run_moves v (retires rc ∷ l) = run_moves (retire_head readings e c rc v) l

  -- An interrupt was raised, or the fence has not retired and the channel is armed for it.
  Heeded : ℕ → ℕ → Visit → Type 0
  Heeded pulses target v =
      (pulses < v.dev.irq_pulses)
      ⊎ ((v.dev.irq_pulses ≡ pulses)
          × Armed target (v.dev.channel e c)
          × ((v.dev.channel e c).get < target))
