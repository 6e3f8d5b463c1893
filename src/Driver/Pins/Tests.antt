-- ===== src/Driver/Pins/Tests.antt =====
-- Two pinned ranges with a gap between them.
use softgpu.Base.{ℕ, ◌≡◌, refl, ◌⊎◌, ◌≢◌, List, [], ◌∷◌, arith}
use softgpu.OrderedMap.{find, emplace}
use softgpu.Errno.{ok, eexist}
use softgpu.Driver.Pins.{pin}
use softgpu.Driver.Pins.Overlap.{IsPins, Fits, pin_lem}

abbrev two_pins : List (ℕ × ℕ)
two_pins = (4096, 4096) ∷ (12288, 100) ∷ []

two_pins-IsPins : IsPins 0 two_pins
two_pins-IsPins =
    (omega arith, omega arith, omega arith, (omega arith, omega arith, omega arith, tt))

in_gap : (pin two_pins 8192 4096).0 ≡ ok
unfolding pin softgpu.OrderedMap.lower_bound softgpu.OrderedMap.before_lower
in_gap = refl

over_the_gap : (pin two_pins 8192 4097).0 ≡ eexist
unfolding pin softgpu.OrderedMap.lower_bound softgpu.OrderedMap.before_lower
over_the_gap = refl

pin_lem_example :
    let (rc, pins') = pin two_pins 8192 4096 in
    (((rc ≡ ok) × Fits two_pins 8192 4096 × (pins' ≡ emplace 8192 4096 two_pins))
      ⊎ ((rc ≢ ok) × (¬ Fits two_pins 8192 4096) × (pins' ≡ two_pins)))
    × IsPins 0 pins'
pin_lem_example = pin_lem two_pins 8192 4096 two_pins-IsPins (omega arith) (omega arith)
