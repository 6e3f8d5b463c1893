-- ===== src/Driver/Tickets/Slots.antt =====
-- Tickets less than a ring apart have different slots.
use softgpu.Base.{ℕ, ◌+◌, ◌/◌, ◌%◌, ◌<◌, ◌≢◌, inl, inr, lt_or_ge, arith}
use native.Mathlib.Nat.{div-add-mod, mul-le-mul_left, mul-suc}

pub slots_differ : (x y d : ℕ) → x < y → y < x + d → x % d ≢ y % d
slots_differ x y d h k e =
    let a = div-add-mod x d in
    let b = div-add-mod y d in
    elim (lt_or_ge (x / d) (y / d)) [
      | inr l ↦ omega (arith, h, e, a, b, mul-le-mul_left d l)
      | inl l ↦ omega (arith, k, e, a, b, mul-suc d (x / d), mul-le-mul_left d l)
    ]
