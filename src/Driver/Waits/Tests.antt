-- ===== src/Driver/Waits/Tests.antt =====
-- A budget and an average.
use softgpu.Base.{◌≡◌, refl, some}
use softgpu.Driver.Waits.{adaptive, wait_budget}

twice_typical : wait_budget adaptive 0 30000 (some 5000) ≡ 10000
unfolding wait_budget
twice_typical = refl
