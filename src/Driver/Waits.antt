-- ===== src/Driver/Waits.antt =====
-- src/driver/driver.cpp, `wait_until`: how long a wait spins before it blocks, and the moving average
-- that the adaptive policy predicts from.
mod Tests
use softgpu.Base.{
  ℕ, ◌+◌, ◌*◌, ◌^◌, ◌/◌, ◌%◌, ◌≤◌, ◌<◌, ◌≡◌, refl, arith, Bool, ltb, ◌==◌, if◌then◌else◌, add64,
  mul64, sub64, u64_max, u64_mod, has, min, max, Option, none, some, inl, inr, eq_or_ne, eq→==,
  ne→==, ◌≢◌,
}

-- sg_wait_policy
pub data WaitPolicy : Type 0 where
  spin block hybrid adaptive : WaitPolicy

-- SG_WAIT_SPIN, SG_WAIT_BLOCK
abbrev pub wait_spin : ℕ
wait_spin = 1

abbrev pub wait_block : ℕ
wait_block = 2

-- kMinSpinNs, kAdaptiveFloorNs
abbrev pub min_spin_ns : ℕ
min_spin_ns = 200

abbrev pub adaptive_floor_ns : ℕ
adaptive_floor_ns = 2000

-- The policy of this wait: its flags go before the driver's.
abbrev pub policy_of : WaitPolicy → ℕ → WaitPolicy
policy_of policy flags =
    if has wait_spin flags then spin else if has wait_block flags then block else policy

-- `ewma ? ewma->load() : 0`
abbrev pub typical_of : Option ℕ → ℕ
typical_of none = 0
typical_of (some t) = t

abbrev pub adaptive_budget : ℕ → ℕ → ℕ
adaptive_budget spin_ns typical =
    if typical == 0
    then spin_ns
    else if ltb spin_ns typical
    then adaptive_floor_ns
    else max adaptive_floor_ns (min (mul64 2 typical) spin_ns)

-- The switch on the policy; ~0 is no limit.
abbrev pub budget_of : WaitPolicy → ℕ → Option ℕ → ℕ
budget_of spin spin_ns ewma = u64_max
budget_of block spin_ns ewma = 0
budget_of adaptive spin_ns ewma = adaptive_budget spin_ns (typical_of ewma)
budget_of hybrid spin_ns ewma = spin_ns

unfoldable pub wait_budget : WaitPolicy → ℕ → ℕ → Option ℕ → ℕ
wait_budget policy flags spin_ns ewma = budget_of (policy_of policy flags) spin_ns ewma

-- `dur`: t0 is 0 when the first round of spinning was enough, and `end` is the time when the fence
-- passed.
unfoldable pub duration : ℕ → ℕ → ℕ
duration t0 end = if t0 == 0 then min_spin_ns else if ltb t0 end then sub64 end t0 else min_spin_ns

-- What is stored in `*ewma`.
unfoldable pub next_ewma : ℕ → ℕ → ℕ
next_ewma old dur = if old == 0 then dur else add64 (mul64 3 old) dur / 4

-- An adaptive wait without flags spins for at most the cap or the floor, whichever is more, and when
-- it has an estimate for no less than the floor.
pub wait_budget_bounds :
    (spin_ns typical : ℕ)
    → let b = wait_budget adaptive 0 spin_ns (some typical) in
      (b ≤ max adaptive_floor_ns spin_ns) × (typical ≢ 0 → adaptive_floor_ns ≤ b)
unfolding wait_budget
wait_budget_bounds spin_ns typical = (ground arith, λ n. ground (arith, n))

duration_positive : (t0 end : ℕ) → end < 2 ^ 61 → (0 < duration t0 end) × (duration t0 end < 2 ^ 61)
unfolding duration
duration_positive t0 end k = (ground (arith, k), ground (arith, k))

between :
    (old dur : ℕ)
    → old < 2 ^ 61
    → 0 < dur
    → dur < 2 ^ 61
    → (0 < next_ewma old dur)
      × (next_ewma old dur ≤ max old dur)
      × (old ≢ 0 → min old dur ≤ next_ewma old dur)
unfolding next_ewma
between old dur h p k = elim (eq_or_ne old 0) [
  | inl z ↦ rw (eq→== old 0 z) (p, omega arith, λ n. omega (arith, n, z))
  | inr n ↦
      let sum : add64 (mul64 3 old) dur ≡ 3 * old + dur = omega (arith, h, k) in
      rw (ne→== old 0 n, sum) (omega (arith, n, p), omega arith, λ m. omega arith)
]

-- After a wait that ends before 2 ^ 61, from an average below 2 ^ 61, the new average is not 0, which
-- would stand for no estimate; it is at most the larger of the average before and the time that the
-- wait took and, when there was an average, at least the smaller.
pub next_ewma-duration :
    (old t0 end : ℕ)
    → old < 2 ^ 61
    → end < 2 ^ 61
    → let dur = duration t0 end in
      let e = next_ewma old dur in (0 < e) × (e ≤ max old dur) × (old ≢ 0 → min old dur ≤ e)
next_ewma-duration old t0 end h k =
    let d = duration_positive t0 end k in between old (duration t0 end) h d.0 d.1
