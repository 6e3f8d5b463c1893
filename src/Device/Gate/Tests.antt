-- ===== src/Device/Gate/Tests.antt =====
-- A sleep with a producer that has just stored PUT, and the same with its doorbell rung.
use softgpu.Base.{◌≡◌, ◌⊎◌, refl, inl, inr, true, arith, ◌+◌}
use softgpu.Device.Gate.{
  waiting, checking, powered_on, Gate, Reachable, start, next, arm_step, mark_step, pass_step,
  wait_step, arm, mark_asleep, Drained,
}
use softgpu.Device.Gate.Heard.{waiting_heard}

abbrev asleep_alone : Gate
asleep_alone = record powered_on { asleep = true; engine = waiting }

asleep_alone-Reachable : Reachable 1 asleep_alone
unfolding arm mark_asleep
asleep_alone-Reachable =
    next
      (next (next (next start (arm_step powered_on refl)) (mark_step (arm powered_on) refl))
        (pass_step (mark_asleep (arm powered_on)) 0 refl (omega arith) (inr (refl, inl refl))))
      (wait_step (record (mark_asleep (arm powered_on)) { engine = checking (0 + 1) }) refl)

waiting_heard_example : (asleep_alone.parked 0 ≡ true) ⊎ Drained asleep_alone 0
waiting_heard_example =
    waiting_heard 1 asleep_alone asleep_alone-Reachable refl refl (λ p. refl) 0 (omega arith)
