-- ===== src/Driver/Tickets/Tests.antt =====
-- Two producers race on a ring of two slots: the second is ready first and waits for the first.
use softgpu.Base.{update, ℕ, ◌+◌, ◌≡◌, ◌≤◌, refl, [], ◌∷◌, arith}
use softgpu.Device.{Command}
use softgpu.Driver.Tickets.{
  Lane, Step, Reachable, start, next, reserve_step, write_step, show_step, claim_slot, write_slot,
  show_put, empty_lane,
}
use softgpu.Driver.Tickets.Queue.{queue, slots, Moved, Step-queue}

abbrev fill : ℕ → Command
fill n = record {
  opcode = 1;
  flags = 0;
  dst = n;
  src0 = 0;
  src1 = 0;
  size = 64;
  arg0 = 0;
  arg1 = 0;
  arg2 = 0;
  value = 7;
  reserved = 0;
}

abbrev idle : Lane
idle = empty_lane fill 2

abbrev both_claimed : Lane
both_claimed = claim_slot (claim_slot idle)

abbrev raced : Lane
raced = write_slot (write_slot both_claimed 1 (fill 128)) 0 (fill 64)

raced-Reachable : Reachable 2 raced
unfolding claim_slot write_slot update
raced-Reachable =
    let claims =
      next (next (start fill) (reserve_step idle (omega arith)))
        (reserve_step (claim_slot idle) (omega arith)) in
    next (next claims (write_step both_claimed 1 (fill 128) refl refl))
      (write_step (write_slot both_claimed 1 (fill 128)) 0 (fill 64) refl refl)

first_shown : Step raced (show_put raced 0 (fill 64))
unfolding claim_slot write_slot update
first_shown = show_step raced 0 (fill 64) refl refl

-- The second producer's command is in the ring, and the engine does not see it yet.
seen : queue (show_put raced 0 (fill 64)) ≡ fill 64 ∷ []
unfolding queue show_put claim_slot write_slot update slots
seen = refl

Step-queue_example :
    let after = show_put raced 0 (fill 64) in
    (raced.reg_put ≤ after.reg_put) × (after.reg_put ≤ after.get + after.depth) × Moved raced after
Step-queue_example = Step-queue raced-Reachable first_shown
