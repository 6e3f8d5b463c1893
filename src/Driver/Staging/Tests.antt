-- ===== src/Driver/Staging/Tests.antt =====
-- Four slots, of which two are busy.
use softgpu.Base.{ℕ, zero, suc, ◌≡◌, ◌≢◌, refl, some, Bool, true, false, arith, List, [], ◌∷◌}
use softgpu.Driver.Staging.{Fence, Staging, free_slot, acquire_slot, release_slot}
use softgpu.Driver.Staging.Slots.{
  Call, acquires, releases, run_calls, Elsewhere, acquire_slot-release_slot,
}

abbrev busy_slots : ℕ → Bool
busy_slots zero = true
busy_slots (suc (suc (suc zero))) = true
busy_slots _ = false

abbrev pool : Staging
pool = record {
  slots = 4;
  busy = busy_slots;
  fence = λ s. record { engine = 1; channel = 0; value = s };
  next_slot = 3;
}

takes_slot_one : (acquire_slot pool).0 ≡ some (1, record { engine = 1; channel = 0; value = 1 })
unfolding acquire_slot free_slot
takes_slot_one = refl

abbrev last : Fence
last = record { engine = 2; channel = 1; value = 9 }

-- The copy in slot 1 goes on while slot 3 is released and two more slots are taken.
abbrev meanwhile : List Call
meanwhile = releases 3 last ∷ acquires ∷ acquires ∷ []

meanwhile-Elsewhere : Elsewhere 1 meanwhile
unfolding Elsewhere
meanwhile-Elsewhere = (omega arith, tt)

acquire_slot-release_slot_example :
    let d1 = run_calls (acquire_slot pool).1 meanwhile in
    let d2 = run_calls (release_slot d1 1 last) meanwhile in
    ((x : Fence) → (acquire_slot d1).0 ≢ some (1, x))
    × ((x : Fence) → (acquire_slot d2).0 ≡ some (1, x) → x ≡ last)
acquire_slot-release_slot_example =
    acquire_slot-release_slot pool 1 (record { engine = 1; channel = 0; value = 1 }) last meanwhile
      meanwhile (omega arith) takes_slot_one meanwhile-Elsewhere meanwhile-Elsewhere
