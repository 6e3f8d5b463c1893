-- ===== src/Driver/Tickets.antt =====
-- src/driver/driver.cpp: `enqueue` in ticket mode, on one channel, by the accesses that several
-- producers and the engine interleave. Mutex mode is the run in which each producer finishes before
-- the next begins. The steps carry the ticket of the producer that makes them.
pub mod Slots
pub mod Ordered
pub mod Queue
mod Tests
use softgpu.Base.{ℕ, ◌+◌, ◌%◌, ◌^◌, ◌≡◌, ◌<◌, Bool, true, false, not, leb, sub64, update}
use softgpu.Device.{Command}

-- Where a ticket's producer is: before `reserve.fetch_add`; after it; with the slot written; with the
-- PUT register stored; and with the ticket handed on.
pub data Claim : Type 0 where
  unclaimed claimed : Claim
  written shown finished : Command → Claim

-- The channel: the ring's memory by slots, `d.depth`, the registers GET and PUT, `p.reserve` and
-- `p.put`; and each ticket's claim.
pub record Lane : Type 0 where
  pub ring : ℕ → Command
  pub depth : ℕ
  pub get : ℕ
  pub reg_put : ℕ
  pub reserve : ℕ
  pub put : ℕ
  pub claims : ℕ → Claim

-- `p.reserve.fetch_add(1)`
unfoldable pub claim_slot : Lane → Lane
claim_slot l = record l { reserve = l.reserve + 1; claims = update l.claims l.reserve claimed }

-- `slot - retired(d, engine, channel) >= d.depth` fails: the producer goes on.
abbrev pub has_room : Lane → ℕ → Bool
has_room l slot = not (leb l.depth (sub64 slot l.get))

-- `ring[slot & (d.depth - 1)] = cmd`
unfoldable pub write_slot : Lane → ℕ → Command → Lane
write_slot l slot cmd = record l {
  ring = update l.ring (slot % l.depth) cmd;
  claims = update l.claims slot (written cmd);
}

-- `regs.put.store(slot + 1)`
unfoldable pub show_put : Lane → ℕ → Command → Lane
show_put l slot cmd = record l { reg_put = slot + 1; claims = update l.claims slot (shown cmd) }

-- `p.put.store(slot + 1)`
unfoldable pub hand_on : Lane → ℕ → Command → Lane
hand_on l slot cmd = record l { put = slot + 1; claims = update l.claims slot (finished cmd) }

-- The engine retires the head.
unfoldable pub retire : Lane → Lane
retire l = record l { get = l.get + 1 }

-- One access. The 64-bit counters do not wrap: fewer than 2 ^ 64 commands are submitted.
pub data Step : Lane → Lane → Type 0 where
  reserve_step : (l : Lane) → l.reserve + 1 < 2 ^ 64 → Step l (claim_slot l)
  write_step :
      (l : Lane) (t : ℕ) (cmd : Command)
      → l.claims t ≡ claimed
      → has_room l t ≡ true
      → Step l (write_slot l t cmd)
  show_step :
      (l : Lane) (t : ℕ) (cmd : Command)
      → l.claims t ≡ written cmd
      → l.put ≡ t
      → Step l (show_put l t cmd)
  hand_step : (l : Lane) (t : ℕ) (cmd : Command) → l.claims t ≡ shown cmd → Step l (hand_on l t cmd)
  retire_step : (l : Lane) → l.get < l.reg_put → Step l (retire l)

-- A channel with an empty ring of depth n.
abbrev pub empty_lane : (ℕ → Command) → ℕ → Lane
empty_lane ring n = record {
  ring = ring;
  depth = n;
  get = 0;
  reg_put = 0;
  reserve = 0;
  put = 0;
  claims = λ t. unclaimed;
}

pub data Reachable : ℕ → Lane → Type 0 where
  start : {n : ℕ} (ring : ℕ → Command) → Reachable n (empty_lane ring n)
  next : {n : ℕ} {l l' : Lane} → Reachable n l → Step l l' → Reachable n l'
