-- ===== src/Device/Gate.antt =====
-- src/device/device.cpp and device.h: an engine's idle gate against the doorbells, by the accesses that
-- the engine and its callers interleave (`run` from the arming on, `doorbell`, `unpark`, Event). The
-- fences on both sides make the accesses sequentially consistent. The event's word does not come round to
-- what the engine saw during one sleep.
pub mod Heard
mod Tests
use softgpu.Base.{ℕ, ◌+◌, ◌≡◌, ◌<◌, ◌⊎◌, ◌≢◌, Bool, true, false, update}

-- Where the engine is: in its rounds; with `seen` loaded; with `asleep_` stored and the channels below c
-- asked; with `work` found, or back from the wait; and in `bell_.wait(seen)`.
pub data EngineAt : Type 0 where
  running armed : EngineAt
  checking : ℕ → EngineAt
  found waiting : EngineAt

-- Where a caller is: outside; with PUT or `parked` of channel c stored; and with `asleep_` seen.
pub data CallerAt : Type 0 where
  outside : CallerAt
  stored ringing : ℕ → CallerAt

-- `seq` is the bell's word; `seen`, `seen_put` and `get`, which is `cur[c].get`, are the engine's locals.
-- `blocked` tells whether the head waits for a fence that has not passed when the engine asks for it.
pub record Gate : Type 0 where
  pub put : ℕ → ℕ
  pub parked : ℕ → Bool
  pub asleep : Bool
  pub seq : ℕ
  pub seen : ℕ
  pub seen_put : ℕ → ℕ
  pub get : ℕ → ℕ
  pub blocked : ℕ → Bool
  pub engine : EngineAt
  pub callers : ℕ → CallerAt

-- `seen_put[c] = put`
unfoldable pub scan_put : Gate → ℕ → Gate
scan_put g c = record g { seen_put = update g.seen_put c (g.put c) }

-- `seen = bell_[engine].seq()`
unfoldable pub arm : Gate → Gate
arm g = record g { seen = g.seq; engine = armed }

-- `asleep_[engine].store(true)`
unfoldable pub mark_asleep : Gate → Gate
mark_asleep g = record g { asleep = true; engine = checking 0 }

-- `asleep_[engine].store(false)`
unfoldable pub leave : Gate → Gate
leave g = record g { asleep = false; engine = running }

-- Event::signal
unfoldable pub signal : Gate → Gate
signal g = record g { seq = g.seq + 1 }

-- The driver's `regs.put.store`, and the store of Device::unpark.
unfoldable pub store_put : Gate → ℕ → ℕ → ℕ → Gate
store_put g p c v = record g { put = update g.put c v; callers = update g.callers p (stored c) }

unfoldable pub store_unparked : Gate → ℕ → ℕ → Gate
store_unparked g p c = record g {
  parked = update g.parked c false;
  callers = update g.callers p (stored c);
}

-- Device::doorbell loads `asleep_`, and signals.
unfoldable pub see_asleep : Gate → ℕ → ℕ → Gate
see_asleep g p c = record g { callers = update g.callers p (ringing c) }

unfoldable pub see_awake : Gate → ℕ → Gate
see_awake g p = record g { callers = update g.callers p outside }

unfoldable pub ring : Gate → ℕ → Gate
unfolding signal
ring g p = record (signal g) { callers = update g.callers p outside }

-- A channel that is not parked and no work for the re-check: no new PUT, and nothing left or a blocked head.
abbrev pub Drained : Gate → ℕ → Type 0
Drained g c = (g.put c ≡ g.seen_put c) × ((g.seen_put c ≡ g.get c) ⊎ (g.blocked c ≡ true))

-- A visit: the channel's cursor moves on, to some head.
unfoldable pub advance : Gate → ℕ → ℕ → Bool → Gate
advance g c get blocked = record g {
  get = update g.get c get;
  blocked = update g.blocked c blocked;
}

-- One access, on an engine of n channels.
pub data Step (n : ℕ) : Gate → Gate → Type 0 where
  scan_step : (g : Gate) (c : ℕ) → g.engine ≡ running → Step n g (scan_put g c)
  advance_step :
      (g : Gate) (c get : ℕ) (b : Bool) → g.engine ≡ running → Step n g (advance g c get b)
  park_step :
      (g : Gate) (c : ℕ)
      → g.engine ≡ running
      → Step n g (record g { parked = update g.parked c true })
  arm_step : (g : Gate) → g.engine ≡ running → Step n g (arm g)
  mark_step : (g : Gate) → g.engine ≡ armed → Step n g (mark_asleep g)
  pass_step :
      (g : Gate) (c : ℕ)
      → g.engine ≡ checking c
      → c < n
      → (g.parked c ≡ true) ⊎ Drained g c
      → Step n g (record g { engine = checking (c + 1) })
  work_step :
      (g : Gate) (c : ℕ)
      → g.engine ≡ checking c
      → g.parked c ≡ false
      → (g.put c ≢ g.seen_put c) ⊎ ((g.put c ≢ g.get c) × (g.blocked c ≡ false))
      → Step n g (record g { engine = found })
  wait_step : (g : Gate) → g.engine ≡ checking n → Step n g (record g { engine = waiting })
  return_step : (g : Gate) → g.engine ≡ waiting → Step n g (record g { engine = found })
  leave_step : (g : Gate) → g.engine ≡ found → Step n g (leave g)
  put_step :
      (g : Gate) (p c v : ℕ) → g.callers p ≡ outside → g.put c < v → Step n g (store_put g p c v)
  unpark_step : (g : Gate) (p c : ℕ) → g.callers p ≡ outside → Step n g (store_unparked g p c)
  asleep_step :
      (g : Gate) (p c : ℕ) → g.callers p ≡ stored c → g.asleep ≡ true → Step n g (see_asleep g p c)
  awake_step :
      (g : Gate) (p c : ℕ) → g.callers p ≡ stored c → g.asleep ≡ false → Step n g (see_awake g p)
  ring_step : (g : Gate) (p c : ℕ) → g.callers p ≡ ringing c → Step n g (ring g p)
  other_step : (g : Gate) → Step n g (signal g)

abbrev pub powered_on : Gate
powered_on = record {
  put = λ c. 0;
  parked = λ c. false;
  asleep = false;
  seq = 0;
  seen = 0;
  seen_put = λ c. 0;
  get = λ c. 0;
  blocked = λ c. false;
  engine = running;
  callers = λ p. outside;
}

pub data Reachable (n : ℕ) : Gate → Type 0 where
  start : Reachable n powered_on
  next : {g g' : Gate} → Reachable n g → Step n g g' → Reachable n g'
