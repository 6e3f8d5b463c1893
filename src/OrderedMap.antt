-- ===== src/OrderedMap.antt =====
-- std::map<uint64_t, V>: entries in key order, as the driver's maps of blocks, allocations, pins
-- and managed ranges use it. Iteration is by ascending key.
pub mod Entries
use softgpu.Base.{
  ℕ, suc, ◌≤◌, List, [], ◌∷◌, Option, none, some, Bool, true, false, ltb, leb, ◌==◌, if◌then◌else◌,
}

module _ {ℓ} {V : Type ℓ} where
  -- `m.find(k)`
  unfoldable pub find : ℕ → List (ℕ × V) → Option V
  find k [] = none
  find k ((j, v) ∷ m) = if j == k then some v else find k m

  -- `m.emplace(k, v)`: nothing changes when the key is there.
  unfoldable pub emplace : ℕ → V → List (ℕ × V) → List (ℕ × V)
  emplace k v [] = (k, v) ∷ []
  emplace k v ((j, w) ∷ m) =
      if j == k then (j, w) ∷ m else if ltb k j then (k, v) ∷ (j, w) ∷ m else (j, w) ∷ emplace k v m

  -- `m.erase(it)` at the entry with this key.
  unfoldable pub erase : ℕ → List (ℕ × V) → List (ℕ × V)
  erase k [] = []
  erase k ((j, v) ∷ m) = if j == k then m else (j, v) ∷ erase k m

  -- `m.lower_bound(k)`: the first entry whose key is at least `k`.
  unfoldable pub lower_bound : ℕ → List (ℕ × V) → Option (ℕ × V)
  lower_bound k [] = none
  lower_bound k ((j, v) ∷ m) = if ltb j k then lower_bound k m else some (j, v)

  last_or : Option (ℕ × V) → (ℕ × V) → Option (ℕ × V)
  last_or none e = some e
  last_or (some d) e = some d

  -- `std::prev(m.lower_bound(k))`, `none` at `begin()`: the last entry whose key is below `k`.
  unfoldable pub before_lower : ℕ → List (ℕ × V) → Option (ℕ × V)
  unfolding last_or
  before_lower k [] = none
  before_lower k ((j, v) ∷ m) = if ltb j k then last_or (before_lower k m) (j, v) else none

  -- `std::prev(m.upper_bound(k))`, `none` at `begin()`: the last entry whose key is at most `k`.
  unfoldable pub before_upper : ℕ → List (ℕ × V) → Option (ℕ × V)
  unfolding last_or
  before_upper k [] = none
  before_upper k ((j, v) ∷ m) = if leb j k then last_or (before_upper k m) (j, v) else none

  -- Keys ascend strictly, the first above `lo` or equal to it.
  abbrev pub Ascending : ℕ → List (ℕ × V) → Type 0
  Ascending lo [] = Unit
  Ascending lo ((k, v) ∷ m) = (lo ≤ k) × Ascending (suc k) m
