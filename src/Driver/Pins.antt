-- ===== src/Driver/Pins.antt =====
-- src/driver/driver.cpp: the table `pins` of pinned host ranges, from start to size, as the cases
-- SG_IOC_PIN and SG_IOC_UNPIN and the function `pinned` use it. `reclaim_locked`, which SG_IOC_PIN
-- calls first, does not touch the table.
pub mod Overlap
pub mod Lookup
mod Tests
use softgpu.Base.{
  ℕ, ◌-◌, List, Option, none, some, Bool, false, ◌&&◌, ◌||◌, ltb, leb, ◌==◌, if◌then◌else◌, add64,
}
use softgpu.OrderedMap.{find, emplace, erase, lower_bound, before_lower, before_upper}
use softgpu.Errno.{Rc, ok, einval, eexist}

-- `next != end() && next->first < end`
abbrev pub meets_next : Option (ℕ × ℕ) → ℕ → Bool
meets_next none end = false
meets_next (some (start, size)) end = ltb start end

-- `prev->first + prev->second > addr`
abbrev pub meets_prev : Option (ℕ × ℕ) → ℕ → Bool
meets_prev none addr = false
meets_prev (some (start, size)) addr = ltb addr (add64 start size)

-- SG_IOC_PIN
unfoldable pub pin : List (ℕ × ℕ) → ℕ → ℕ → Rc × List (ℕ × ℕ)
pin pins addr size =
    if (addr == 0) || (size == 0) || ltb (add64 addr size) addr
    then (einval, pins)
    else if meets_next (lower_bound addr pins) (add64 addr size)
    then (eexist, pins)
    else if meets_prev (before_lower addr pins) addr
    then (eexist, pins)
    else (ok, emplace addr size pins)

abbrev unpin_found : List (ℕ × ℕ) → ℕ → Option ℕ → Rc × List (ℕ × ℕ)
unpin_found pins addr none = (einval, pins)
unpin_found pins addr (some size) = (ok, erase addr pins)

-- SG_IOC_UNPIN, what it does to the table.
unfoldable pub unpin : List (ℕ × ℕ) → ℕ → Rc × List (ℕ × ℕ)
unpin pins addr = unpin_found pins addr (find addr pins)

-- `addr - it->first <= it->second && size <= it->second - (addr - it->first)`
abbrev pub holds : Option (ℕ × ℕ) → ℕ → ℕ → Bool
holds none addr size = false
holds (some (start, n)) addr size = leb (addr - start) n && leb size (n - (addr - start))

-- pinned: the range is looked for in the last pin that starts at `addr` or below it.
unfoldable pub pinned : List (ℕ × ℕ) → ℕ → ℕ → Bool
pinned pins addr size = holds (before_upper addr pins) addr size
