-- ===== src/Alloc.antt =====
-- src/driver/vram_alloc.h and src/driver/vram_alloc.cpp: the first-fit free-list allocator that
-- the driver uses for VRAM frames and for the managed address range. `free_` and `live_` are maps
-- from a block's start to its length; the unordered map `live_` is kept in key order.
pub mod Blocks
pub mod Join
pub mod Invariant
pub mod Operations
pub mod FirstFit
pub mod Freeing
pub mod Canonical
mod Tests
use softgpu.Base.{
  ℕ, ◌-◌, ◌/◌, List, [], ◌∷◌, Option, none, some, Bool, true, false, ◌&&◌, ◌||◌, ltb, leb, ◌==◌,
  if◌then◌else◌, add64, sub64, mul64,
}
use softgpu.OrderedMap.{find, emplace, erase, lower_bound, before_lower}

pub record VramAllocator : Type 0 where
  pub align : ℕ
  pub free_map : List (ℕ × ℕ)
  pub live_map : List (ℕ × ℕ)
  pub live_bytes : ℕ

-- VramAllocator::VramAllocator
pub init : ℕ → ℕ → ℕ → VramAllocator
init base size align = record {
  align = align;
  free_map = (base, size) ∷ [];
  live_map = [];
  live_bytes = 0;
}

-- `(bytes + align_ - 1) / align_ * align_`
abbrev pub round_up : ℕ → ℕ → ℕ
round_up align bytes = mul64 (sub64 (add64 bytes align) 1 / align) align

-- The scan of `alloc`: the first free block that is long enough.
pub first_fit : ℕ → List (ℕ × ℕ) → Option (ℕ × ℕ)
first_fit need [] = none
first_fit need ((start, len) ∷ m) = if ltb len need then first_fit need m else some (start, len)

-- Take `need` bytes off the front of the free block at `addr`.
pub carve : VramAllocator → ℕ → ℕ → ℕ → VramAllocator
carve a need addr len = record a {
  free_map =
      if sub64 len need == 0
      then erase addr a.free_map
      else emplace (add64 addr need) (sub64 len need) (erase addr a.free_map);
  live_map = emplace addr need a.live_map;
  live_bytes = add64 a.live_bytes need;
}

pub carve_fit : VramAllocator → ℕ → Option (ℕ × ℕ) → Option ℕ × VramAllocator
unfolding carve
carve_fit a need none = (none, a)
carve_fit a need (some (addr, len)) = (some addr, carve a need addr len)

-- VramAllocator::alloc
pub alloc : VramAllocator → ℕ → Option ℕ × VramAllocator
unfolding carve_fit
alloc a bytes =
    let need = round_up a.align bytes in
    if bytes == 0 then (none, a) else carve_fit a need (first_fit need a.free_map)

pub detach_found : VramAllocator → ℕ → Option ℕ → Option (ℕ × VramAllocator)
detach_found a addr none = none
detach_found a addr (some size) =
    some (size, record a { live_map = erase addr a.live_map; live_bytes = sub64 a.live_bytes size })

-- VramAllocator::detach: `none` for false, and otherwise `*size_out` with the new state.
pub detach : VramAllocator → ℕ → Option (ℕ × VramAllocator)
unfolding detach_found
detach a addr = detach_found a addr (find addr a.live_map)

-- The block after the released one, taken in when it begins where that ends: the new length and
-- the free map without it.
pub join_next : ℕ → ℕ → List (ℕ × ℕ) → Option (ℕ × ℕ) → ℕ × List (ℕ × ℕ)
join_next start len m none = (len, m)
join_next start len m (some (next, n)) =
    if next == add64 start len then (add64 len n, erase next m) else (len, m)

-- The block before it, taken in when it ends where that begins; then `free_.emplace`.
pub join_prev : ℕ → ℕ → List (ℕ × ℕ) → Option (ℕ × ℕ) → List (ℕ × ℕ)
join_prev start len m none = emplace start len m
join_prev start len m (some (prev, n)) =
    if add64 prev n == start then emplace prev (add64 len n) (erase prev m) else emplace start len m

-- VramAllocator::release
pub release : VramAllocator → ℕ → ℕ → VramAllocator
unfolding join_next join_prev
release a addr size =
    let (len, m) = join_next addr size a.free_map (lower_bound addr a.free_map) in
    record a { free_map = join_prev addr len m (before_lower addr m) }

pub release_detached : VramAllocator → ℕ → Option (ℕ × VramAllocator) → Bool × VramAllocator
unfolding release
release_detached a addr none = (false, a)
release_detached a addr (some (size, b)) = (true, release b addr size)

-- VramAllocator::free
pub free : VramAllocator → ℕ → Bool × VramAllocator
unfolding release_detached detach
free a addr = release_detached a addr (detach a addr)

pub owns_in : ℕ → ℕ → List (ℕ × ℕ) → Bool
owns_in addr len [] = false
owns_in addr len ((start, size) ∷ m) =
    (leb start addr && leb (addr - start) size && leb len (size - (addr - start)))
    || owns_in addr len m

-- VramAllocator::owns_range. `&&` keeps each subtraction from going below 0.
pub owns_range : VramAllocator → ℕ → ℕ → Bool
unfolding owns_in
owns_range a addr len = owns_in addr len a.live_map
