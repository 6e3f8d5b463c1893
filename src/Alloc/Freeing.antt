-- ===== src/Alloc/Freeing.antt =====
-- `detach`, `release` and `free`: what they give back, and that `free` undoes `alloc`.
use softgpu.Base.{
  ap, ◌∙◌, ℕ, ◌+◌, ◌-◌, ◌≤◌, ◌<◌, ◌≡◌, refl, inl, inr, none, some, true, false, ◌==◌, if◌then◌else◌,
  arith, All, u64_mod, Option-cases, eq→==,
}
use softgpu.OrderedMap.{find}
use softgpu.OrderedMap.Entries.{All-erase, All-find, Ascending-erase, find-erase}
use softgpu.Alloc.{VramAllocator, detach, detach_found, release, release_detached, free}
use softgpu.Alloc.Blocks.{IsAligned, inside, cover, Coalesced, Disjoint, cover-erase, total-erase}
use softgpu.Alloc.Join.{join_next-Joined, Merged, join_prev-Merged}
use softgpu.Alloc.Invariant.{IsLong, IsValid, Disjoint-cover, Coalesced-IsLong}

-- `release` gives [addr, addr + size) back to the free map, which stays coalesced.
release-Merged :
    (base limit : ℕ) (a : VramAllocator) (addr size : ℕ)
    → Coalesced base limit a.free_map
    → All IsAligned a.free_map
    → limit < u64_mod
    → 0 < size
    → base ≤ addr
    → addr + size ≤ limit
    → IsAligned (addr, size)
    → Disjoint addr size a.free_map
    → Merged addr size base limit a.free_map (release a addr size).free_map
unfolding release
release-Merged base limit a addr size c al small p low room i d =
    let m = a.free_map in
    let j = join_next-Joined addr size base limit m p room small c d i al in
    let q =
      join_prev-Merged addr _ base limit _ (omega arith) low j.fits small j.coalesced j.apart
        j.aligned (i.0, j.whole) in
    record {
      coalesced = q.coalesced;
      covers = λ x. omega (arith, q.covers x, j.covers x);
      holds = omega (arith, q.holds, j.holds);
      aligned = q.aligned;
    }

-- A live block is disjoint from every free one.
live-Disjoint :
    (base limit : ℕ) (a : VramAllocator) (addr size : ℕ)
    → IsValid base limit a
    → find addr a.live_map ≡ some size
    → Disjoint addr size a.free_map
live-Disjoint base limit a addr size v e =
    Disjoint-cover addr size a.free_map (All-find IsLong addr size a.live_map v.long e)
      (Coalesced-IsLong base limit a.free_map v.coalesced)
      (λ x h k. ground (arith, v.tiles x, cover-erase x addr size a.live_map e))

-- A live block lies in the range.
pub live_bounds :
    (base limit : ℕ) (a : VramAllocator) (addr size : ℕ)
    → IsValid base limit a
    → find addr a.live_map ≡ some size
    → (base ≤ addr) × (0 < size) × (addr + size ≤ limit)
live_bounds base limit a addr size v e =
    let p : 0 < size = All-find IsLong addr size a.live_map v.long e in
    ground (
      arith,
      v.tiles addr,
      v.tiles (addr + size - 1),
      cover-erase addr addr size a.live_map e,
      cover-erase (addr + size - 1) addr size a.live_map e,
    )

-- What freeing the live block [addr, addr + size) does.
pub record Freed (base limit : ℕ) (a b : VramAllocator) (addr size : ℕ) : Type 0 where
  pub valid : IsValid base limit b
  pub not_live : (j : ℕ) → find j b.live_map ≡ (if addr == j then none else find j a.live_map)
  pub now_free : (x : ℕ) → cover x b.free_map ≡ inside x (addr, size) + cover x a.free_map
  pub returned : b.live_bytes + size ≡ a.live_bytes

freed :
    (base limit : ℕ) (a : VramAllocator) (addr size : ℕ)
    → IsValid base limit a
    → limit < u64_mod
    → find addr a.live_map ≡ some size
    → Freed base limit a (release_detached a addr (detach_found a addr (some size))).1 addr size
unfolding release_detached detach_found release
freed base limit a addr size v small e =
    let b = live_bounds base limit a addr size v e in
    let q =
      release-Merged base limit a addr size v.coalesced v.free_aligned small b.1 b.0 b.2
        (All-find IsAligned addr size a.live_map v.live_aligned e)
        (live-Disjoint base limit a addr size v e) in
    let t = total-erase addr size a.live_map e in
    record {
      valid = record {
        aligned = v.aligned;
        coalesced = q.coalesced;
        free_aligned = q.aligned;
        ordered = Ascending-erase addr 0 a.live_map v.ordered;
        long = All-erase IsLong addr a.live_map v.long;
        live_aligned = All-erase IsAligned addr a.live_map v.live_aligned;
        tiles = λ x. omega (arith, q.covers x, cover-erase x addr size a.live_map e, v.tiles x);
        bytes = omega (arith, t, v.bytes, v.holds);
        holds = omega (arith, q.holds, t, v.holds);
      };
      not_live = λ j. find-erase addr j 0 a.live_map v.ordered;
      now_free = q.covers;
      returned = omega (arith, t, v.bytes, v.holds);
    }

-- `free` of a live block succeeds, frees exactly its bytes and keeps the invariant.
pub free_live :
    (base limit : ℕ) (a : VramAllocator) (addr size : ℕ)
    → IsValid base limit a
    → limit < u64_mod
    → find addr a.live_map ≡ some size
    → ((free a addr).0 ≡ true) × Freed base limit a (free a addr).1 addr size
unfolding free detach
free_live base limit a addr size v small e =
    rw e (unfold release_detached detach_found in refl, freed base limit a addr size v small e)

-- `free` of any other address fails and changes nothing.
pub free_dead :
    (a : VramAllocator) (addr : ℕ) → find addr a.live_map ≡ none → free a addr ≡ (false, a)
unfolding free detach release_detached detach_found
free_dead a addr e = rw e

-- So a second `free` of a block fails.
pub free_twice :
    (base limit : ℕ) (a : VramAllocator) (addr : ℕ)
    → IsValid base limit a
    → limit < u64_mod
    → (free (free a addr).1 addr).0 ≡ false
free_twice base limit a addr v small = elim (Option-cases (find addr a.live_map)) [
  | inl e ↦ let f = free_dead a addr e in rw (f, f)
  | inr (size, e) ↦
      let f = free_live base limit a addr size v small e in
      ap (λ r. r.0)
        (free_dead (free a addr).1 addr (
          f.1.not_live addr
          ∙ ap (λ t. if t then none else find addr a.live_map) (eq→== addr addr refl)))
]
