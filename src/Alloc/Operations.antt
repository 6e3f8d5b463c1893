-- ===== src/Alloc/Operations.antt =====
-- `alloc`, `detach`, `release` and `free` on every branch, under the invariant.
use softgpu.Base.{
  ℕ, ◌+◌, ◌≤◌, ◌<◌, ◌%◌, ◌≡◌, refl, ◌≢◌, inl, inr, Option, none, some, arith, u64_mod, eq_or_ne,
  eq→==, ne→==,
}
use softgpu.Alloc.{VramAllocator, alloc, carve, carve_fit, first_fit, round_up}
use softgpu.Alloc.Blocks.{alloc_align}
use softgpu.Alloc.Invariant.{IsValid, round_up_page, first_fit-find, carve-IsValid}

-- `alloc` reduces to its scan.
pub alloc_scan :
    (a : VramAllocator) (bytes : ℕ)
    → bytes ≢ 0
    → alloc a bytes
      ≡ carve_fit a (round_up a.align bytes) (first_fit (round_up a.align bytes) a.free_map)
unfolding alloc
alloc_scan a bytes h = rw (ne→== bytes 0 h)

module _ (base limit : ℕ) (a : VramAllocator) (v : IsValid base limit a) (small : limit < u64_mod)
    (bytes : ℕ) (some_bytes : bytes ≢ 0) (no_wrap : bytes + 4095 < u64_mod) where
  rounded :
      (bytes ≤ round_up a.align bytes)
      × (round_up a.align bytes < bytes + 4096)
      × (round_up a.align bytes % alloc_align ≡ 0)
  rounded = round_up_page a.align bytes v.aligned some_bytes no_wrap

  -- The block that `alloc` carves.
  carves :
      (s l : ℕ)
      → first_fit (round_up a.align bytes) a.free_map ≡ some (s, l)
      → IsValid base limit (carve a (round_up a.align bytes) s l)
  carves s l e =
      let need = round_up a.align bytes in
      let f = first_fit-find need s l base limit a.free_map v.coalesced e in
      carve-IsValid base limit a v small s l need f.0 (omega (arith, rounded)) f.1 rounded.2

  fit-IsValid :
      (o : Option (ℕ × ℕ))
      → first_fit (round_up a.align bytes) a.free_map ≡ o
      → IsValid base limit (carve_fit a (round_up a.align bytes) o).1
  unfolding carve_fit
  fit-IsValid none e = v
  fit-IsValid (some (s, l)) e = carves s l e

-- Whatever `alloc` returns, the free and the live blocks still tile the range.
pub alloc-IsValid :
    (base limit : ℕ) (a : VramAllocator) (bytes : ℕ)
    → IsValid base limit a
    → limit < u64_mod
    → bytes + 4095 < u64_mod
    → IsValid base limit (alloc a bytes).1
unfolding alloc
alloc-IsValid base limit a bytes v small q = elim (eq_or_ne bytes 0) [
  | inl z ↦ rw (eq→== bytes 0 z) v
  | inr z ↦ rw (ne→== bytes 0 z) (fit-IsValid base limit a v small bytes z q _ refl)
]
