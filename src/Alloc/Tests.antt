-- ===== src/Alloc/Tests.antt =====
-- Runs of the allocator, and its theorems at the states that they lead to.
use softgpu.Base.{ℕ, ◌+◌, ◌≤◌, ◌≡◌, refl, ◌⊎◌, ◌↔◌, [], ◌∷◌, none, some, true, arith}
use softgpu.OrderedMap.{find, emplace, erase}
use softgpu.Alloc.{VramAllocator, init, alloc, carve, first_fit, round_up, free, owns_range}
use softgpu.Alloc.Invariant.{IsValid, init-IsValid}
use softgpu.Alloc.Operations.{alloc-IsValid}
use softgpu.Alloc.FirstFit.{Granted, Refused, alloc_lem, alloc_wraps}
use softgpu.Alloc.Freeing.{Freed, free_live}
use softgpu.Alloc.Canonical.{free-alloc, free_comm, owns_range_iff}

abbrev fresh : VramAllocator
fresh = init 0 65536 4096

fresh-IsValid : IsValid 0 65536 fresh
fresh-IsValid = init-IsValid 0 65536 (omega arith) (omega arith) (omega arith)

-- 5000 bytes, then 100.
abbrev one_live : VramAllocator
one_live = (alloc fresh 5000).1

abbrev two_live : VramAllocator
two_live = (alloc one_live 100).1

one_live-IsValid : IsValid 0 65536 one_live
one_live-IsValid = alloc-IsValid 0 65536 fresh 5000 fresh-IsValid (omega arith) (omega arith)

two_live-IsValid : IsValid 0 65536 two_live
two_live-IsValid = alloc-IsValid 0 65536 one_live 100 one_live-IsValid (omega arith) (omega arith)

live_blocks : two_live.live_map ≡ (0, 8192) ∷ (8192, 4096) ∷ []
unfolding init alloc carve first_fit emplace erase
live_blocks = refl

first_at_zero : (alloc fresh 5000).0 ≡ some 0
unfolding init alloc first_fit
first_at_zero = refl

alloc-IsValid_example : IsValid 0 65536 (alloc one_live 100).1
alloc-IsValid_example =
    alloc-IsValid 0 65536 one_live 100 one_live-IsValid (omega arith) (omega arith)

alloc_lem_example :
    let (r, b) = alloc one_live 100 in
    ((addr : ℕ) × (r ≡ some addr) × Granted one_live b 100 addr (round_up one_live.align 100))
    ⊎ ((r ≡ none)
        × Refused 0 65536 one_live one_live-IsValid (omega arith) 100 (omega arith) (omega arith) b)
alloc_lem_example =
    alloc_lem 0 65536 one_live one_live-IsValid (omega arith) 100 (omega arith) (omega arith)

alloc_wraps_example :
    ((alloc fresh 18446744073709551615).0 ≡ some 0)
    × ((alloc fresh 18446744073709551615).1.live_map ≡ emplace 0 0 fresh.live_map)
unfolding init
alloc_wraps_example =
    alloc_wraps fresh 18446744073709551615 0 65536 [] refl refl (omega arith) (omega arith)

free_live_example : ((free two_live 0).0 ≡ true) × Freed 0 65536 two_live (free two_live 0).1 0 8192
unfolding init alloc carve first_fit emplace erase find
free_live_example = free_live 0 65536 two_live 0 8192 two_live-IsValid (omega arith) refl

free-alloc_example : free (alloc one_live 100).1 8192 ≡ (true, one_live)
unfolding init alloc carve first_fit emplace erase
free-alloc_example =
    free-alloc 0 65536 one_live 100 8192 one_live-IsValid (omega arith) (omega arith) (omega arith)
      refl

free_comm_example : (free (free two_live 0).1 8192).1 ≡ (free (free two_live 8192).1 0).1
unfolding init alloc carve first_fit emplace erase find
free_comm_example =
    free_comm 0 65536 two_live 0 8192 8192 4096 two_live-IsValid (omega arith) (omega arith) refl
      refl

owns_range_iff_example : (owns_range two_live 100 200 ≡ true) ↔ (
    (start : ℕ) × (size : ℕ) × (find start two_live.live_map ≡ some size)
    × (start ≤ 100)
    × (300 ≤ start + size))
owns_range_iff_example = owns_range_iff 0 65536 two_live 100 200 two_live-IsValid
