-- ===== src/Alloc/FirstFit.antt =====
-- What `alloc` hands out and when it refuses.
use softgpu.Base.{
  ℕ, suc, ge→ltb, ◌+◌, ◌≤◌, ◌<◌, ◌%◌, ◌≡◌, refl, ◌≢◌, ◌⊎◌, inl, inr, List, [], ◌∷◌, Option, none,
  some, ◌==◌, if◌then◌else◌, arith, All, u64_mod, ne→==,
}
use softgpu.OrderedMap.{find, emplace}
use softgpu.OrderedMap.Entries.{All-find, find-emplace}
use softgpu.Alloc.{VramAllocator, alloc, carve, carve_fit, first_fit, round_up}
use softgpu.Alloc.Blocks.{alloc_align, IsAligned, cover, Coalesced, cover-erase, Coalesced-find}
use softgpu.Alloc.Invariant.{IsValid, first_fit-find, round_up_page, carve-fresh}

-- First fit: the blocks before the one taken are too short.
first_fit_first :
    (need s l j w lo hi : ℕ) (m : List (ℕ × ℕ))
    → Coalesced lo hi m
    → first_fit need m ≡ some (s, l)
    → find j m ≡ some w
    → j < s
    → w < need
unfolding first_fit find
first_fit_first need s l j w lo hi [] c e f h = cc
first_fit_first need s l j w lo hi ((s', l') ∷ m) c e f h = ground (
  arith,
  first_fit_first need s l j w (suc (s' + l')) hi m,
  Coalesced-find j w (suc (s' + l')) hi m c.3,
)

first_fit-none : (need : ℕ) (m : List (ℕ × ℕ)) → first_fit need m ≡ none → All (λ b. b.1 < need) m
unfolding first_fit
first_fit-none need [] e = tt
first_fit-none need ((s, l) ∷ m) e = ground (arith, first_fit-none need m)

-- What a successful `alloc` of `bytes` at `addr` promises.
pub record Granted (a b : VramAllocator) (bytes addr need : ℕ) : Type 0 where
  -- a whole number of pages, the fewest that hold `bytes`
  pub page : addr % alloc_align ≡ 0
  pub whole : need % alloc_align ≡ 0
  pub enough : bytes ≤ need
  pub tight : need < bytes + alloc_align
  -- all of it was free, and it is one live block now
  pub was_free : (x : ℕ) → addr ≤ x → x < addr + need → cover x a.free_map ≡ 1
  pub fresh : find addr a.live_map ≡ none
  pub now_live : (j : ℕ) → find j b.live_map ≡ (if addr == j then some need else find j a.live_map)
  -- no free block at a lower address would have done
  pub first : (j w : ℕ) → find j a.free_map ≡ some w → j < addr → w < need

module _ (base limit : ℕ) (a : VramAllocator) (v : IsValid base limit a) (small : limit < u64_mod)
    (bytes : ℕ) (some_bytes : bytes ≢ 0) (no_wrap : bytes + 4095 < u64_mod) where
  granted :
      (s l : ℕ)
      → first_fit (round_up a.align bytes) a.free_map ≡ some (s, l)
      → Granted a (carve a (round_up a.align bytes) s l) bytes s (round_up a.align bytes)
  unfolding carve
  granted s l e =
      let need = round_up a.align bytes in
      let r = round_up_page a.align bytes v.aligned some_bytes no_wrap in
      let f = first_fit-find need s l base limit a.free_map v.coalesced e in
      let fresh = carve-fresh base limit a v small s l need f.0 (omega (arith, r)) f.1 r.2 in
      record {
        page = (All-find IsAligned s l a.free_map v.free_aligned f.0).0;
        whole = r.2;
        enough = r.0;
        tight = r.1;
        was_free = λ x h k. ground (arith, v.tiles x, cover-erase x s l a.free_map f.0);
        fresh = fresh;
        now_live = λ j. find-emplace s j need a.live_map fresh;
        first = λ j w g h. first_fit_first need s l j w base limit a.free_map v.coalesced e g h;
      }

  -- What a refusal means: no free block is long enough, and nothing changes.
  pub Refused : VramAllocator → Type 0
  Refused b = All (λ f. f.1 < round_up a.align bytes) a.free_map × (b ≡ a)

  outcome :
      (o : Option (ℕ × ℕ))
      → first_fit (round_up a.align bytes) a.free_map ≡ o
      → let (r, b) = carve_fit a (round_up a.align bytes) o in
        ((addr : ℕ) × (r ≡ some addr) × Granted a b bytes addr (round_up a.align bytes))
        ⊎ ((r ≡ none) × Refused b)
  unfolding carve_fit Refused
  outcome none e = inr (refl, (first_fit-none (round_up a.align bytes) a.free_map e, refl))
  outcome (some (s, l)) e = inl (s, refl, granted s l e)

  -- For a size that is not 0 and does not wrap in the rounding, `alloc` grants the lowest free block that is
  -- long enough, or there is none and it refuses and changes nothing.
  pub alloc_lem :
      let (r, b) = alloc a bytes in
      ((addr : ℕ) × (r ≡ some addr) × Granted a b bytes addr (round_up a.align bytes))
      ⊎ ((r ≡ none) × Refused b)
  unfolding alloc
  alloc_lem = rw (ne→== bytes 0 some_bytes) (outcome _ refl)

-- The sum in the rounding wraps for the last sizes below 2 ^ 64: `alloc` then finds every block
-- long enough and returns the first free address for a live block of no bytes.
pub alloc_wraps :
    (a : VramAllocator) (bytes s l : ℕ) (m : List (ℕ × ℕ))
    → a.align ≡ alloc_align
    → a.free_map ≡ (s, l) ∷ m
    → bytes < u64_mod
    → u64_mod ≤ bytes + 4095
    → ((alloc a bytes).0 ≡ some s) × ((alloc a bytes).1.live_map ≡ emplace s 0 a.live_map)
unfolding alloc carve_fit carve first_fit
alloc_wraps a bytes s l m e f h k =
    let z : round_up a.align bytes ≡ 0 = rw e (omega arith) in
    rw (ne→== bytes 0 (omega arith), z, f, ge→ltb l 0 (omega arith)) (refl, refl)
