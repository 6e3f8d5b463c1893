-- ===== src/Alloc/Invariant.antt =====
-- The allocator's invariant: the free and the live blocks tile the range that it was given.
use softgpu.Base.{
  ℕ, suc, ◌+◌, ◌-◌, ◌≤◌, ◌<◌, ◌%◌, ◌≡◌, refl, ◌≢◌, inl, inr, List, [], ◌∷◌, none, some, ◌&&◌, ltb,
  leb, if◌then◌else◌, arith, All, add64, sub64, u64_mod, Option-cases, eq_or_ne, eq→==, ne→==,
}
use softgpu.OrderedMap.{find, emplace, erase, Ascending}
use softgpu.OrderedMap.Entries.{All-emplace, All-erase, All-find, Ascending-emplace}
use softgpu.Alloc.{VramAllocator, init, carve, first_fit, round_up}
use softgpu.Alloc.Blocks.{
  alloc_align, IsAligned, inside, cover, total, Coalesced, Apart, Disjoint, Apart-above,
  Coalesced-erase, Coalesced-emplace, Coalesced-find, cover-erase, cover-emplace, total-erase,
  total-emplace, Apart-find,
}

abbrev pub IsLong : ℕ × ℕ → Type 0
IsLong b = 0 < b.1

pub record IsValid (base limit : ℕ) (a : VramAllocator) : Type 0 where
  pub aligned : a.align ≡ alloc_align
  pub coalesced : Coalesced base limit a.free_map
  pub free_aligned : All IsAligned a.free_map
  pub ordered : Ascending 0 a.live_map
  pub long : All IsLong a.live_map
  pub live_aligned : All IsAligned a.live_map
  -- Each address of the range is in one block, free or live, and no other address is in any.
  pub tiles :
      (x : ℕ)
      → cover x a.free_map + cover x a.live_map ≡ (if leb base x && ltb x limit then 1 else 0)
  pub bytes : a.live_bytes ≡ total a.live_map
  pub holds : total a.free_map + total a.live_map + base ≡ limit

pub init-IsValid :
    (base size : ℕ)
    → 0 < size
    → base % alloc_align ≡ 0
    → size % alloc_align ≡ 0
    → IsValid base (base + size) (init base size alloc_align)
unfolding init cover total
init-IsValid base size p q r = record {
  aligned = refl;
  coalesced = (omega arith, p, omega arith, tt);
  free_aligned = ((q, r), tt);
  ordered = tt;
  long = tt;
  live_aligned = tt;
  tiles = λ x. ground arith;
  bytes = refl;
  holds = omega arith;
}

-- What a size is rounded up to, as long as the sum does not wrap.
pub round_up_page :
    (align bytes : ℕ)
    → align ≡ alloc_align
    → bytes ≢ 0
    → bytes + 4095 < u64_mod
    → (bytes ≤ round_up align bytes)
      × (round_up align bytes < bytes + 4096)
      × (round_up align bytes % alloc_align ≡ 0)
round_up_page align bytes e p q = rw e (page bytes p q)
  where
    page :
        (bytes : ℕ)
        → bytes ≢ 0
        → bytes + 4095 < u64_mod
        → (bytes ≤ round_up alloc_align bytes)
          × (round_up alloc_align bytes < bytes + 4096)
          × (round_up alloc_align bytes % alloc_align ≡ 0)
    page bytes p q = omega arith

pub first_fit-find :
    (need s l lo hi : ℕ) (m : List (ℕ × ℕ))
    → Coalesced lo hi m
    → first_fit need m ≡ some (s, l)
    → (find s m ≡ some l) × (need ≤ l) × (lo ≤ s)
unfolding first_fit find
first_fit-find need s l lo hi [] c e = cc
first_fit-find need s l lo hi ((s', l') ∷ m) c e =
    ground (arith, first_fit-find need s l (suc (s' + l')) hi m c.3)

Apart-carve :
    (need s l lo hi : ℕ) (m : List (ℕ × ℕ))
    → Coalesced lo hi m
    → find s m ≡ some l
    → need ≤ l
    → Apart (s + need) (l - need) (erase s m)
unfolding find erase
Apart-carve need s l lo hi [] c e h = tt
Apart-carve need s l lo hi ((s', l') ∷ m) c e h = ground (
  arith,
  Apart-above (s + need) (l - need) (suc (s' + l')) hi m c.3,
  Apart-carve need s l (suc (s' + l')) hi m c.3,
  Coalesced-find s l (suc (s' + l')) hi m c.3,
)

-- Where nothing covers a block's addresses, no block meets it.
pub Disjoint-cover :
    (k n : ℕ) (m : List (ℕ × ℕ))
    → 0 < n
    → All IsLong m
    → ((x : ℕ) → k ≤ x → x < k + n → cover x m ≡ 0)
    → Disjoint k n m
unfolding cover
Disjoint-cover k n [] p a h = tt
Disjoint-cover k n ((s, l) ∷ m) p a h =
    (ground (arith, h k, h s), Disjoint-cover k n m p a.1 (λ x i j. omega (arith, h x i j)))

pub Coalesced-IsLong : (lo hi : ℕ) (m : List (ℕ × ℕ)) → Coalesced lo hi m → All IsLong m
Coalesced-IsLong lo hi [] c = tt
Coalesced-IsLong lo hi ((s, l) ∷ m) c = (c.1, Coalesced-IsLong (suc (s + l)) hi m c.3)

find-cover : (k n : ℕ) (m : List (ℕ × ℕ)) → All IsLong m → find k m ≡ some n → 1 ≤ cover k m
find-cover k n m a e =
    let p : 0 < n = All-find IsLong k n m a e in ground (arith, cover-erase k k n m e)

find-none : (k : ℕ) (m : List (ℕ × ℕ)) → All IsLong m → cover k m ≡ 0 → find k m ≡ none
find-none k m a h = elim (Option-cases (find k m)) [
  | inl e ↦ e
  | inr (n, e) ↦ absurd (omega (arith, find-cover k n m a e))
]

-- Taking `need` bytes off the front of a free block keeps the invariant.
module _ (base limit : ℕ) (a : VramAllocator) (v : IsValid base limit a) (small : limit < u64_mod)
    (s l need : ℕ) (e : find s a.free_map ≡ some l) (p : 0 < need) (fits : need ≤ l)
    (whole : need % alloc_align ≡ 0) where
  entry : (base ≤ s) × (0 < l) × (s + l ≤ limit)
  entry = Coalesced-find s l base limit a.free_map v.coalesced e

  -- A free block's start is not live.
  pub carve-fresh : find s a.live_map ≡ none
  carve-fresh = find-none s a.live_map v.long (
      ground (
        arith,
        v.tiles s,
        find-cover s l a.free_map (Coalesced-IsLong base limit a.free_map v.coalesced) e,
      ))

  rest : sub64 l need ≡ l - need
  rest = omega (arith, entry)

  no_wrap : add64 s need ≡ s + need
  no_wrap = omega (arith, entry)

  -- The free map after it: the parts that the invariant needs.
  abbrev CarvedFree : List (ℕ × ℕ) → Type 0
  CarvedFree m =
      Coalesced base limit m
      × All IsAligned m
      × ((x : ℕ) → cover x m + inside x (s, need) ≡ cover x a.free_map)
      × (total m + need ≡ total a.free_map)

  whole_block : need ≡ l → CarvedFree (erase s a.free_map)
  whole_block q = (
    Coalesced-erase s base limit a.free_map v.coalesced,
    All-erase IsAligned s a.free_map v.free_aligned,
    (λ x. ground (arith, cover-erase x s l a.free_map e)),
    omega (arith, total-erase s l a.free_map e),
  )

  part_block : need < l → CarvedFree (emplace (s + need) (l - need) (erase s a.free_map))
  part_block q =
      let m = erase s a.free_map in
      let d = Apart-carve need s l base limit a.free_map v.coalesced e fits in
      let f = Apart-find (s + need) (l - need) m d in
      let al = All-find IsAligned s l a.free_map v.free_aligned e in
      (
        Coalesced-emplace (s + need) (l - need) base limit m (omega (arith, entry)) (omega arith)
            (omega (arith, entry)) d (Coalesced-erase s base limit a.free_map v.coalesced),
        All-emplace IsAligned (s + need) (l - need) m
            (All-erase IsAligned s a.free_map v.free_aligned) (omega arith, omega arith),
        (λ x.
            ground
              (arith, cover-erase x s l a.free_map e, cover-emplace x (s + need) (l - need) m f)),
        omega (arith, total-erase s l a.free_map e, total-emplace (s + need) (l - need) m f),
      )

  carved : CarvedFree (carve a need s l).free_map
  unfolding carve
  carved = elim (eq_or_ne l need) [
    | inl q ↦ rw (rest, eq→== (l - need) 0 (omega arith)) (whole_block (omega arith))
    | inr q ↦ rw (rest, no_wrap, ne→== (l - need) 0 (omega arith)) (part_block (omega arith))
  ]

  pub carve-IsValid : IsValid base limit (carve a need s l)
  unfolding carve
  carve-IsValid =
      let t = total-emplace s need a.live_map carve-fresh in
      let tf = total-erase s l a.free_map e in
      let al = All-find IsAligned s l a.free_map v.free_aligned e in
      record {
        aligned = v.aligned;
        coalesced = carved.0;
        free_aligned = carved.1;
        ordered = Ascending-emplace s 0 need a.live_map (omega arith) v.ordered;
        long = All-emplace IsLong s need a.live_map v.long p;
        live_aligned = All-emplace IsAligned s need a.live_map v.live_aligned (al.0, whole);
        tiles = λ x.
            omega (arith, carved.2 x, cover-emplace x s need a.live_map carve-fresh, v.tiles x);
        bytes = omega (arith, t, tf, v.bytes, v.holds);
        holds = omega (arith, carved.3, t, v.holds);
      }
