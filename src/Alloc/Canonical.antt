-- ===== src/Alloc/Canonical.antt =====
-- A coalesced free map is determined by the addresses it covers. So `free` undoes `alloc`, and
-- the order in which blocks are freed leaves no trace.
use softgpu.Base.{
  ℕ, suc, ◌+◌, ◌-◌, ◌≤◌, ◌<◌, ◌≡◌, refl, ◌≢◌, inl, inr, ◌↔◌, List, [], ◌∷◌, some, true, ◌&&◌, leb,
  arith, u64_mod, Bool-cases, some-injective, ap, sym, ◌∙◌,
}
use softgpu.OrderedMap.{find, Ascending}
use softgpu.OrderedMap.Entries.{Ascending-unique}
use softgpu.Alloc.{VramAllocator, alloc, round_up, free, owns_range, owns_in}
use softgpu.Alloc.Blocks.{cover, total, Coalesced}
use softgpu.Alloc.Invariant.{IsValid}
use softgpu.Alloc.Operations.{alloc-IsValid}
use softgpu.Alloc.FirstFit.{Granted, alloc_lem}
use softgpu.Alloc.Freeing.{free_live}

-- Nothing is covered below a coalesced map's bound.
cover_below : (x lo hi : ℕ) (m : List (ℕ × ℕ)) → Coalesced lo hi m → x < lo → cover x m ≡ 0
unfolding cover
cover_below x lo hi [] c h = refl
cover_below x lo hi ((s, l) ∷ m) c h = ground (arith, cover_below x (suc (s + l)) hi m c.3)

-- Nor is the address right after its first block.
same_head :
    (s l s' l' lo hi : ℕ) (m m' : List (ℕ × ℕ))
    → Coalesced lo hi ((s, l) ∷ m)
    → Coalesced lo hi ((s', l') ∷ m')
    → ((x : ℕ) → cover x ((s, l) ∷ m) ≡ cover x ((s', l') ∷ m'))
    → (s ≡ s') × (l ≡ l')
unfolding cover
same_head s l s' l' lo hi m m' c d h = ground (
  arith,
  h s,
  h s',
  h (s + l),
  h (s' + l'),
  cover_below s (suc (s + l)) hi m c.3,
  cover_below s' (suc (s' + l')) hi m' d.3,
  cover_below s (suc (s' + l')) hi m' d.3,
  cover_below s' (suc (s + l)) hi m c.3,
  cover_below (s + l) (suc (s + l)) hi m c.3,
  cover_below (s + l) (suc (s' + l')) hi m' d.3,
  cover_below (s' + l') (suc (s' + l')) hi m' d.3,
  cover_below (s' + l') (suc (s + l)) hi m c.3,
)

pub Coalesced-unique :
    (lo hi : ℕ) (m m' : List (ℕ × ℕ))
    → Coalesced lo hi m
    → Coalesced lo hi m'
    → ((x : ℕ) → cover x m ≡ cover x m')
    → m ≡ m'
unfolding cover
Coalesced-unique lo hi [] [] c d h = refl
Coalesced-unique lo hi [] ((s', l') ∷ m') c d h = ground (arith, h s')
Coalesced-unique lo hi ((s, l) ∷ m) [] c d h = ground (arith, h s)
Coalesced-unique lo hi ((s, l) ∷ m) ((s', l') ∷ m') c d h =
    let (e, f) = same_head s l s' l' lo hi m m' c d h in
    cc (e, f, Coalesced-unique (suc (s + l)) hi m m' c.3 (rw (e, f) d.3) (λ x. ground (arith, h x)))

same_state :
    (a b : VramAllocator)
    → a.align ≡ b.align
    → a.free_map ≡ b.free_map
    → a.live_map ≡ b.live_map
    → a.live_bytes ≡ b.live_bytes
    → a ≡ b
same_state a b p q r s =
    λ i. record { align = p i; free_map = q i; live_map = r i; live_bytes = s i }

-- Two valid states of one range with the same live blocks are the same state.
pub IsValid_unique :
    (base limit : ℕ) (a b : VramAllocator)
    → IsValid base limit a
    → IsValid base limit b
    → ((j : ℕ) → find j a.live_map ≡ find j b.live_map)
    → a ≡ b
IsValid_unique base limit a b v w k =
    let f = Ascending-unique 0 a.live_map b.live_map v.ordered w.ordered k in
    let e =
      Coalesced-unique base limit a.free_map b.free_map v.coalesced w.coalesced
        (λ x. omega (arith, v.tiles x, w.tiles x, ap (cover x) f)) in
    same_state a b (v.aligned ∙ sym w.aligned) e f (v.bytes ∙ ap total f ∙ sym w.bytes)

-- Freeing two live blocks in either order leads to the same state.
pub free_comm :
    (base limit : ℕ) (a : VramAllocator) (p q n m : ℕ)
    → IsValid base limit a
    → limit < u64_mod
    → p ≢ q
    → find p a.live_map ≡ some n
    → find q a.live_map ≡ some m
    → (free (free a p).1 q).1 ≡ (free (free a q).1 p).1
free_comm base limit a p q n m v small d e f =
    let fp = (free_live base limit a p n v small e).1 in
    let fq = (free_live base limit a q m v small f).1 in
    let fpq =
      (free_live base limit (free a p).1 q m fp.valid small (ground (arith, fp.not_live q))).1 in
    let fqp =
      (free_live base limit (free a q).1 p n fq.valid small (ground (arith, fq.not_live p))).1 in
    IsValid_unique base limit (free (free a p).1 q).1 (free (free a q).1 p).1 fpq.valid fqp.valid
      (λ j. ground (arith, fpq.not_live j, fqp.not_live j, fp.not_live j, fq.not_live j))

-- For a size that is not 0 and does not wrap in the rounding, `free` undoes a successful `alloc`: the state is again
-- what it was, free map, live map and counter.
pub free-alloc :
    (base limit : ℕ) (a : VramAllocator) (bytes addr : ℕ)
    → IsValid base limit a
    → limit < u64_mod
    → bytes ≢ 0
    → bytes + 4095 < u64_mod
    → (alloc a bytes).0 ≡ some addr
    → free (alloc a bytes).1 addr ≡ (true, a)
free-alloc base limit a bytes addr v small p q e = elim (alloc_lem base limit a v small bytes p q) [
  | inl (addr', r, g) ↦ undo addr' r (some-injective addr addr' (sym e ∙ r)) g
  | inr (r, _) ↦ cc
]
  where
    undo :
        (addr' : ℕ)
        → (alloc a bytes).0 ≡ some addr'
        → addr ≡ addr'
        → Granted a (alloc a bytes).1 bytes addr' (round_up a.align bytes)
        → free (alloc a bytes).1 addr ≡ (true, a)
    undo addr' r s g =
        let w = alloc-IsValid base limit a bytes v small q in
        let f =
          free_live base limit (alloc a bytes).1 addr (round_up a.align bytes) w small
            (ground (arith, g.now_live addr)) in
        λ i. (
          f.0 i,
          IsValid_unique base limit (free (alloc a bytes).1 addr).1 a f.1.valid v
              (λ j. ground (arith, f.1.not_live j, g.now_live j, g.fresh)) i,
        )

owns_in-find :
    (addr len lo : ℕ) (m : List (ℕ × ℕ))
    → Ascending lo m
    → owns_in addr len m ≡ true
    → (start : ℕ) × (size : ℕ) × (find start m ≡ some size)
      × (lo ≤ start)
      × (start ≤ addr)
      × (addr + len ≤ start + size)
unfolding owns_in find
owns_in-find addr len lo [] h e = cc
owns_in-find addr len lo ((s, l) ∷ m) h e =
    elim (Bool-cases (leb s addr && leb (addr - s) l && leb len (l - (addr - s)))) [
      | inl t ↦ (s, l, ground arith, h.0, ground arith, ground arith)
      | inr t ↦
          let (start, size, f, b, p, q) = owns_in-find addr len (suc s) m h.1 (ground arith) in
          (start, size, ground arith, omega arith, p, q)
    ]

find-owns_in :
    (addr len start size : ℕ) (m : List (ℕ × ℕ))
    → find start m ≡ some size
    → start ≤ addr
    → addr + len ≤ start + size
    → owns_in addr len m ≡ true
unfolding owns_in find
find-owns_in addr len start size [] e h k = cc
find-owns_in addr len start size ((s, l) ∷ m) e h k =
    ground (arith, find-owns_in addr len start size m)

-- `owns_range` holds exactly when one live block contains all of [addr, addr + len).
pub owns_range_iff :
    (base limit : ℕ) (a : VramAllocator) (addr len : ℕ)
    → IsValid base limit a
    → (owns_range a addr len ≡ true) ↔ (
        (start : ℕ) × (size : ℕ) × (find start a.live_map ≡ some size)
        × (start ≤ addr)
        × (addr + len ≤ start + size))
unfolding owns_range
owns_range_iff base limit a addr len v = (
  (λ t.
      let (start, size, e, b, h, k) = owns_in-find addr len 0 a.live_map v.ordered t in
      (start, size, e, h, k)),
  λ (start, size, e, h, k). find-owns_in addr len start size a.live_map e h k,
)
