-- ===== src/Alloc/Blocks.antt =====
-- Blocks of addresses as the allocator's maps keep them: which addresses they cover, how many
-- bytes they hold, and what it means that a free map is coalesced.
use softgpu.Base.{
  ℕ, suc, ◌+◌, ◌≤◌, ◌<◌, ◌%◌, ◌≡◌, refl, ◌⊎◌, inr, List, [], ◌∷◌, none, some, ◌&&◌, ltb, leb,
  if◌then◌else◌, arith,
}
use softgpu.OrderedMap.{find, emplace, erase, lower_bound, before_lower, Ascending}

-- SG_ALLOC_ALIGN, which is SG_PAGE_SIZE
abbrev pub alloc_align : ℕ
alloc_align = 4096

-- A whole number of pages, from a page's start.
abbrev pub IsAligned : ℕ × ℕ → Type 0
IsAligned b = (b.0 % alloc_align ≡ 0) × (b.1 % alloc_align ≡ 0)

-- 1 when the block covers the address `x`.
abbrev pub inside : ℕ → ℕ × ℕ → ℕ
inside x (start, len) = if leb start x && ltb x (start + len) then 1 else 0

-- How many blocks cover `x`.
unfoldable pub cover : ℕ → List (ℕ × ℕ) → ℕ
cover x [] = 0
cover x (b ∷ m) = inside x b + cover x m

-- The bytes of all blocks.
unfoldable pub total : List (ℕ × ℕ) → ℕ
total [] = 0
total ((start, len) ∷ m) = len + total m

-- Blocks in order between `lo` and `hi`, none empty, and no two that touch.
abbrev pub Coalesced : ℕ → ℕ → List (ℕ × ℕ) → Type 0
Coalesced lo hi [] = Unit
Coalesced lo hi ((start, len) ∷ m) =
    (lo ≤ start) × (0 < len) × (start + len ≤ hi) × Coalesced (suc (start + len)) hi m

-- No block of the map meets or touches [k, k + n).
abbrev pub Apart : ℕ → ℕ → List (ℕ × ℕ) → Type 0
Apart k n [] = Unit
Apart k n ((start, len) ∷ m) = ((start + len < k) ⊎ (k + n < start)) × Apart k n m

-- No block of the map meets [k, k + n).
abbrev pub Disjoint : ℕ → ℕ → List (ℕ × ℕ) → Type 0
Disjoint k n [] = Unit
Disjoint k n ((start, len) ∷ m) = ((start + len ≤ k) ⊎ (k + n ≤ start)) × Disjoint k n m

pub cover-emplace :
    (x k n : ℕ) (m : List (ℕ × ℕ))
    → find k m ≡ none
    → cover x (emplace k n m) ≡ inside x (k, n) + cover x m
unfolding cover emplace find
cover-emplace x k n [] e = refl
cover-emplace x k n ((j, w) ∷ m) e = ground (arith, cover-emplace x k n m)

pub cover-erase :
    (x k n : ℕ) (m : List (ℕ × ℕ))
    → find k m ≡ some n
    → cover x m ≡ inside x (k, n) + cover x (erase k m)
unfolding cover erase find
cover-erase x k n [] e = cc
cover-erase x k n ((j, w) ∷ m) e = ground (arith, cover-erase x k n m)

pub total-emplace :
    (k n : ℕ) (m : List (ℕ × ℕ)) → find k m ≡ none → total (emplace k n m) ≡ n + total m
unfolding total emplace find
total-emplace k n [] e = refl
total-emplace k n ((j, w) ∷ m) e = ground (arith, total-emplace k n m)

pub total-erase : (k n : ℕ) (m : List (ℕ × ℕ)) → find k m ≡ some n → total m ≡ n + total (erase k m)
unfolding total erase find
total-erase k n [] e = cc
total-erase k n ((j, w) ∷ m) e = ground (arith, total-erase k n m)

pub Coalesced-mono :
    (lo lo' hi : ℕ) (m : List (ℕ × ℕ)) → lo' ≤ lo → Coalesced lo hi m → Coalesced lo' hi m
Coalesced-mono lo lo' hi [] h c = tt
Coalesced-mono lo lo' hi (b ∷ m) h c = (omega arith, c.1, c.2, c.3)

pub Coalesced-Ascending : (lo hi : ℕ) (m : List (ℕ × ℕ)) → Coalesced lo hi m → Ascending lo m
Coalesced-Ascending lo hi [] c = tt
Coalesced-Ascending lo hi ((s, n) ∷ m) c = (
  c.0,
  Coalesced-Ascending (suc s) hi m (Coalesced-mono (suc (s + n)) (suc s) hi m (omega arith) c.3),
)

pub Coalesced-erase :
    (k lo hi : ℕ) (m : List (ℕ × ℕ)) → Coalesced lo hi m → Coalesced lo hi (erase k m)
unfolding erase
Coalesced-erase k lo hi [] c = tt
Coalesced-erase k lo hi ((s, n) ∷ m) c =
    ground (arith, Coalesced-mono (suc (s + n)) lo hi m, Coalesced-erase k (suc (s + n)) hi m)

pub Coalesced-emplace :
    (k n lo hi : ℕ) (m : List (ℕ × ℕ))
    → lo ≤ k
    → 0 < n
    → k + n ≤ hi
    → Apart k n m
    → Coalesced lo hi m
    → Coalesced lo hi (emplace k n m)
unfolding emplace
Coalesced-emplace k n lo hi [] h p q a c = (h, p, q, tt)
Coalesced-emplace k n lo hi ((s, l) ∷ m) h p q a c =
    ground (arith, Coalesced-emplace k n (suc (s + l)) hi m)

pub Apart-find : (k n : ℕ) (m : List (ℕ × ℕ)) → Apart k n m → find k m ≡ none
unfolding find
Apart-find k n [] a = refl
Apart-find k n ((s, l) ∷ m) a = ground (arith, Apart-find k n m)

-- An entry of a coalesced map, by its key.
pub Coalesced-find :
    (k n lo hi : ℕ) (m : List (ℕ × ℕ))
    → Coalesced lo hi m
    → find k m ≡ some n
    → (lo ≤ k) × (0 < n) × (k + n ≤ hi)
unfolding find
Coalesced-find k n lo hi [] c e = cc
Coalesced-find k n lo hi ((s, l) ∷ m) c e = ground (arith, Coalesced-find k n (suc (s + l)) hi m)

-- What `release` reads off the map before and after it takes in the next block.

-- No block covers [k, k + n) or begins at its end; one may end at its start.
abbrev pub RightApart : ℕ → ℕ → List (ℕ × ℕ) → Type 0
RightApart k n [] = Unit
RightApart k n ((start, len) ∷ m) = ((start + len ≤ k) ⊎ (k + n < start)) × RightApart k n m

pub RightApart-above :
    (k n lo hi : ℕ) (m : List (ℕ × ℕ)) → Coalesced lo hi m → k + n < lo → RightApart k n m
RightApart-above k n lo hi [] c h = tt
RightApart-above k n lo hi ((s, l) ∷ m) c h =
    (inr (omega arith), RightApart-above k n (suc (s + l)) hi m c.3 (omega arith))

pub Apart-above : (k n lo hi : ℕ) (m : List (ℕ × ℕ)) → Coalesced lo hi m → k + n < lo → Apart k n m
Apart-above k n lo hi [] c h = tt
Apart-above k n lo hi ((s, l) ∷ m) c h =
    (inr (omega arith), Apart-above k n (suc (s + l)) hi m c.3 (omega arith))

-- The lower bound is an entry, at `k` or after it.
pub find-lower_bound :
    (k s l : ℕ) (lo hi : ℕ) (m : List (ℕ × ℕ))
    → Coalesced lo hi m
    → lower_bound k m ≡ some (s, l)
    → (find s m ≡ some l) × (k ≤ s)
unfolding lower_bound find
find-lower_bound k s l lo hi [] c e = cc
find-lower_bound k s l lo hi ((s', l') ∷ m) c e =
    ground (arith, find-lower_bound k s l (suc (s' + l')) hi m c.3)

-- The last entry below `k` is an entry.
pub find-before_lower :
    (k s l : ℕ) (lo hi : ℕ) (m : List (ℕ × ℕ))
    → Coalesced lo hi m
    → before_lower k m ≡ some (s, l)
    → (find s m ≡ some l) × (s < k) × (lo ≤ s)
unfolding before_lower find
find-before_lower k s l lo hi [] c e = cc
find-before_lower k s l lo hi ((s', l') ∷ m) c e =
    ground (arith, find-before_lower k s l (suc (s' + l')) hi m c.3)
