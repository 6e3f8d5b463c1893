-- ===== src/Alloc/Join.antt =====
-- Coalescing in `release`: what the neighbours of a released block leave apart from it.
use softgpu.Base.{
  ℕ, suc, ◌%◌, All, ◌+◌, ◌≤◌, ◌<◌, ◌≡◌, refl, ◌≢◌, inl, inr, List, [], ◌∷◌, none, some, arith,
  add64, u64_mod, Option-cases, eq_or_ne, eq→==, ne→==,
}
use softgpu.OrderedMap.{emplace, erase, lower_bound, before_lower}
use softgpu.OrderedMap.Entries.{All-emplace, All-erase, All-find}
use softgpu.Alloc.{join_next, join_prev}
use softgpu.Alloc.Blocks.{
  alloc_align, IsAligned, inside, cover, total, Coalesced, Apart, Disjoint, RightApart,
  RightApart-above, Apart-above, Coalesced-erase, Coalesced-emplace, Coalesced-find, cover-erase,
  cover-emplace, total-erase, total-emplace, Apart-find, find-lower_bound, find-before_lower,
}

right_none :
    (k n lo hi : ℕ) (m : List (ℕ × ℕ))
    → Coalesced lo hi m
    → Disjoint k n m
    → lower_bound k m ≡ none
    → RightApart k n m
unfolding lower_bound
right_none k n lo hi [] c d e = tt
right_none k n lo hi ((s, l) ∷ m) c d e = ground (arith, right_none k n (suc (s + l)) hi m c.3 d.1)

right_gap :
    (k n s l lo hi : ℕ) (m : List (ℕ × ℕ))
    → 0 < n
    → Coalesced lo hi m
    → Disjoint k n m
    → lower_bound k m ≡ some (s, l)
    → s ≢ k + n
    → RightApart k n m
unfolding lower_bound
right_gap k n s l lo hi [] p c d e f = tt
right_gap k n s l lo hi ((s', l') ∷ m) p c d e f = ground (
  arith,
  right_gap k n s l (suc (s' + l')) hi m p c.3 d.1,
  RightApart-above k n (suc (s' + l')) hi m c.3,
)

right_join :
    (k n s l lo hi : ℕ) (m : List (ℕ × ℕ))
    → 0 < n
    → Coalesced lo hi m
    → Disjoint k n m
    → lower_bound k m ≡ some (s, l)
    → s ≡ k + n
    → RightApart k (n + l) (erase s m)
unfolding lower_bound erase
right_join k n s l lo hi [] p c d e f = tt
right_join k n s l lo hi ((s', l') ∷ m) p c d e f = ground (
  arith,
  right_join k n s l (suc (s' + l')) hi m p c.3 d.1,
  RightApart-above k (n + l) (suc (s' + l')) hi m c.3,
)

-- Nothing begins below `k`, so what stands right of [k, k + n) stands right of what ends there.
left_none :
    (k n j p lo hi : ℕ) (m : List (ℕ × ℕ))
    → j + p ≡ k + n
    → Coalesced lo hi m
    → RightApart k n m
    → before_lower k m ≡ none
    → Apart j p m
unfolding before_lower
left_none k n j p lo hi [] q c r e = tt
left_none k n j p lo hi ((s, l) ∷ m) q c r e =
    ground (arith, Apart-above j p (suc (s + l)) hi m c.3)

left_gap :
    (k n s l lo hi : ℕ) (m : List (ℕ × ℕ))
    → Coalesced lo hi m
    → RightApart k n m
    → before_lower k m ≡ some (s, l)
    → s + l ≢ k
    → Apart k n m
unfolding before_lower
left_gap k n s l lo hi [] c r e f = tt
left_gap k n s l lo hi ((s', l') ∷ m) c r e f = ground (
  arith,
  left_none k n k n (suc (s' + l')) hi m refl c.3 r.1,
  left_gap k n s l (suc (s' + l')) hi m c.3 r.1,
  find-before_lower k s l (suc (s' + l')) hi m c.3,
)

left_join :
    (k n s l lo hi : ℕ) (m : List (ℕ × ℕ))
    → Coalesced lo hi m
    → RightApart k n m
    → before_lower k m ≡ some (s, l)
    → s + l ≡ k
    → Apart s (l + n) (erase s m)
unfolding before_lower erase
left_join k n s l lo hi [] c r e f = tt
left_join k n s l lo hi ((s', l') ∷ m) c r e f = ground (
  arith,
  left_none k n s' (l' + n) (suc (s' + l')) hi m,
  left_join k n s l (suc (s' + l')) hi m c.3 r.1,
  find-before_lower k s l (suc (s' + l')) hi m c.3,
)

-- The map that takes [k, k + n) in on its right: coalesced, clear of the new block, and covering
-- together with it what the old map and [k, k + n) covered.
pub record Joined (k n lo hi n' : ℕ) (m m' : List (ℕ × ℕ)) : Type 0 where
  pub coalesced : Coalesced lo hi m'
  pub apart : RightApart k n' m'
  pub longer : n ≤ n'
  pub fits : k + n' ≤ hi
  pub covers : (x : ℕ) → inside x (k, n') + cover x m' ≡ inside x (k, n) + cover x m
  pub holds : n' + total m' ≡ n + total m
  pub whole : n' % alloc_align ≡ 0
  pub aligned : All IsAligned m'

module _ (k n lo hi : ℕ) (m : List (ℕ × ℕ)) (p : 0 < n) (room : k + n ≤ hi) (small : hi < u64_mod)
    (c : Coalesced lo hi m) (d : Disjoint k n m) (i : IsAligned (k, n)) (al : All IsAligned m) where
  join_next-some :
      (s l : ℕ)
      → lower_bound k m ≡ some (s, l)
      → let (n', m') = join_next k n m (some (s, l)) in Joined k n lo hi n' m m'
  unfolding join_next
  join_next-some s l e = elim (eq_or_ne s (k + n)) [
    | inl q ↦
        let w : add64 k n ≡ k + n = omega arith in
        let b = find-lower_bound k s l lo hi m c e in
        let r = Coalesced-find s l lo hi m c b.0 in
        let v : add64 n l ≡ n + l = omega arith in
        rw (w, eq→== s (k + n) q, v)
          (record {
            coalesced = Coalesced-erase s lo hi m c;
            apart = right_join k n s l lo hi m p c d e q;
            longer = omega arith;
            fits = omega arith;
            covers = λ x. ground (arith, cover-erase x s l m b.0);
            holds = omega (arith, total-erase s l m b.0);
            whole = omega (arith, All-find IsAligned s l m al b.0);
            aligned = All-erase IsAligned s m al;
          })
    | inr q ↦
        let w : add64 k n ≡ k + n = omega arith in
        rw (w, ne→== s (k + n) q)
          (record {
            coalesced = c;
            apart = right_gap k n s l lo hi m p c d e q;
            longer = omega arith;
            fits = room;
            covers = λ x. refl;
            holds = refl;
            whole = i.1;
            aligned = al;
          })
  ]

  pub join_next-Joined :
      let (n', m') = join_next k n m (lower_bound k m) in Joined k n lo hi n' m m'
  unfolding join_next
  join_next-Joined = elim (Option-cases (lower_bound k m)) [
    | inl e ↦ rw e (record {
      coalesced = c;
      apart = right_none k n lo hi m c d e;
      longer = omega arith;
      fits = room;
      covers = λ x. refl;
      holds = refl;
      whole = i.1;
      aligned = al;
    })
    | inr ((s, l), e) ↦ rw e (join_next-some s l e)
  ]

-- The free map with [k, k + n) released into it.
pub record Merged (k n lo hi : ℕ) (m m' : List (ℕ × ℕ)) : Type 0 where
  pub coalesced : Coalesced lo hi m'
  pub covers : (x : ℕ) → cover x m' ≡ inside x (k, n) + cover x m
  pub holds : total m' ≡ n + total m
  pub aligned : All IsAligned m'

module _ (k n lo hi : ℕ) (m : List (ℕ × ℕ)) (p : 0 < n) (low : lo ≤ k) (room : k + n ≤ hi)
    (small : hi < u64_mod) (c : Coalesced lo hi m) (r : RightApart k n m) (al : All IsAligned m)
    (w : IsAligned (k, n)) where
  Apart-merge : Apart k n m → Merged k n lo hi m (emplace k n m)
  Apart-merge a = record {
    coalesced = Coalesced-emplace k n lo hi m low p room a c;
    covers = λ x. cover-emplace x k n m (Apart-find k n m a);
    holds = total-emplace k n m (Apart-find k n m a);
    aligned = All-emplace IsAligned k n m al w;
  }

  join_merge :
      (s l : ℕ)
      → before_lower k m ≡ some (s, l)
      → s + l ≡ k
      → Merged k n lo hi m (emplace s (l + n) (erase s m))
  join_merge s l e q =
      let b = find-before_lower k s l lo hi m c e in
      let i = Coalesced-find s l lo hi m c b.0 in
      let a = left_join k n s l lo hi m c r e q in
      record {
        coalesced =
            Coalesced-emplace s (l + n) lo hi (erase s m) b.2 (omega arith) (omega arith) a
              (Coalesced-erase s lo hi m c);
        covers = λ x. ground (
          arith,
          cover-emplace x s (l + n) (erase s m) (Apart-find s (l + n) (erase s m) a),
          cover-erase x s l m b.0,
        );
        holds = omega (
          arith,
          total-emplace s (l + n) (erase s m) (Apart-find s (l + n) (erase s m) a),
          total-erase s l m b.0,
        );
        aligned =
            All-emplace IsAligned s (l + n) (erase s m) (All-erase IsAligned s m al)
              (omega (arith, All-find IsAligned s l m al b.0));
      }

  join_prev-some :
      (s l : ℕ)
      → before_lower k m ≡ some (s, l)
      → Merged k n lo hi m (join_prev k n m (some (s, l)))
  unfolding join_prev
  join_prev-some s l e =
      let b = find-before_lower k s l lo hi m c e in
      let i = Coalesced-find s l lo hi m c b.0 in
      let nw : add64 s l ≡ s + l = omega arith in
      elim (eq_or_ne (s + l) k) [
        | inl q ↦
            let v : add64 n l ≡ l + n = omega arith in
            rw (nw, eq→== (s + l) k q, v) (join_merge s l e q)
        | inr q ↦ rw (nw, ne→== (s + l) k q) (Apart-merge (left_gap k n s l lo hi m c r e q))
      ]

  pub join_prev-Merged : Merged k n lo hi m (join_prev k n m (before_lower k m))
  unfolding join_prev
  join_prev-Merged = elim (Option-cases (before_lower k m)) [
    | inl e ↦ rw e (Apart-merge (left_none k n k n lo hi m refl c r e))
    | inr ((s, l), e) ↦ rw e (join_prev-some s l e)
  ]
