-- ===== src/OrderedMap/Entries.antt =====
-- The entries of a std::map after each operation.
use softgpu.Base.{
  ℕ, suc, ◌≤◌, ◌<◌, ◌≡◌, refl, List, [], ◌∷◌, none, some, ◌==◌, if◌then◌else◌, arith, All,
}
use softgpu.OrderedMap.{find, emplace, erase, Ascending}

module _ {ℓ} {V : Type ℓ} where
  pub find-emplace :
      (k j : ℕ) (v : V) (m : List (ℕ × V))
      → find k m ≡ none
      → find j (emplace k v m) ≡ (if k == j then some v else find j m)
  unfolding find emplace
  find-emplace k j v [] e = refl
  find-emplace k j v ((i, w) ∷ m) e = ground (arith, find-emplace k j v m)

  pub Ascending-mono : (lo lo' : ℕ) (m : List (ℕ × V)) → lo' ≤ lo → Ascending lo m → Ascending lo' m
  Ascending-mono lo lo' [] h a = tt
  Ascending-mono lo lo' (e ∷ m) h a = (omega arith, a.1)

  pub find_below : (j lo : ℕ) (m : List (ℕ × V)) → Ascending lo m → j < lo → find j m ≡ none
  unfolding find
  find_below j lo [] h l = refl
  find_below j lo ((i, w) ∷ m) h l = ground (arith, find_below j (suc i) m h.1)

  pub find-erase :
      (k j lo : ℕ) (m : List (ℕ × V))
      → Ascending lo m
      → find j (erase k m) ≡ (if k == j then none else find j m)
  unfolding find erase
  find-erase k j lo [] h = ground arith
  find-erase k j lo ((i, w) ∷ m) h =
      ground (arith, find-erase k j (suc i) m h.1, find_below j (suc i) m h.1)

  pub All-emplace {κ} :
      (P : ℕ × V → Type κ) (k : ℕ) (v : V) (m : List (ℕ × V))
      → All P m
      → P (k, v)
      → All P (emplace k v m)
  unfolding emplace
  All-emplace P k v [] h p = (p, tt)
  All-emplace P k v ((j, w) ∷ m) h p = ground (arith, All-emplace P k v m h.1 p)

  pub All-erase {κ} : (P : ℕ × V → Type κ) (k : ℕ) (m : List (ℕ × V)) → All P m → All P (erase k m)
  unfolding erase
  All-erase P k [] h = tt
  All-erase P k ((j, w) ∷ m) h = ground (arith, All-erase P k m h.1)

  pub All-find {κ} :
      (P : ℕ × V → Type κ) (k : ℕ) (v : V) (m : List (ℕ × V))
      → All P m
      → find k m ≡ some v
      → P (k, v)
  unfolding find
  All-find P k v [] h e = cc
  All-find P k v ((j, w) ∷ m) h e = ground (arith, All-find P k v m h.1)

  pub erase-emplace :
      (k : ℕ) (v : V) (m : List (ℕ × V)) → find k m ≡ none → erase k (emplace k v m) ≡ m
  unfolding find emplace erase
  erase-emplace k v [] e = ground arith
  erase-emplace k v ((j, w) ∷ m) e = ground (arith, erase-emplace k v m)

  pub emplace-erase :
      (k lo : ℕ) (v : V) (m : List (ℕ × V))
      → Ascending lo m
      → find k m ≡ some v
      → emplace k v (erase k m) ≡ m
  unfolding find emplace erase
  emplace-erase k lo v [] h e = cc
  emplace-erase k lo v ((j, w) ∷ []) h e = ground arith
  emplace-erase k lo v ((j, w) ∷ (i, u) ∷ m) h e =
      ground (arith, emplace-erase k (suc j) v ((i, u) ∷ m) h.1, find_below k (suc i) m h.1.1)

  pub Ascending-emplace :
      (k lo : ℕ) (v : V) (m : List (ℕ × V)) → lo ≤ k → Ascending lo m → Ascending lo (emplace k v m)
  unfolding emplace
  Ascending-emplace k lo v [] l h = (l, tt)
  Ascending-emplace k lo v ((j, w) ∷ m) l h = ground (arith, Ascending-emplace k (suc j) v m)

  pub Ascending-erase : (k lo : ℕ) (m : List (ℕ × V)) → Ascending lo m → Ascending lo (erase k m)
  unfolding erase
  Ascending-erase k lo [] h = tt
  Ascending-erase k lo ((j, w) ∷ m) h =
      ground (arith, Ascending-erase k (suc j) m h.1, Ascending-mono (suc j) lo m)

  -- A map is determined by what it finds.
  pub Ascending-unique :
      (lo : ℕ) (m m' : List (ℕ × V))
      → Ascending lo m
      → Ascending lo m'
      → ((j : ℕ) → find j m ≡ find j m')
      → m ≡ m'
  unfolding find
  Ascending-unique lo [] [] a b h = refl
  Ascending-unique lo [] ((k', v') ∷ m') a b h = ground (arith, h k')
  Ascending-unique lo ((k, v) ∷ m) [] a b h = ground (arith, h k)
  Ascending-unique lo ((k, v) ∷ m) ((k', v') ∷ m') a b h =
      let e : k ≡ k' =
        ground (arith, h k, h k', find_below k (suc k') m' b.1, find_below k' (suc k) m a.1) in
      let f : v ≡ v' = ground (arith, h k) in
      cc (
        e,
        f,
        Ascending-unique (suc k) m m' a.1 (rw e b.1)
            (λ j. ground (arith, h j, find_below j (suc k) m a.1, find_below j (suc k') m' b.1)),
      )
