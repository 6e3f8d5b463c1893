-- ===== src/Driver/Managed/Clock.antt =====
-- CLOCK picks the first page, from the hand on, that was not referenced since the hand last passed.
use softgpu.Base.{
  ℕ, ◌≡◌, ◌≢◌, refl, sym, ap, ◌∙◌, inl, inr, List, [], ◌∷◌, ◌++◌, length, All, Bool, leb,
  if◌then◌else◌, has, without, update_ne, update_self, Bool-cases, false, eq_or_ne,
}
use softgpu.Mmu.{Mmu, vpn_of, accessed, store_pte}
use softgpu.Mmu.Flags.{has-accessed-without-accessed}
use softgpu.Mmu.Residency.{test_and_clear_accessed}
use softgpu.Driver.Managed.{Memory, give_chances, Host, evict_one_locked, evict_front}

append_nil : {A : Type 0} (xs : List A) → xs ++ [] ≡ xs
append_nil [] = refl
append_nil (x ∷ xs) = ap (λ l. x ∷ l) (append_nil xs)

append_assoc : {A : Type 0} (xs ys zs : List A) → (xs ++ ys) ++ zs ≡ xs ++ (ys ++ zs)
append_assoc [] ys zs = refl
append_assoc (x ∷ xs) ys zs = ap (λ l. x ∷ l) (append_assoc xs ys zs)

-- Was the page referenced, as the page table tells it?
abbrev pub referenced : Mmu → ℕ → Bool
referenced m va = (test_and_clear_accessed m va).0

-- The list from its first page that was not referenced on, then those before it; all of it when
-- each was.
unfoldable pub turned : Mmu → List ℕ → List ℕ → List ℕ
turned m passed [] = passed
turned m passed (va ∷ l) =
    if referenced m va then turned m (passed ++ va ∷ []) l else (va ∷ l) ++ passed

-- The pages of a list are different from page va's.
abbrev pub Differ : ℕ → List ℕ → Type 0
Differ va l = All (λ x. vpn_of x ≢ vpn_of va) l

unfoldable pub Distinct : List ℕ → Type 0
Distinct [] = Unit
Distinct (va ∷ l) = Differ va l × Distinct l

-- Clearing one page's bit leaves the others'.
referenced-store_pte :
    (m : Mmu) (vpn w x : ℕ) → vpn_of x ≢ vpn → referenced (store_pte m vpn w) x ≡ referenced m x
unfolding test_and_clear_accessed store_pte
referenced-store_pte m vpn w x n = elim (Bool-cases (leb m.npages (vpn_of x))) [
  | inl k ↦ rw (referenced, k) refl
  | inr k ↦ rw (referenced, k) (ap (λ y. has accessed y) (update_ne m.pte vpn (vpn_of x) w n))
]

referenced_other :
    (m : Mmu) (va x : ℕ)
    → vpn_of x ≢ vpn_of va
    → referenced (test_and_clear_accessed m va).1 x ≡ referenced m x
unfolding test_and_clear_accessed
referenced_other m va x n = elim (Bool-cases (leb m.npages (vpn_of va))) [
  | inl q ↦ rw q refl
  | inr q ↦ rw q (referenced-store_pte m (vpn_of va) (without accessed (m.pte (vpn_of va))) x n)
]

-- The choice among pages that are all different from a page is the same after its bit was cleared.
turned_other :
    (m : Mmu) (va : ℕ) (passed l : List ℕ)
    → Differ va l
    → turned (test_and_clear_accessed m va).1 passed l ≡ turned m passed l
unfolding turned
turned_other m va passed [] h = refl
turned_other m va passed (x ∷ l) h =
    let same = referenced_other m va x h.0 in
    elim (Bool-cases (referenced m x)) [
      | inl q ↦ rw (same, q) (turned_other m va (passed ++ x ∷ []) l h.1)
      | inr q ↦ rw (same, q) refl
    ]

-- The pages that the hand asks: up to its first page that was not referenced, or all.
unfoldable pub asked : Mmu → List ℕ → List ℕ
asked m [] = []
asked m (va ∷ l) = if referenced m va then va ∷ asked m l else va ∷ []

-- ACCESSED of these pages is cleared, one after the other.
unfoldable pub cleared : Mmu → List ℕ → Mmu
cleared m [] = m
cleared m (va ∷ l) = cleared (test_and_clear_accessed m va).1 l

asked_other :
    (m : Mmu) (va : ℕ) (l : List ℕ)
    → Differ va l
    → asked (test_and_clear_accessed m va).1 l ≡ asked m l
unfolding asked
asked_other m va [] h = refl
asked_other m va (x ∷ l) h =
    let same = referenced_other m va x h.0 in
    elim (Bool-cases (referenced m x)) [
      | inl q ↦ rw (same, q) (ap (λ k. x ∷ k) (asked_other m va l h.1))
      | inr q ↦ rw (same, q) refl
    ]

referenced_cleared : (m : Mmu) (va : ℕ) → referenced (test_and_clear_accessed m va).1 va ≡ false
unfolding test_and_clear_accessed store_pte
referenced_cleared m va = elim (Bool-cases (leb m.npages (vpn_of va))) [
  | inl q ↦ rw (referenced, q, q) refl
  | inr q ↦
      let w = without accessed (m.pte (vpn_of va)) in
      rw (referenced, q, q)
        (ap (λ y. has accessed y) (update_self m.pte (vpn_of va) w)
          ∙ has-accessed-without-accessed (m.pte (vpn_of va)))
]

referenced_same : (m : Mmu) (x y : ℕ) → vpn_of x ≡ vpn_of y → referenced m x ≡ referenced m y
unfolding test_and_clear_accessed
referenced_same m x y q = rw (referenced, q) refl

-- No bit is set by the loop.
clearing_stays :
    (m : Mmu) (va x : ℕ)
    → referenced m x ≡ false
    → referenced (test_and_clear_accessed m va).1 x ≡ false
clearing_stays m va x h = elim (eq_or_ne (vpn_of x) (vpn_of va)) [
  | inl q ↦ referenced_same (test_and_clear_accessed m va).1 x va q ∙ referenced_cleared m va
  | inr q ↦ referenced_other m va x q ∙ h
]

cleared_stays :
    (m : Mmu) (l : List ℕ) (x : ℕ) → referenced m x ≡ false → referenced (cleared m l) x ≡ false
unfolding cleared
cleared_stays m [] x h = h
cleared_stays m (va ∷ l) x h =
    cleared_stays (test_and_clear_accessed m va).1 l x (clearing_stays m va x h)

cleared_each : (m : Mmu) (l : List ℕ) → All (λ x. referenced (cleared m l) x ≡ false) l
unfolding cleared
cleared_each m [] = tt
cleared_each m (va ∷ l) =
    let m' = (test_and_clear_accessed m va).1 in
    (cleared_stays m' l va (referenced_cleared m va), cleared_each m' l)

cleared_other :
    (m : Mmu) (l : List ℕ) (x : ℕ) → Differ x l → referenced (cleared m l) x ≡ referenced m x
unfolding cleared
cleared_other m [] x h = refl
cleared_other m (va ∷ l) x h =
    cleared_other (test_and_clear_accessed m va).1 l x h.1
    ∙ referenced_other m va x (λ e. h.0 (sym e))

-- The state that the loop leaves, with the pages still to ask before those that it has passed.
unfoldable pub after_chances : {H : Type 0} → Memory H → List ℕ → List ℕ → Memory H
after_chances d passed l = record d {
  mmu = cleared d.mmu (asked d.mmu l);
  resident = turned d.mmu passed l;
}

give_chances_lem :
    {H : Type 0} (d : Memory H) (l passed : List ℕ)
    → Distinct l
    → give_chances (length l) d (l ++ passed) ≡ after_chances d passed l
unfolding give_chances turned Distinct after_chances asked cleared
give_chances_lem d [] passed h = refl
give_chances_lem d (va ∷ l) passed h = elim (Bool-cases (referenced d.mmu va)) [
  | inr q ↦ rw q refl
  | inl q ↦
      let m = (test_and_clear_accessed d.mmu va).1 in
      let next = give_chances_lem (record d { mmu = m }) l (passed ++ va ∷ []) h.1 in
      let pages = asked_other d.mmu va l h.0 in
      let order = turned_other d.mmu va (passed ++ va ∷ []) l h.0 in
      rw (q, append_assoc l passed (va ∷ []))
        (next
          ∙ ap (λ x. record d { mmu = cleared m x; resident = turned m (passed ++ va ∷ []) l })
              pages
          ∙ ap (λ x. record d { mmu = cleared m (asked d.mmu l); resident = x }) order)
]

-- CLOCK: when the resident pages are all different, evict_one_locked asks them in order up to its first
-- page whose ACCESSED bit is not set, or all. Of each page it asks the bit is clear afterwards, and that of
-- every other page is as it was, so a page that is passed goes at the next turn unless it is referenced
-- again. The list is turned to the page it found, or left as it is when every bit was set, nothing else
-- has changed, and the page that is then in front is evicted.
pub evict_one_locked_lem :
    {H : Type 0} (os : Host H) (d : Memory H)
    → Distinct d.resident
    → let m = cleared d.mmu (asked d.mmu d.resident) in
      let turn = turned d.mmu [] d.resident in
      (evict_one_locked os d ≡ evict_front os (record d { mmu = m; resident = turn }) turn)
      × All (λ x. referenced m x ≡ false) (asked d.mmu d.resident)
      × ((x : ℕ) → Differ x (asked d.mmu d.resident) → referenced m x ≡ referenced d.mmu x)
unfolding evict_one_locked after_chances
evict_one_locked_lem os d h =
    let whole = append_nil d.resident in
    let done =
      ap (λ x. give_chances (length d.resident) d x) (sym whole)
      ∙ give_chances_lem d d.resident [] h in
    (
      ap (λ x. evict_front os x x.resident) done,
      cleared_each d.mmu (asked d.mmu d.resident),
      λ x n. cleared_other d.mmu (asked d.mmu d.resident) x n,
    )
