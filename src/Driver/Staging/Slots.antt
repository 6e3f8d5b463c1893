-- ===== src/Driver/Staging/Slots.antt =====
-- A slot is handed to one copy at a time, and a free slot is always found.
use softgpu.Base.{
  ℕ, zero, suc, ◌+◌, ◌%◌, ◌<◌, ◌≤◌, ◌≡◌, ◌≢◌, refl, sym, ap, subst, ◌∙◌, ◌⊎◌, inl, inr, arith, none,
  some, some-injective, true, false, update_self, update_ne, Bool-cases, Option-cases, eq_or_ne,
  false≢true, List, [], ◌∷◌,
}
use softgpu.Rotation.{rotation_meets}
use softgpu.Driver.Staging.{Fence, Staging, free_slot, take_slot, acquire_slot, release_slot}
use native.Mathlib.Nat.{mod-lt}

-- The slot of round i.
turn : Staging → ℕ → ℕ
turn d i = (d.next_slot + i) % d.slots

free_slot-some :
    (d : Staging) (i n s : ℕ)
    → 0 < d.slots
    → free_slot d i n ≡ some s
    → (s < d.slots) × (d.busy s ≡ false)
unfolding free_slot
free_slot-some d i zero s h e = cc
free_slot-some d i (suc n) s h e = elim (Bool-cases (d.busy ((d.next_slot + i) % d.slots))) [
  | inl t ↦ free_slot-some d (i + 1) n s h (ground (arith, t, e))
  | inr f ↦
      let q : (d.next_slot + i) % d.slots ≡ s = some-injective _ _ (ground (arith, f, e)) in
      (subst (λ x. x < d.slots) q (mod-lt _ h), subst (λ x. d.busy x ≡ false) q f)
]

free_slot-none :
    (d : Staging) (i n : ℕ)
    → free_slot d i n ≡ none
    → (j : ℕ) → i ≤ j
    → j < i + n
    → d.busy (turn d j) ≡ true
unfolding free_slot turn
free_slot-none d i zero e j l h = ground (arith, l, h)
free_slot-none d i (suc n) e j l h = elim (Bool-cases (d.busy ((d.next_slot + i) % d.slots))) [
  | inr f ↦ ground (arith, f, e)
  | inl t ↦ elim (eq_or_ne j i) [
    | inl q ↦ subst (λ x. d.busy ((d.next_slot + x) % d.slots) ≡ true) (sym q) t
    | inr q ↦
        free_slot-none d (i + 1) n (ground (arith, t, e)) j (omega (arith, l, q)) (omega (arith, h))
  ]
]

-- A slot that no copy has is handed out, with the fence of its last copy, and only its own mark
-- changes.
pub record Acquired (d d' : Staging) (s : ℕ) (f : Fence) : Type 0 where
  pub in_pool : s < d.slots
  pub was_free : d.busy s ≡ false
  pub its_fence : f ≡ d.fence s
  pub now_busy : d'.busy s ≡ true
  pub others : (j : ℕ) → j ≢ s → d'.busy j ≡ d.busy j
  pub same_fences : d'.fence ≡ d.fence
  pub same_slots : d'.slots ≡ d.slots
  pub next_in_pool : d'.next_slot < d'.slots

-- `acquire_slot` hands out a slot that no copy has, with the fence of its last copy, and marks only
-- that slot; or every slot is busy and it changes nothing.
pub acquire_slot_lem :
    (d : Staging)
    → d.next_slot < d.slots
    → let (o, d') = acquire_slot d in
      ((s : ℕ) × (f : Fence) × (o ≡ some (s, f)) × Acquired d d' s f)
      ⊎ ((o ≡ none) × (d' ≡ d) × ((s : ℕ) → s < d.slots → d.busy s ≡ true))
unfolding acquire_slot take_slot
acquire_slot_lem d h = elim (Option-cases (free_slot d 0 d.slots)) [
  | inl e ↦ rw e (
      inr (
        refl,
        refl,
        λ s l.
            let (i, b, q) = rotation_meets d.next_slot d.slots s h l in
            subst (λ x. d.busy x ≡ true) q
              (unfold turn in free_slot-none d 0 d.slots e i (omega arith) (omega (arith, b))),
      ))
  | inr (s, e) ↦
      let k = free_slot-some d 0 d.slots s (omega (arith, h)) e in
      rw e (
        inl (
          s,
          d.fence s,
          refl,
          record {
            in_pool = k.0;
            was_free = k.1;
            its_fence = refl;
            now_busy = update_self d.busy s true;
            others = λ j n. update_ne d.busy s j true n;
            same_fences = refl;
            same_slots = refl;
            next_in_pool = mod-lt (s + 1) (omega (arith, h));
          },
        ))
]

-- The slot that is handed out was free, and comes with its fence.
handed_out :
    (d : Staging) (s : ℕ) (g : Fence)
    → d.next_slot < d.slots
    → (acquire_slot d).0 ≡ some (s, g)
    → (d.busy s ≡ false) × (g ≡ d.fence s)
handed_out d s g h e = elim (acquire_slot_lem d h) [
  | inl (s', f', q, a) ↦
      let same = some-injective (s', f') (s, g) (sym q ∙ e) in
      let slot : s' ≡ s = ap (λ x. x.0) same in
      let fence : f' ≡ g = ap (λ x. x.1) same in
      (subst (λ x. d.busy x ≡ false) slot a.was_free, sym fence ∙ a.its_fence ∙ ap d.fence slot)
  | inr (q, _, _) ↦ cc
]

-- What other copies do meanwhile.
pub data Call : Type 0 where
  acquires : Call
  releases : ℕ → Fence → Call

unfoldable pub run_calls : Staging → List Call → Staging
run_calls d [] = d
run_calls d (acquires ∷ l) = run_calls (acquire_slot d).1 l
run_calls d (releases j f ∷ l) = run_calls (release_slot d j f) l

-- None of the calls releases slot s.
unfoldable pub Elsewhere : ℕ → List Call → Type 0
Elsewhere s [] = Unit
Elsewhere s (acquires ∷ l) = Elsewhere s l
Elsewhere s (releases j f ∷ l) = (j ≢ s) × Elsewhere s l

-- One more `acquire_slot`: the hand stays in the pool, marks and fences stay, except the mark it sets.
acquired_after :
    (d : Staging)
    → d.next_slot < d.slots
    → let d' = (acquire_slot d).1 in
      (d'.next_slot < d'.slots)
      × (d'.fence ≡ d.fence)
      × ((s : ℕ) → d.busy s ≡ true → d'.busy s ≡ true)
acquired_after d h = elim (acquire_slot_lem d h) [
  | inl (s', f', q, a) ↦ (
    a.next_in_pool,
    a.same_fences,
    λ s b. elim (eq_or_ne s s') [
      | inl e ↦ subst (λ x. (acquire_slot d).1.busy x ≡ true) (sym e) a.now_busy
      | inr e ↦ a.others s e ∙ b
    ],
  )
  | inr (q, same, _) ↦ rw same (h, refl, λ s b. b)
]

-- Calls that do not release slot s leave it with its copy, and its fence as it is.
run_calls-Elsewhere :
    (d : Staging) (s : ℕ) (l : List Call)
    → d.next_slot < d.slots
    → Elsewhere s l
    → let d' = run_calls d l in
      (d'.next_slot < d'.slots) × (d'.fence s ≡ d.fence s) × (d.busy s ≡ true → d'.busy s ≡ true)
unfolding run_calls Elsewhere release_slot
run_calls-Elsewhere d s [] h k = (h, refl, λ b. b)
run_calls-Elsewhere d s (acquires ∷ l) h k =
    let (n, f, b) = acquired_after d h in
    let (n', f', b') = run_calls-Elsewhere (acquire_slot d).1 s l n k in
    (n', f' ∙ ap (λ x. x s) f, λ x. b' (b s x))
run_calls-Elsewhere d s (releases j f ∷ l) h k =
    let (n', f', b') = run_calls-Elsewhere (release_slot d j f) s l h k.1 in
    let away : s ≢ j = λ e. k.0 (sym e) in
    (n', f' ∙ update_ne d.fence j s f away, λ x. b' (update_ne d.busy j s false away ∙ x))

-- The slot that is handed out is marked.
now_taken :
    (d : Staging) (s : ℕ) (g : Fence)
    → d.next_slot < d.slots
    → (acquire_slot d).0 ≡ some (s, g)
    → (acquire_slot d).1.busy s ≡ true
now_taken d s g h e = elim (acquire_slot_lem d h) [
  | inl (s', f', q, a) ↦
      subst (λ x. (acquire_slot d).1.busy x ≡ true)
        (ap (λ x. x.0) (some-injective (s', f') (s, g) (sym q ∙ e))) a.now_busy
  | inr (q, _, _) ↦ cc
]

-- Once acquire_slot has handed out a slot, and after any acquire_slot and release_slot calls none of
-- which releases that slot, acquire_slot does not hand it out. Once it is then released with a fence, and
-- after any further calls none of which releases it again, a copy that gets it waits for that fence.
pub acquire_slot-release_slot :
    (d : Staging) (s : ℕ) (g f : Fence) (l m : List Call)
    → d.next_slot < d.slots
    → (acquire_slot d).0 ≡ some (s, g)
    → Elsewhere s l
    → Elsewhere s m
    → let d1 = run_calls (acquire_slot d).1 l in
      let d2 = run_calls (release_slot d1 s f) m in
      ((x : Fence) → (acquire_slot d1).0 ≢ some (s, x))
      × ((x : Fence) → (acquire_slot d2).0 ≡ some (s, x) → x ≡ f)
unfolding release_slot
acquire_slot-release_slot d s g f l m h e k k' =
    let (n1, _, busy) = run_calls-Elsewhere (acquire_slot d).1 s l (acquired_after d h).0 k in
    let d1 = run_calls (acquire_slot d).1 l in
    let (n2, same, _) = run_calls-Elsewhere (release_slot d1 s f) s m n1 k' in
    let d2 = run_calls (release_slot d1 s f) m in
    (
      λ x q. false≢true (sym (handed_out d1 s x n1 q).0 ∙ busy (now_taken d s g h e)),
      λ x q. (handed_out d2 s x n2 q).1 ∙ same ∙ update_self d1.fence s f,
    )
