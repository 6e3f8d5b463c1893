-- ===== src/Device/Execute/Copies.antt =====
-- What the runs of a range write to VRAM or read from it, byte by byte.
use softgpu.Base.{
  ℕ, ◌+◌, ◌-◌, ◌<◌, ◌≤◌, ◌≡◌, ◌≢◌, ◌⊎◌, refl, ◌∙◌, sym, ap, subst, true, false, ◌&&◌, ltb, leb,
  arith, lt_or_ge, inl, inr,
}
use softgpu.Mmu.{Mmu, translated}
use softgpu.Device.Runs.Places.{place, status_at}
use softgpu.Device.Runs.Applied.{Run}
use softgpu.Device.Execute.{copy_bytes}

pub copy_bytes_in :
    (mem : ℕ → ℕ) (p : ℕ) (from : ℕ → ℕ) (n j : ℕ)
    → j < n
    → copy_bytes mem p from n (p + j) ≡ from j
unfolding copy_bytes
copy_bytes_in mem p from n j h =
    let e : p + j - p ≡ j = omega arith in
    let q : (leb p (p + j) && ltb (p + j) (p + n)) ≡ true = ground arith in rw q (ap from e)

pub copy_bytes_out :
    (mem : ℕ → ℕ) (p : ℕ) (from : ℕ → ℕ) (n a : ℕ)
    → (a < p) ⊎ (p + n ≤ a)
    → copy_bytes mem p from n a ≡ mem a
unfolding copy_bytes
copy_bytes_out mem p from n a h =
    let q : (leb p a && ltb a (p + n)) ≡ false = ground arith in rw q refl

in_or_out : (p n a : ℕ) → ((j : ℕ) × (j < n) × (p + j ≡ a)) ⊎ ((a < p) ⊎ (p + n ≤ a))
in_or_out p n a = elim (lt_or_ge a p) [
  | inl l ↦ inr (inl l)
  | inr l ↦ elim (lt_or_ge a (p + n)) [
    | inl u ↦ inl (a - p, omega arith, omega arith)
    | inr u ↦ inr (inr u)
  ]
]

-- Bytes `from` to at - 1 of a range have been written, byte k with g k, and no byte elsewhere.
pub record Written (m : Mmu) (va : ℕ) (g old new : ℕ → ℕ) (from at : ℕ) : Type 0 where
  pub resident : (k : ℕ) → from ≤ k → k < at → status_at m (va + k) ≡ translated
  pub bytes : (k : ℕ) → from ≤ k → k < at → new (place m (va + k)) ≡ g k
  pub others : (a : ℕ) → ((k : ℕ) → from ≤ k → k < at → place m (va + k) ≢ a) → new a ≡ old a

pub Written-refl : (m : Mmu) (va : ℕ) (g mem : ℕ → ℕ) (at : ℕ) → Written m va g mem mem at at
Written-refl m va g mem at = record {
  resident = λ k l h. absurd (omega arith);
  bytes = λ k l h. absurd (omega arith);
  others = λ a h. refl;
}

-- Bytes of the range at one place are written alike: so they are when no two pages share a frame.
abbrev pub Agrees : Mmu → ℕ → ℕ → (ℕ → ℕ) → Type 0
Agrees m va len g =
    (i j : ℕ)
    → i < len
    → j < len
    → status_at m (va + i) ≡ translated
    → status_at m (va + j) ≡ translated
    → place m (va + i) ≡ place m (va + j)
    → g i ≡ g j

module _ (m : Mmu) (vram_size va len : ℕ) (g old : ℕ → ℕ) (from : ℕ)
    (agrees : Agrees m va len g) where
  module _ (p off n : ℕ) (mem : ℕ → ℕ) (u : Run m vram_size va len p off n)
      (w : Written m va g old mem from off) (after : from ≤ off) where
    placed_at :
        (k : ℕ)
        → off ≤ k
        → k < off + n
        → (status_at m (va + k) ≡ translated) × (place m (va + k) ≡ p + (k - off))
    placed_at k l h =
        let e : off + (k - off) ≡ k = omega arith in
        subst (λ x. (status_at m (va + x) ≡ translated) × (place m (va + x) ≡ p + (k - off))) e
          (u.placed (k - off) (omega arith))

    resident_at : (k : ℕ) → from ≤ k → k < off + n → status_at m (va + k) ≡ translated
    resident_at k g' h = elim (lt_or_ge k off) [
      | inl l ↦ w.resident k g' l
      | inr l ↦ (placed_at k l h).0
    ]

    pub write_run : Written m va g old (copy_bytes mem p (λ j. g (off + j)) n) from (off + n)
    write_run = record {
      resident = resident_at;
      bytes = λ k g' h. elim (in_or_out p n (place m (va + k))) [
        | inl (j, l, e) ↦
            subst (λ a. copy_bytes mem p (λ i. g (off + i)) n a ≡ g k) e
              (copy_bytes_in mem p (λ i. g (off + i)) n j l
                ∙ agrees (off + j) k (omega (arith, u.within)) (omega (arith, u.within))
                    (u.placed j l).0 (resident_at k g' h) ((u.placed j l).1 ∙ e))
        | inr o ↦ elim (lt_or_ge k off) [
          | inl l ↦ copy_bytes_out mem p _ n (place m (va + k)) o ∙ w.bytes k g' l
          | inr l ↦ let q = (placed_at k l h).1 in absurd (omega (arith, q, o))
        ]
      ];
      others = λ a h. elim (in_or_out p n a) [
        | inl (j, l, e) ↦ absurd (h (off + j) (omega arith) (omega arith) ((u.placed j l).1 ∙ e))
        | inr o ↦ copy_bytes_out mem p _ n a o ∙ w.others a (λ k g' l. h k g' (omega arith))
      ];
    }

-- Bytes `from` to at - 1 of a range have been read, to `to` on in another memory.
pub record Fetched (m : Mmu) (va to : ℕ) (vram old new : ℕ → ℕ) (from at : ℕ) : Type 0 where
  pub resident : (k : ℕ) → from ≤ k → k < at → status_at m (va + k) ≡ translated
  pub bytes : (k : ℕ) → from ≤ k → k < at → new (to + k) ≡ vram (place m (va + k))
  pub others : (a : ℕ) → (a < to + from) ⊎ (to + at ≤ a) → new a ≡ old a

pub Fetched-refl :
    (m : Mmu) (va to : ℕ) (vram mem : ℕ → ℕ) (at : ℕ) → Fetched m va to vram mem mem at at
Fetched-refl m va to vram mem at = record {
  resident = λ k l h. absurd (omega arith);
  bytes = λ k l h. absurd (omega arith);
  others = λ a h. refl;
}

module _ (m : Mmu) (vram_size va len to : ℕ) (vram old : ℕ → ℕ) (from p off n : ℕ) (mem : ℕ → ℕ)
    (u : Run m vram_size va len p off n) (w : Fetched m va to vram old mem from off)
    (after : from ≤ off) where
  abbrev pub read_mem : ℕ → ℕ
  read_mem = copy_bytes mem (to + off) (λ j. vram (p + j)) n

  fetched_at :
      (k : ℕ)
      → from ≤ k
      → k < off + n
      → (status_at m (va + k) ≡ translated) × (read_mem (to + k) ≡ vram (place m (va + k)))
  fetched_at k g' h = elim (lt_or_ge k off) [
    | inl l ↦ (
      w.resident k g' l,
      copy_bytes_out mem (to + off) _ n (to + k) (inl (omega arith)) ∙ w.bytes k g' l,
    )
    | inr l ↦
        let e : off + (k - off) ≡ k = omega arith in
        let z : to + off + (k - off) ≡ to + k = omega arith in
        let x = u.placed (k - off) (omega arith) in
        (
          subst (λ i. status_at m (va + i) ≡ translated) e x.0,
          subst (λ a. read_mem a ≡ vram (place m (va + k))) z
              (copy_bytes_in mem (to + off) (λ j. vram (p + j)) n (k - off) (omega arith)
                ∙ ap vram (sym x.1 ∙ ap (λ i. place m (va + i)) e)),
        )
  ]

  pub read_run : Fetched m va to vram old read_mem from (off + n)
  read_run = record {
    resident = λ k l h. (fetched_at k l h).0;
    bytes = λ k l h. (fetched_at k l h).1;
    others = λ a h.
        copy_bytes_out mem (to + off) _ n a (omega (arith, h, after))
        ∙ w.others a (omega (arith, h));
  }
