-- ===== src/Mmu/Translation.antt =====
-- Translation against the page table alone: what an engine gets does not depend on its TLB.
use softgpu.Base.{
  ℕ, ◌+◌, ◌<◌, ◌≡◌, refl, inl, inr, List, [], ◌∷◌, Option, none, some, Bool, true, not, leb,
  if◌then◌else◌, arith, has, All, update, add64, u64_mod, eq_or_ne, eq→==, ne→==, subst, lt→leb,
}
use softgpu.Mmu.{
  Mmu, TlbEntry, Translate, translated, not_present, host_resident, present, in_vram, vpn_of,
  pte_pa, is_resident, max_engines,
}
use softgpu.Mmu.Flags.{with_dirty, touch-SamePage}
use softgpu.Mmu.Access.{translate, through, hit, miss, walk, probe, touched}
use softgpu.Mmu.Coherence.{Matches, IsFresh, IsCoherent}

-- What a page-table word says.
abbrev pub answer : ℕ → Translate
answer word =
    if not (has present word)
    then record { status = not_present; pa = 0 }
    else if not (has in_vram word)
    then record { status = host_resident; pa = 0 }
    else record { status = translated; pa = pte_pa word }

-- What the page table says of an address.
unfoldable pub lookup : (ℕ → ℕ) → ℕ → ℕ → Translate
lookup pte npages va =
    if leb npages (vpn_of va)
    then record { status = not_present; pa = 0 }
    else answer (pte (vpn_of va))

pub lookup_in_range :
    (pte : ℕ → ℕ) (npages va : ℕ)
    → vpn_of va < npages
    → lookup pte npages va ≡ answer (pte (vpn_of va))
unfolding lookup
lookup_in_range pte npages va h = rw (lt→leb npages (vpn_of va) h)

pub answer_resident :
    (word : ℕ)
    → is_resident word ≡ true
    → answer word ≡ record { status = translated; pa = pte_pa word }
answer_resident word r = ground arith

pub lookup_zero :
    (pte : ℕ → ℕ) (npages va : ℕ)
    → pte (vpn_of va) ≡ 0
    → lookup pte npages va ≡ record { status = not_present; pa = 0 }
unfolding lookup
lookup_zero pte npages va h = ground arith

pub lookup_translated :
    (pte : ℕ → ℕ) (npages va : ℕ)
    → (lookup pte npages va).status ≡ translated
    → (vpn_of va < npages) × (is_resident (pte (vpn_of va)) ≡ true)
unfolding lookup
lookup_translated pte npages va e = (ground arith, ground arith)

pub probe-All {κ} :
    (P : TlbEntry → Type κ) (vpn i j : ℕ) (es : List TlbEntry) (e : TlbEntry)
    → All P es
    → probe vpn es i ≡ some (j, e)
    → P e × (e.vpn ≡ vpn)
unfolding probe
probe-All P vpn i j [] e h q = cc
probe-All P vpn i j (x ∷ es) e h q = elim (eq_or_ne x.vpn vpn) [
  | inl r ↦
      let t : ◌≡◌ {A = Option (ℕ × TlbEntry)} (some (i, x)) (some (j, e)) =
        rw (eq→== x.vpn vpn r) at q in
      let z : x ≡ e = cc in (subst P z h.0, rw (← z) r)
  | inr r ↦ probe-All P vpn (i + 1) j es e h.1 (rw (ne→== x.vpn vpn r) at q)
]

-- The walk reads the page table and keeps the frame of what it touches.
walk-lookup :
    (m : Mmu) (engine va : ℕ) (write : Bool) → (walk m engine va write).0 ≡ lookup m.pte m.npages va
unfolding walk lookup
walk-lookup m engine va write =
    let s = touch-SamePage write (m.pte (vpn_of va)) in unfold touched in ground (arith, s)

hit-lookup :
    (m : Mmu) (engine va : ℕ) (write : Bool) (i : ℕ) (e : TlbEntry)
    → Matches m.pte m.npages e
    → e.vpn ≡ vpn_of va
    → (hit m engine va write i e).0 ≡ lookup m.pte m.npages va
unfolding hit lookup
hit-lookup m engine va write i e f q = let s = with_dirty e.pte in ground (arith, s)

-- The miss path starts with the counter.
miss-lookup :
    (m : Mmu) (engine va : ℕ) (write : Bool) → (miss m engine va write).0 ≡ lookup m.pte m.npages va
unfolding miss
miss-lookup m engine va write =
    walk-lookup
      (record m { tlb_misses = update m.tlb_misses engine (add64 (m.tlb_misses engine) 1) }) engine
      va write

-- An entry with a page's tag is in use, since no page has the empty tag.
pub used_entry :
    (m : Mmu) (e : TlbEntry) (va : ℕ)
    → va < u64_mod
    → IsFresh m.pte m.npages e
    → e.vpn ≡ vpn_of va
    → Matches m.pte m.npages e
used_entry m e va h (inl f) q = absurd (omega arith)
used_entry m e va h (inr f) q = f

module _ (m : Mmu) (engine va : ℕ) (write : Bool) (c : IsCoherent m) (known : engine < max_engines)
    (small : va < u64_mod) where
  through-lookup :
      (o : Option (ℕ × TlbEntry))
      → probe (vpn_of va) (m.tlb engine) 0 ≡ o
      → (through m engine va write o).0 ≡ lookup m.pte m.npages va
  unfolding through
  through-lookup none q = miss-lookup m engine va write
  through-lookup (some (i, e)) q =
      let r =
        probe-All (IsFresh m.pte m.npages) (vpn_of va) 0 i (m.tlb engine) e (c.entries engine known)
          q in
      let f = used_entry m e va small r.0 r.1 in
      rw f.cached_resident (hit-lookup m engine va write i e f r.1)

  -- With coherent TLBs an engine's translation is the page table's answer, hit or miss.
  pub translate-lookup : (translate m engine va write).0 ≡ lookup m.pte m.npages va
  unfolding translate
  translate-lookup = through-lookup _ refl
