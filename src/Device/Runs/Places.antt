-- ===== src/Device/Runs/Places.antt =====
-- Where the page table puts a virtual address, and what translations leave of the table.
use softgpu.Base.{ℕ, ◌+◌, ◌<◌, ◌≡◌, refl, ◌∙◌, ap, Bool, true, arith, has, add64, u64_mod}
use softgpu.Mmu.{
  Mmu, TranslateStatus, translated, dirty, vpn_of, is_resident, page_offset, max_engines,
}
use softgpu.Mmu.Access.{translate}
use softgpu.Mmu.Flags.{SamePage, SamePage-trans}
use softgpu.Mmu.Coherence.{IsCoherent, SameTable}
use softgpu.Mmu.Translation.{lookup, answer, translate-lookup, lookup_translated}
use softgpu.Mmu.Fill.{SameTable-refl}
use softgpu.Mmu.Effects.{translate-Effect}

-- The offset in VRAM of a virtual address whose page is there.
unfoldable pub place : Mmu → ℕ → ℕ
place m va = add64 (lookup m.pte m.npages va).pa (page_offset va)

pub status_at : Mmu → ℕ → TranslateStatus
status_at m va = (lookup m.pte m.npages va).status

-- What a command's translations leave: the same mapping up to flags, DIRTY kept, and coherent TLBs.
pub record Kept (m m' : Mmu) : Type 0 where
  pub coherent : IsCoherent m'
  pub same : SameTable m.pte m'.pte
  pub same_npages : m'.npages ≡ m.npages

pub answer-SamePage : (x y : ℕ) → SamePage x y → answer y ≡ answer x
answer-SamePage x y s = ground arith

pub lookup-Kept :
    (m m' : Mmu) (va : ℕ) → Kept m m' → lookup m'.pte m'.npages va ≡ lookup m.pte m.npages va
unfolding lookup
lookup-Kept m m' va k =
    rw k.same_npages (
      rw (answer-SamePage (m.pte (vpn_of va)) (m'.pte (vpn_of va)) (k.same.pages (vpn_of va))) refl)

pub SameTable-trans : (x y z : ℕ → ℕ) → SameTable x y → SameTable y z → SameTable x z
SameTable-trans x y z s t = record {
  pages = λ v. SamePage-trans (x v) (y v) (z v) (s.pages v) (t.pages v);
  keeps_dirty = λ v r d. t.keeps_dirty v (still v r) (s.keeps_dirty v r d);
}
  where
    still : (v : ℕ) → is_resident (x v) ≡ true → is_resident (y v) ≡ true
    still v r = rw ((s.pages v).same_present, (s.pages v).same_in_vram) r

pub Kept-refl : (m : Mmu) → IsCoherent m → Kept m m
Kept-refl m c = record { coherent = c; same = SameTable-refl m.pte; same_npages = refl }

pub Kept-trans : (x y z : Mmu) → Kept x y → Kept y z → Kept x z
Kept-trans x y z k l = record {
  coherent = l.coherent;
  same = SameTable-trans x.pte y.pte z.pte k.same l.same;
  same_npages = l.same_npages ∙ k.same_npages;
}

pub translate-Kept :
    (m : Mmu) (engine va : ℕ) (write : Bool)
    → IsCoherent m
    → engine < max_engines
    → va < u64_mod
    → Kept m (translate m engine va write).1
translate-Kept m engine va write c l h =
    let e = translate-Effect m engine va write c l h in
    record { coherent = e.coherent; same = e.same; same_npages = e.same_npages }

pub status_at-Kept : (m m' : Mmu) (va : ℕ) → Kept m m' → status_at m' va ≡ status_at m va
unfolding status_at
status_at-Kept m m' va k = ap (λ t. t.status) (lookup-Kept m m' va k)

pub place-Kept : (m m' : Mmu) (va : ℕ) → Kept m m' → place m' va ≡ place m va
unfolding place
place-Kept m m' va k = ap (λ t. add64 t.pa (page_offset va)) (lookup-Kept m m' va k)

-- What a translation says, by the mapping.
pub translate-status_at :
    (m : Mmu) (engine va : ℕ) (write : Bool)
    → IsCoherent m
    → engine < max_engines
    → va < u64_mod
    → ((translate m engine va write).0.status ≡ status_at m va)
      × (add64 (translate m engine va write).0.pa (page_offset va) ≡ place m va)
unfolding status_at place
translate-status_at m engine va write c l h =
    let e = translate-lookup m engine va write c l h in
    (ap (λ t. t.status) e, ap (λ t. add64 t.pa (page_offset va)) e)

-- Addresses of one page go to one frame.
same_page :
    (m : Mmu) (a b : ℕ) → vpn_of a ≡ vpn_of b → lookup m.pte m.npages a ≡ lookup m.pte m.npages b
unfolding lookup
same_page m a b e = rw e refl

pub status_at_next :
    (m : Mmu) (a k : ℕ) → vpn_of (a + k) ≡ vpn_of a → status_at m (a + k) ≡ status_at m a
unfolding status_at
status_at_next m a k e = ap (λ t. t.status) (same_page m (a + k) a e)

pub place_next :
    (m : Mmu) (a k base j : ℕ)
    → vpn_of (a + k) ≡ vpn_of a
    → place m a ≡ add64 base j
    → place m (a + k) ≡ add64 base (j + k)
unfolding place
place_next m a k base j e p =
    let q = ap (λ t. t.pa) (same_page m (a + k) a e) in omega (arith, q, p)

pub status_at-dirty :
    (m m' : Mmu) (va : ℕ)
    → Kept m m'
    → status_at m va ≡ translated
    → has dirty (m.pte (vpn_of va)) ≡ true
    → has dirty (m'.pte (vpn_of va)) ≡ true
unfolding status_at
status_at-dirty m m' va k s d =
    k.same.keeps_dirty (vpn_of va) (lookup_translated m.pte m.npages va s).1 d
