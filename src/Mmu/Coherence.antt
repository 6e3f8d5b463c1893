-- ===== src/Mmu/Coherence.antt =====
-- The TLBs agree with the page table: the invariant of the shootdown protocol.
use softgpu.Base.{
  ℕ, zero, suc, ◌+◌, ◌/◌, ◌<◌, ◌≤◌, ◌≡◌, refl, ◌≢◌, ◌⊎◌, inl, inr, List, [], ◌∷◌, true, arith, has,
  All, All-mono, update, update_self, update_ne, add64, eq_or_ne, eq→==, ne→==, lt→ltb,
}
use softgpu.Mmu.{
  init, empty_tlb, tlb_entries, Mmu, TlbEntry, present, dirty, is_resident, no_vpn, page_size,
  max_engines, clear_tag, tlb_invalidate_vpn, store_pte, store_host, bump_gen, map_vram_pages,
  map_host_pages, map_vram_page, map_host_page, vram_pte,
}
use softgpu.Mmu.Flags.{SamePage, frame_limit}
use softgpu.Mmu.Residency.{change_pte}

-- An entry in use caches the frame of a resident page, and is dirty only if the page is.
pub record Matches (pte : ℕ → ℕ) (npages : ℕ) (e : TlbEntry) : Type 0 where
  pub in_range : e.vpn < npages
  pub resident : is_resident (pte e.vpn) ≡ true
  pub cached_resident : is_resident e.pte ≡ true
  pub frame : e.pte / page_size ≡ pte e.vpn / page_size
  pub dirty_bit : has dirty e.pte ≡ true → has dirty (pte e.vpn) ≡ true

abbrev pub IsFresh : (ℕ → ℕ) → ℕ → TlbEntry → Type 0
IsFresh pte npages e = (e.vpn ≡ no_vpn) ⊎ Matches pte npages e

-- Every entry of every TLB is empty or fresh.
pub record IsCoherent (m : Mmu) : Type 0 where
  pub entries : (e : ℕ) → e < max_engines → All (IsFresh m.pte m.npages) (m.tlb e)
  pub small : m.npages ≤ frame_limit

-- The page table changes at `vpn` only, and the entries for `vpn` are dropped.
clear_tag-IsFresh :
    (pte : ℕ → ℕ) (npages vpn x : ℕ) (es : List TlbEntry)
    → All (IsFresh pte npages) es
    → All (IsFresh (update pte vpn x) npages) (clear_tag vpn es)
unfolding clear_tag
clear_tag-IsFresh pte npages vpn x [] h = tt
clear_tag-IsFresh pte npages vpn x (e ∷ es) h = (
  elim (eq_or_ne e.vpn vpn) [
    | inl q ↦ rw (eq→== e.vpn vpn q) (inl refl)
    | inr q ↦ rw (ne→== e.vpn vpn q) (kept q h.0)
  ],
  clear_tag-IsFresh pte npages vpn x es h.1,
)
  where
    kept : e.vpn ≢ vpn → IsFresh pte npages e → IsFresh (update pte vpn x) npages e
    kept q (inl f) = inl f
    kept q (inr f) = inr (record {
      in_range = f.in_range;
      resident = rw (update_ne pte vpn e.vpn x q) f.resident;
      cached_resident = f.cached_resident;
      frame = rw (update_ne pte vpn e.vpn x q) f.frame;
      dirty_bit = rw (update_ne pte vpn e.vpn x q) f.dirty_bit;
    })

-- A mapping change leaves the TLBs coherent, whatever it stores.
pub store_invalidate-IsCoherent :
    (m : Mmu) (vpn x : ℕ) → IsCoherent m → IsCoherent (tlb_invalidate_vpn (store_pte m vpn x) vpn)
unfolding tlb_invalidate_vpn store_pte
store_invalidate-IsCoherent m vpn x c = record {
  entries = λ e h.
      rw (lt→ltb e max_engines h)
        (clear_tag-IsFresh m.pte m.npages vpn x (m.tlb e) (c.entries e h));
  small = c.small;
}

pub change_pte-IsCoherent : (m : Mmu) (vpn x : ℕ) → IsCoherent m → IsCoherent (change_pte m vpn x)
unfolding change_pte tlb_invalidate_vpn store_pte bump_gen
change_pte-IsCoherent m vpn x c = record {
  entries = λ e h.
      rw (lt→ltb e max_engines h)
        (clear_tag-IsFresh m.pte m.npages vpn x (m.tlb e) (c.entries e h));
  small = c.small;
}

pub map_vram_pages-IsCoherent :
    (m : Mmu) (vpn pfn n : ℕ) → IsCoherent m → IsCoherent (map_vram_pages m vpn pfn n)
unfolding map_vram_pages
map_vram_pages-IsCoherent m vpn pfn zero c = c
map_vram_pages-IsCoherent m vpn pfn (suc n) c =
    map_vram_pages-IsCoherent (map_vram_page m vpn pfn) (vpn + 1) (pfn + 1) n
      (unfold map_vram_page in store_invalidate-IsCoherent m vpn (vram_pte pfn) c)

pub map_host_pages-IsCoherent :
    (m : Mmu) (vpn page n : ℕ) → IsCoherent m → IsCoherent (map_host_pages m vpn page n)
unfolding map_host_pages
map_host_pages-IsCoherent m vpn page zero c = c
map_host_pages-IsCoherent m vpn page (suc n) c =
    map_host_pages-IsCoherent (map_host_page m vpn page) (vpn + 1) (add64 page page_size) n (
      unfold map_host_page store_host in
      store_invalidate-IsCoherent (store_host m vpn page) vpn present
        (record { entries = c.entries; small = c.small }))

-- Changes of DIRTY and ACCESSED alone, DIRTY never cleared on a resident page.
pub record SameTable (pte pte' : ℕ → ℕ) : Type 0 where
  pub pages : (v : ℕ) → SamePage (pte v) (pte' v)
  pub keeps_dirty :
      (v : ℕ) → is_resident (pte v) ≡ true → has dirty (pte v) ≡ true → has dirty (pte' v) ≡ true

SameTable-Matches :
    (pte pte' : ℕ → ℕ) (npages : ℕ) (e : TlbEntry)
    → SameTable pte pte'
    → Matches pte npages e
    → Matches pte' npages e
SameTable-Matches pte pte' npages e s f = record {
  in_range = f.in_range;
  resident = rw ((s.pages e.vpn).same_present, (s.pages e.vpn).same_in_vram) f.resident;
  cached_resident = f.cached_resident;
  frame = omega (arith, f.frame, (s.pages e.vpn).same_frame);
  dirty_bit = λ d. s.keeps_dirty e.vpn f.resident (f.dirty_bit d);
}

pub SameTable-IsFresh :
    (pte pte' : ℕ → ℕ) (npages : ℕ) (e : TlbEntry)
    → SameTable pte pte'
    → IsFresh pte npages e
    → IsFresh pte' npages e
SameTable-IsFresh pte pte' npages e s (inl q) = inl q
SameTable-IsFresh pte pte' npages e s (inr f) = inr (SameTable-Matches pte pte' npages e s f)

-- One word changes in its flags.
pub SameTable-update :
    (pte : ℕ → ℕ) (vpn x : ℕ)
    → SamePage (pte vpn) x
    → (is_resident (pte vpn) ≡ true → has dirty (pte vpn) ≡ true → has dirty x ≡ true)
    → SameTable pte (update pte vpn x)
SameTable-update pte vpn x s d = record {
  pages = λ v. elim (eq_or_ne v vpn) [
    | inl q ↦ rw (q, update_self pte vpn x) s
    | inr q ↦
        rw (update_ne pte vpn v x q)
          (record { same_present = refl; same_in_vram = refl; same_frame = refl })
  ];
  keeps_dirty = λ v r h. elim (eq_or_ne v vpn) [
    | inl q ↦ rw (q, update_self pte vpn x) (d (rw q at r) (rw q at h))
    | inr q ↦ rw (update_ne pte vpn v x q) h
  ];
}

pub SameTable-IsCoherent :
    (m : Mmu) (pte' : ℕ → ℕ)
    → SameTable m.pte pte'
    → IsCoherent m
    → IsCoherent (record m { pte = pte' })
SameTable-IsCoherent m pte' s c = record {
  entries = λ e h.
      All-mono (IsFresh m.pte m.npages) (IsFresh pte' m.npages)
        (λ t. SameTable-IsFresh m.pte pte' m.npages t s) (m.tlb e) (c.entries e h);
  small = c.small;
}

empty_tlb-IsFresh : (pte : ℕ → ℕ) (npages n : ℕ) → All (IsFresh pte npages) (empty_tlb n)
unfolding empty_tlb
empty_tlb-IsFresh pte npages zero = tt
empty_tlb-IsFresh pte npages (suc n) = (inl refl, empty_tlb-IsFresh pte npages n)

pub init-IsCoherent :
    (va_bytes vram_bytes : ℕ)
    → va_bytes / page_size ≤ frame_limit
    → IsCoherent (init va_bytes vram_bytes)
unfolding init
init-IsCoherent va_bytes vram_bytes h = record {
  entries = λ e l. empty_tlb-IsFresh (λ _. 0) (va_bytes / page_size) tlb_entries;
  small = h;
}
