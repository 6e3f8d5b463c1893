-- ===== src/Mmu/Flags.antt =====
-- Arithmetic of page-table words: what setting and clearing a flag leaves alone.
use softgpu.Base.{ℕ, ◌/◌, ◌<◌, ◌^◌, ◌*◌, ◌≡◌, Bool, true, false, arith, has, with_flag, without}
use softgpu.Mmu.{present, in_vram, dirty, accessed, is_resident, page_size, pte_pa, vram_pte}
use softgpu.Mmu.Residency.{resident_pte}
use softgpu.Mmu.Access.{touch}

-- The same frame, present and in VRAM alike; only the flags DIRTY and ACCESSED may differ.
pub record SamePage (x y : ℕ) : Type 0 where
  pub same_present : has present y ≡ has present x
  pub same_in_vram : has in_vram y ≡ has in_vram x
  pub same_frame : y / page_size ≡ x / page_size

pub with_dirty : (x : ℕ) → SamePage x (with_flag dirty x)
with_dirty x = record {
  same_present = ground arith;
  same_in_vram = ground arith;
  same_frame = ground arith;
}

pub with_accessed : (x : ℕ) → SamePage x (with_flag accessed x)
with_accessed x = record {
  same_present = ground arith;
  same_in_vram = ground arith;
  same_frame = ground arith;
}

pub without-dirty : (x : ℕ) → SamePage x (without dirty x)
without-dirty x = record {
  same_present = ground arith;
  same_in_vram = ground arith;
  same_frame = ground arith;
}

pub without-accessed : (x : ℕ) → SamePage x (without accessed x)
without-accessed x = record {
  same_present = ground arith;
  same_in_vram = ground arith;
  same_frame = ground arith;
}

pub SamePage-trans : (x y z : ℕ) → SamePage x y → SamePage y z → SamePage x z
SamePage-trans x y z p q = record { same_present = cc; same_in_vram = cc; same_frame = omega arith }

pub has-dirty-with_dirty : (x : ℕ) → has dirty (with_flag dirty x) ≡ true
has-dirty-with_dirty x = ground arith

pub has-dirty-with_accessed : (x : ℕ) → has dirty (with_flag accessed x) ≡ has dirty x
has-dirty-with_accessed x = ground arith

pub has-dirty-without-accessed : (x : ℕ) → has dirty (without accessed x) ≡ has dirty x
has-dirty-without-accessed x = ground arith

pub has-accessed-without-accessed : (x : ℕ) → has accessed (without accessed x) ≡ false
has-accessed-without-accessed x = ground arith

-- The frame number fits above the flags: 2 ^ 52 frames.
abbrev pub frame_limit : ℕ
frame_limit = 2 ^ 52

pub vram_pte_lem :
    (pfn : ℕ)
    → pfn < frame_limit
    → (is_resident (vram_pte pfn) ≡ true)
      × (has dirty (vram_pte pfn) ≡ false)
      × (pte_pa (vram_pte pfn) ≡ pfn * page_size)
unfolding vram_pte
vram_pte_lem pfn h = ground arith

pub resident_pte_lem :
    (pfn : ℕ)
    → pfn < frame_limit
    → (is_resident (resident_pte pfn) ≡ true)
      × (has dirty (resident_pte pfn) ≡ false)
      × (has accessed (resident_pte pfn) ≡ true)
      × (pte_pa (resident_pte pfn) ≡ pfn * page_size)
unfolding resident_pte
resident_pte_lem pfn h = ground arith

pub touch-SamePage : (write : Bool) (x : ℕ) → SamePage x (touch write x)
unfolding touch
touch-SamePage true x =
    SamePage-trans x (with_flag accessed x) _ (with_accessed x) (with_dirty (with_flag accessed x))
touch-SamePage false x = with_accessed x
