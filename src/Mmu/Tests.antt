-- ===== src/Mmu/Tests.antt =====
-- Runs of the page table and the TLBs, and their theorems at the states that they lead to.
use softgpu.Base.{◌≡◌, refl, [], ◌∷◌, true, false, arith, has, update}
use softgpu.Mmu.{
  Mmu, translated, not_present, host_resident, dirty, vpn_of, init, map_vram, map_host, any_present,
  map_vram_pages, map_vram_page, map_host_pages, map_host_page, clear_tag,
}
use softgpu.Mmu.Residency.{make_resident, begin_evict, unmap}
use softgpu.Mmu.Access.{translate}
use softgpu.Mmu.Coherence.{IsCoherent, init-IsCoherent}
use softgpu.Mmu.Ranges.{map_vram-IsCoherent, map_host-IsCoherent}
use softgpu.Mmu.Translation.{lookup, translate-lookup}
use softgpu.Mmu.Effects.{Effect, translate-Effect, succeeded}
use softgpu.Mmu.Shootdown.{
  accesses, make_resident-IsCoherent, translate-begin_evict, begin_evict-dirty,
  translate-make_resident, translate-unmap,
}

-- 16 pages of addresses over 8 frames.
abbrev blank : Mmu
blank = init 65536 32768

blank-IsCoherent : IsCoherent blank
blank-IsCoherent = init-IsCoherent 65536 32768 (omega arith)

-- Pages 1 and 2 in frames 3 and 4.
abbrev mapped : Mmu
mapped = (map_vram blank 4096 12288 2).1

mapped-IsCoherent : IsCoherent mapped
mapped-IsCoherent = map_vram-IsCoherent blank 4096 12288 2 blank-IsCoherent

-- Page 9 in host memory, then in frame 5.
abbrev managed : Mmu
managed = (map_host blank 36864 1048576 1).1

managed-IsCoherent : IsCoherent managed
managed-IsCoherent = map_host-IsCoherent blank 36864 1048576 1 blank-IsCoherent

abbrev migrated : Mmu
migrated = (make_resident managed 36864 20480).1

migrated-IsCoherent : IsCoherent migrated
migrated-IsCoherent = make_resident-IsCoherent managed 36864 20480 managed-IsCoherent

translate-lookup_example : (translate mapped 1 5000 true).0 ≡ lookup mapped.pte mapped.npages 5000
translate-lookup_example =
    translate-lookup mapped 1 5000 true mapped-IsCoherent (omega arith) (omega arith)

translate-Effect_example :
    let (t, m') = translate mapped 1 5000 true in Effect mapped m' 5000 true (succeeded t)
translate-Effect_example =
    translate-Effect mapped 1 5000 true mapped-IsCoherent (omega arith) (omega arith)

translate-unmap_example :
    (translate (unmap mapped 4096 2).1 0 8192 true).0 ≡ record { status = not_present; pa = 0 }
unfolding unmap map_vram any_present init map_vram_pages map_vram_page
translate-unmap_example =
    translate-unmap mapped 4096 2 8192 0 true mapped-IsCoherent (omega arith) (omega arith)
      (omega arith) (omega arith) refl

translate-make_resident_example :
    (translate (make_resident managed 36864 20480).1 1 36900 true).0
    ≡ record { status = translated; pa = 20480 }
unfolding make_resident map_host any_present init map_host_pages update map_host_page
translate-make_resident_example =
    translate-make_resident managed 36864 20480 36900 1 true managed-IsCoherent (omega arith)
      (omega arith) refl (omega arith) refl refl

translate-begin_evict_example :
    let (old, m') = begin_evict migrated 36864 in
    (old ≡ migrated.pte (vpn_of 36864))
    × ((translate m' 1 36864 false).0 ≡ record { status = host_resident; pa = 0 })
unfolding make_resident map_host any_present init map_host_pages update map_host_page
translate-begin_evict_example =
    translate-begin_evict migrated 36864 1 false migrated-IsCoherent (omega arith) (omega arith)
      (omega arith) refl

begin_evict-dirty_example :
    has dirty
      (begin_evict
        (accesses
          (translate migrated 1 36864 true).1
          (record { engine = 2; va = 36864; write = false } ∷ []))
        36864).0
    ≡ true
unfolding make_resident map_host any_present init map_host_pages update translate map_host_page
    clear_tag
begin_evict-dirty_example =
    begin_evict-dirty migrated 36864 1 (record { engine = 2; va = 36864; write = false } ∷ [])
      migrated-IsCoherent (omega arith) (omega arith) (omega arith) refl
