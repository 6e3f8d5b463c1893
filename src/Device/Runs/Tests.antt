-- ===== src/Device/Runs/Tests.antt =====
-- A range over two pages whose frames follow each other, behind a page that is not mapped.
use softgpu.Base.{true, arith}
use softgpu.Mmu.{Mmu, init, map_vram}
use softgpu.Mmu.Coherence.{IsCoherent, init-IsCoherent}
use softgpu.Mmu.Ranges.{map_vram-IsCoherent}
use softgpu.Device.Runs.{run_at}
use softgpu.Device.Runs.Places.{Kept}
use softgpu.Device.Runs.Extent.{Extent, run_at-Extent}

-- Pages 1 and 2 in frames 3 and 4 of 8.
abbrev two_frames : Mmu
two_frames = (map_vram (init 65536 32768) 4096 12288 2).1

two_frames-IsCoherent : IsCoherent two_frames
two_frames-IsCoherent =
    map_vram-IsCoherent (init 65536 32768) 4096 12288 2 (init-IsCoherent 65536 32768 (omega arith))

run_at-Extent_example :
    let ((rc, base, n), m') = run_at 32768 1 4100 8000 true two_frames in
    Kept two_frames m' × Extent two_frames m' 32768 4100 8000 true base n rc
run_at-Extent_example =
    run_at-Extent 32768 1 4100 8000 true two_frames (omega arith) (omega arith) (omega arith)
      (omega arith) two_frames-IsCoherent
