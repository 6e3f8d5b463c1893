-- ===== src/Device/Execute/Tests.antt =====
-- Commands on two mapped pages; a float is its four bytes.
use softgpu.Base.{ℕ, ◌+◌, ◌*◌, ◌≡◌, refl, inl, true, arith, ◌==◌, if◌then◌else◌}
use softgpu.Mmu.{Mmu, init, map_vram}
use softgpu.Mmu.Coherence.{IsCoherent, init-IsCoherent}
use softgpu.Mmu.Ranges.{map_vram-IsCoherent}
use softgpu.Device.{Replay, Command, fresh_replay}
use softgpu.Device.Execute.{
  Float32, Board, Operands, execute, compute_through, vadd_from, in_place, gemm_from,
}
use softgpu.Device.Execute.Copies.{Written, Fetched}
use softgpu.Device.Execute.Transfers.{Advanced, payload, execute-Written, execute-Fetched}
use softgpu.Device.Execute.Arrays.{RoundTrips, in_place-IsApart}
use softgpu.Device.Execute.Product.{Product, gemm_from-Product}
use softgpu.Device.Execute.Gather.{OneToOne, one_page-OneToOne}
use softgpu.Device.Execute.Retried.{Through, compute_through-Through}

abbrev nth : ℕ × ℕ × ℕ × ℕ → ℕ → ℕ
nth x i = if i == 0 then x.0 else if i == 1 then x.1 else if i == 2 then x.2 else x.3

abbrev four_bytes : Float32
four_bytes = record {
  Float = ℕ × ℕ × ℕ × ℕ;
  zero_f = (0, 0, 0, 0);
  add = λ x y. (x.0 + y.0, x.1 + y.1, x.2 + y.2, x.3 + y.3);
  mul = λ x y. (x.0 * y.0, x.1 * y.1, x.2 * y.2, x.3 * y.3);
  of_bytes = λ a b c d. (a, b, c, d);
  to_byte = nth;
}

four_bytes-RoundTrips : RoundTrips four_bytes
four_bytes-RoundTrips x = refl

abbrev two_frames : Mmu
two_frames = (map_vram (init 65536 32768) 4096 12288 2).1

two_frames-IsCoherent : IsCoherent two_frames
two_frames-IsCoherent =
    map_vram-IsCoherent (init 65536 32768) 4096 12288 2 (init-IsCoherent 65536 32768 (omega arith))

abbrev board : Board
board = record { mmu = two_frames; vram = λ a. 0; host = λ a. a }

abbrev fill : Command
fill = record {
  opcode = 1;
  flags = 0;
  dst = 4100;
  src0 = 8192;
  src1 = 8256;
  size = 6000;
  arg0 = 2;
  arg1 = 2;
  arg2 = 2;
  value = 259;
  reserved = 0;
}

-- A fill of 6000 bytes that goes on after the first 100.
abbrev resumed : Replay
resumed = record fresh_replay { done = 100 }

execute-Written_example :
    let (rc, r', b') = execute 32768 0 four_bytes resumed fill board in
    Advanced two_frames b'.mmu 4100 6000 resumed r' rc
    × Written two_frames 4100 (payload fill board) board.vram b'.vram 100 r'.done
    × (b'.host ≡ board.host)
execute-Written_example =
    execute-Written four_bytes 32768 0 resumed fill board (omega arith) (omega arith) (omega arith)
      two_frames-IsCoherent (omega arith) (inl (refl, refl)) (λ i j h l s t e. refl)

abbrev read_back : Command
read_back = record fill { opcode = 3; src0 = 4100; dst = 70000 }

execute-Fetched_example :
    let (rc, r', b') = execute 32768 1 four_bytes resumed read_back board in
    Advanced two_frames b'.mmu 4100 6000 resumed r' rc
    × Fetched two_frames 4100 70000 board.vram board.host b'.host 100 r'.done
    × (b'.vram ≡ board.vram)
execute-Fetched_example =
    execute-Fetched four_bytes 32768 1 resumed read_back board (omega arith) (omega arith)
      (omega arith) two_frames-IsCoherent (omega arith) refl (omega arith)

-- A product of 2 x 2 matrices in VRAM at 0, 16 and 32.
abbrev arrays : Operands four_bytes (ℕ → ℕ)
arrays = in_place four_bytes 0 16 32

gemm_from-Product_example :
    Product four_bytes arrays 4 4 4
      (in_place-IsApart four_bytes four_bytes-RoundTrips 0 16 32 4 4 4 (omega arith) (omega arith))
      2
      2
      0
      2
      (λ a. a)
      (gemm_from four_bytes arrays 2 2 0 2 (λ a. a))
gemm_from-Product_example =
    gemm_from-Product four_bytes arrays 4 4 4
      (in_place-IsApart four_bytes four_bytes-RoundTrips 0 16 32 4 4 4 (omega arith) (omega arith))
      2 2 0 2 (λ a. a) (omega arith) (omega arith) (omega arith)

-- The 8 bytes of the sum go to one page, so to different places.
apart : OneToOne two_frames 4096 8
apart = one_page-OneToOne two_frames 4096 8 (omega arith)

abbrev add : Command
add = record fill { opcode = 5; dst = 4096 }

abbrev gathering : Replay
gathering = record fresh_replay { gather = true }

abbrev add_kernel : Operands four_bytes (ℕ → ℕ) → (ℕ → ℕ) → ℕ → ℕ
add_kernel io s = vadd_from four_bytes io 0 2 s

compute_through-Through_example :
    Through 32768 0
      (omega arith)
      (omega arith)
      four_bytes
      add
      8
      8
      8
      add_kernel
      (λ k. 0)
      (λ k. 0)
      (omega arith)
      (omega arith)
      (omega arith)
      gathering
      board
      (compute_through 32768 0 four_bytes add 8 8 8 add_kernel gathering board)
compute_through-Through_example =
    compute_through-Through 32768 0 (omega arith) (omega arith) four_bytes add 8 8 8 add_kernel
      (λ k. 0) (λ k. 0) (omega arith) (omega arith) (omega arith) gathering board
      two_frames-IsCoherent (λ k h s. refl) (λ k h s. refl) apart
      (inl (refl, (omega arith, inl refl, λ k h. absurd (omega arith))))
