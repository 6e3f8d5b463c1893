-- ===== src/Device/Execute/Transfers.antt =====
-- FILL, COPY_H2D and COPY_D2H, started or resumed at a replay.
use softgpu.Base.{
  ℕ, ◌+◌, ◌%◌, ◌<◌, ◌≤◌, ◌≡◌, ◌≢◌, ◌⊎◌, refl, true, false, ◌==◌, if◌then◌else◌, arith, u64_mod,
  ne→==, inl, inr,
}
use softgpu.Mmu.{Mmu, max_engines}
use softgpu.Mmu.Coherence.{IsCoherent}
use softgpu.Device.{Replay, Command}
use softgpu.Device.Runs.{Ended}
use softgpu.Device.Runs.Places.{Kept, Kept-refl}
use softgpu.Device.Runs.Applied.{Reached, for_runs-Told}
use softgpu.Device.Execute.{Float32, Board, copy_bytes, write_range, read_range, execute, copy_d2h}
use softgpu.Device.Execute.Copies.{
  Written, Written-refl, Fetched, Fetched-refl, Agrees, write_run, read_run,
}

-- What a call on a range leaves: the replay goes on from where it was, the mapping is the same.
pub record Advanced (m m' : Mmu) (va len : ℕ) (r r' : Replay) (rc : Ended) : Type 0 where
  pub kept : Kept m m'
  pub forward : r.done ≤ r'.done
  pub only_done : r' ≡ record r { done = r'.done }
  pub reached : Reached m va len r'.done rc

module _ (vram_size engine va len : ℕ) (fits : vram_size < u64_mod) (known : engine < max_engines)
    (small : va + len ≤ u64_mod) (r : Replay) (b : Board) (coherent : IsCoherent b.mmu)
    (begun : r.done ≤ len) where
  pub write_range_lem :
      (g : ℕ → ℕ)
      → Agrees b.mmu va len g
      → let (rc, r', b') = write_range vram_size engine va len g r b in
        Advanced b.mmu b'.mmu va len r r' rc
        × Written b.mmu va g b.vram b'.vram r.done r'.done
        × (b'.host ≡ b.host)
  unfolding write_range
  write_range_lem g agrees =
      let x =
        for_runs-Told vram_size engine va len true
          (λ p off n mem. copy_bytes mem p (λ j. g (off + j)) n) fits known small b.mmu
          (λ at mem. Written b.mmu va g b.vram mem r.done at × (r.done ≤ at))
          (λ p off n mem u v. (
            write_run b.mmu vram_size va len g b.vram r.done agrees p off n mem u v.0 v.1,
            omega (arith, v.1),
          ))
          len r b.mmu b.vram
          (record {
            kept = Kept-refl b.mmu coherent;
            within = begun;
            holds = (Written-refl b.mmu va g b.vram r.done, omega arith);
          })
          (omega arith) in
      (
        record { kept = x.kept; forward = x.forward; only_done = x.only_done; reached = x.reached },
        x.holds.0,
        refl,
      )

  pub read_range_lem :
      (to : ℕ) (mem : ℕ → ℕ)
      → let (rc, r', m, mem') = read_range vram_size engine va len to mem r b in
        Advanced b.mmu m va len r r' rc × Fetched b.mmu va to b.vram mem mem' r.done r'.done
  unfolding read_range
  read_range_lem to mem =
      let x =
        for_runs-Told vram_size engine va len false
          (λ p off n mem. copy_bytes mem (to + off) (λ j. b.vram (p + j)) n) fits known small b.mmu
          (λ at x. Fetched b.mmu va to b.vram mem x r.done at × (r.done ≤ at))
          (λ p off n x u v. (
            read_run b.mmu vram_size va len to b.vram mem r.done p off n x u v.0 v.1,
            omega (arith, v.1),
          ))
          len r b.mmu mem
          (record {
            kept = Kept-refl b.mmu coherent;
            within = begun;
            holds = (Fetched-refl b.mmu va to b.vram mem r.done, omega arith);
          })
          (omega arith) in
      (
        record { kept = x.kept; forward = x.forward; only_done = x.only_done; reached = x.reached },
        x.holds.0,
      )

-- What a command writes at byte k of its target: the value of a FILL, or a byte of host memory.
abbrev pub payload : Command → Board → ℕ → ℕ
payload c b k = if c.opcode == 1 then c.value % 256 else b.host (c.src0 + k)

-- The opcodes are for an engine: FILL for the compute engine, COPY_H2D for a copy engine.
abbrev pub Writes : ℕ → Command → Type 0
Writes engine c = ((c.opcode ≡ 1) × (engine ≡ 0)) ⊎ ((c.opcode ≡ 2) × (engine ≢ 0))

execute_target :
    (f : Float32) (vram_size engine : ℕ) (r : Replay) (c : Command) (b : Board)
    → Writes engine c
    → execute vram_size engine f r c b ≡ write_range vram_size engine c.dst c.size (payload c b) r b
unfolding execute
execute_target f vram_size engine r c b (inl (e, q)) = rw (e, q) refl
execute_target f vram_size engine r c b (inr (e, q)) = rw (e, ne→== engine 0 q) refl

-- FILL and COPY_H2D with coherent TLBs, when bytes of the target at one place in VRAM are to be alike,
-- started or resumed at byte `done`: the call writes the bytes from there to the new `done`, each with
-- its value, and nothing else in VRAM; it returns success at the end of the target, or a fault at
-- the page of byte `done`, which is on the host, or EFAULT at a byte before the end that is not on the host. The mapping stays
-- the same up to flags.
pub execute-Written :
    (f : Float32) (vram_size engine : ℕ) (r : Replay) (c : Command) (b : Board)
    → vram_size < u64_mod
    → engine < max_engines
    → c.dst + c.size ≤ u64_mod
    → IsCoherent b.mmu
    → r.done ≤ c.size
    → Writes engine c
    → Agrees b.mmu c.dst c.size (payload c b)
    → let (rc, r', b') = execute vram_size engine f r c b in
      Advanced b.mmu b'.mmu c.dst c.size r r' rc
      × Written b.mmu c.dst (payload c b) b.vram b'.vram r.done r'.done
      × (b'.host ≡ b.host)
execute-Written f vram_size engine r c b fits known small coherent begun writes agrees =
    let e = execute_target f vram_size engine r c b writes in
    rw e (
      write_range_lem vram_size engine c.dst c.size fits known small r b coherent begun
        (payload c b) agrees)

execute_source :
    (f : Float32) (vram_size engine : ℕ) (r : Replay) (c : Command) (b : Board)
    → c.opcode ≡ 3
    → engine ≢ 0
    → execute vram_size engine f r c b ≡ copy_d2h vram_size engine c.dst c.src0 c.size r b
unfolding execute
execute_source f vram_size engine r c b e q = rw (e, ne→== engine 0 q) refl

-- COPY_D2H with coherent TLBs, started or resumed at byte `done`: the call copies the bytes from there
-- to the new `done`, byte k of the range to host address dst + k, and changes nothing else in the
-- host's memory and nothing in VRAM; it returns success at the end of the range, or a fault at the page of
-- byte `done`, which is on the host, or EFAULT at a byte before the end that is not on the host.
pub execute-Fetched :
    (f : Float32) (vram_size engine : ℕ) (r : Replay) (c : Command) (b : Board)
    → vram_size < u64_mod
    → engine < max_engines
    → c.src0 + c.size ≤ u64_mod
    → IsCoherent b.mmu
    → r.done ≤ c.size
    → c.opcode ≡ 3
    → engine ≢ 0
    → let (rc, r', b') = execute vram_size engine f r c b in
      Advanced b.mmu b'.mmu c.src0 c.size r r' rc
      × Fetched b.mmu c.src0 c.dst b.vram b.host b'.host r.done r'.done
      × (b'.vram ≡ b.vram)
execute-Fetched f vram_size engine r c b fits known small coherent begun e q =
    let x = execute_source f vram_size engine r c b e q in
    let y =
      read_range_lem vram_size engine c.src0 c.size fits known small r b coherent begun c.dst
        b.host in
    rw x (unfold copy_d2h in (y.0, y.1, refl))
