-- ===== src/Device/Execute/Gather.antt =====
-- A source range gathered into a vector, and how the mapping's flags do not matter.
use softgpu.Base.{
  ℕ, ◌+◌, ◌<◌, ◌≤◌, ◌≡◌, ◌⊎◌, refl, ◌∙◌, sym, ap, subst, ltb, if◌then◌else◌, arith, u64_mod, add64,
  ge→ltb, inl, inr, lt_or_ge,
}
use mathlib.Core.Path.{fun_ext}
use softgpu.Mmu.{Mmu, page_offset, page_size, translated, max_engines}
use softgpu.Mmu.Coherence.{IsCoherent}
use softgpu.Device.{Bytes, Replay}
use softgpu.Device.Runs.{Ended, success, page_fault, split, refused}
use softgpu.Device.Runs.Places.{place, place_next, status_at, Kept, status_at-Kept, place-Kept}
use softgpu.Device.Runs.Applied.{Reached}
use softgpu.Device.Execute.{Board, resize, read_range, gather_into}
use softgpu.Device.Execute.Copies.{Written, Agrees}
use softgpu.Device.Execute.Transfers.{Advanced, read_range_lem}

-- The bytes of a range are `src 0`, `src 1`, ... wherever they are in VRAM.
abbrev pub Holds : Mmu → (ℕ → ℕ) → ℕ → ℕ → (ℕ → ℕ) → Type 0
Holds m vram va len src =
    (k : ℕ) → k < len → status_at m (va + k) ≡ translated → vram (place m (va + k)) ≡ src k

-- The first n bytes of a vector.
abbrev pub Begins : Bytes → (ℕ → ℕ) → ℕ → Type 0
Begins v src n = (k : ℕ) → k < n → v.byte k ≡ src k

-- A vector that is being filled: it has its size by the first byte, and the bytes up to `done`.
abbrev pub Filling : Bytes → (ℕ → ℕ) → ℕ → ℕ → Type 0
Filling v src len done = (done ≤ len) × ((done ≡ 0) ⊎ (len ≤ v.size)) × Begins v src done

-- `if (buf.size() < len) buf.resize(len)`
abbrev fitted : Bytes → ℕ → Bytes
fitted v len = if ltb v.size len then resize v len else v

fitted_size : (v : Bytes) (len : ℕ) → len ≤ (fitted v len).size
unfolding resize
fitted_size v len = ground arith

fitted_byte :
    (v : Bytes) (len done k : ℕ)
    → (done ≡ 0) ⊎ (len ≤ v.size)
    → k < done
    → (fitted v len).byte k ≡ v.byte k
fitted_byte v len done k (inl e) h = absurd (omega arith)
fitted_byte v len done k (inr e) h = rw (ge→ltb v.size len e) refl

pub Reached-le : (m : Mmu) (va len at : ℕ) (rc : Ended) → Reached m va len at rc → at ≤ len
Reached-le m va len at success h = omega arith
Reached-le m va len at (page_fault a) h = omega (arith, h.0)
Reached-le m va len at split h = absurd h
Reached-le m va len at (refused rc) h = omega (arith, h.0)

pub zero_add : (k : ℕ) → 0 + k ≡ k
zero_add k = omega arith

module _ (vram_size engine : ℕ) (fits : vram_size < u64_mod) (known : engine < max_engines) where
  pub gather_into_lem :
      (va len : ℕ) (src : ℕ → ℕ) (buf : Bytes) (r : Replay) (b : Board)
      → va + len ≤ u64_mod
      → IsCoherent b.mmu
      → Holds b.mmu b.vram va len src
      → Filling buf src len r.done
      → let (rc, r', buf', b') = gather_into vram_size engine va len buf r b in
        Advanced b.mmu b'.mmu va len r r' rc
        × Filling buf' src len r'.done
        × (b'.vram ≡ b.vram)
        × (b'.host ≡ b.host)
  unfolding gather_into
  gather_into_lem va len src buf r b small c holds (w, s, h) =
      let v = fitted buf len in
      let x = read_range_lem vram_size engine va len fits known small r b c w 0 v.byte in
      let t = read_range vram_size engine va len 0 v.byte r b in
      let done = t.1.done in
      (
        x.0,
        (
          Reached-le b.mmu va len done t.0 x.0.reached,
          inr (fitted_size buf len),
          λ k l. elim (lt_or_ge k r.done) [
            | inl a ↦ x.1.others k (inl (omega arith)) ∙ fitted_byte buf len r.done k s a ∙ h k a
            | inr a ↦
                subst (λ i. t.3 i ≡ src k) (zero_add k)
                  (x.1.bytes k a l
                    ∙ holds k (omega (arith, Reached-le b.mmu va len done t.0 x.0.reached))
                        (x.1.resident k a l))
          ],
        ),
        refl,
        refl,
      )

-- Two mappings that are the same up to flags say the same of every address.
pub same_mapping : (m m' : Mmu) → Kept m m' → (status_at m' ≡ status_at m) × (place m' ≡ place m)
same_mapping m m' k = (fun_ext (λ a. status_at-Kept m m' a k), fun_ext (λ a. place-Kept m m' a k))

pub Reached-Kept :
    (m m' : Mmu) (va len at : ℕ) (rc : Ended)
    → Kept m m'
    → Reached m' va len at rc
    → Reached m va len at rc
Reached-Kept m m' va len at success k h = h
Reached-Kept m m' va len at (page_fault a) k h = rw (← (same_mapping m m' k).0) h
Reached-Kept m m' va len at split k h = h
Reached-Kept m m' va len at (refused rc) k h = rw (← (same_mapping m m' k).0) h

pub Written-Kept :
    (m m' : Mmu) (va : ℕ) (g old new : ℕ → ℕ) (from at : ℕ)
    → Kept m m'
    → Written m' va g old new from at
    → Written m va g old new from at
Written-Kept m m' va g old new from at k w =
    let e = same_mapping m m' k in
    record {
      resident = rw (← e.0) w.resident;
      bytes = rw (← e.1) w.bytes;
      others = rw (← e.1) w.others;
    }

pub Holds-Kept :
    (m m' : Mmu) (vram : ℕ → ℕ) (va len : ℕ) (src : ℕ → ℕ)
    → Kept m m'
    → Holds m vram va len src
    → Holds m' vram va len src
Holds-Kept m m' vram va len src k h = let e = same_mapping m m' k in rw (e.0, e.1) h

-- No two bytes of a range are at one place in VRAM.
abbrev pub OneToOne : Mmu → ℕ → ℕ → Type 0
OneToOne m va len = Agrees m va len (λ k. k)

-- The bytes of one page are at different places.
pub one_page-OneToOne :
    (m : Mmu) (va len : ℕ) → page_offset va + len ≤ page_size → OneToOne m va len
unfolding place
one_page-OneToOne m va len h i j l u s t e =
    let base = place m va in
    let z : place m va ≡ add64 base 0 = omega arith in
    let p = place_next m va i base 0 (omega arith) z in
    let q = place_next m va j base 0 (omega arith) z in
    let x : add64 base (0 + i) ≡ add64 base (0 + j) = sym p ∙ e ∙ q in omega (arith, x)

pub OneToOne-Agrees :
    (m m' : Mmu) (va len : ℕ) (g : ℕ → ℕ) → Kept m m' → OneToOne m va len → Agrees m' va len g
OneToOne-Agrees m m' va len g k o =
    let e = same_mapping m m' k in rw (e.0, e.1) (λ i j h l s t p. ap g (o i j h l s t p))
