-- ===== src/Device/Execute/Arrays.antt =====
-- The arrays of the kernels in memory: in VRAM apart from one another, and in the vectors of a replay.
use softgpu.Base.{ℕ, ◌+◌, ◌*◌, ◌<◌, ◌≤◌, ◌≡◌, ◌⊎◌, refl, subst, arith}
use softgpu.Device.Execute.{Float32, copy_bytes, load_float, store_float, in_place, in_vectors}
use softgpu.Device.Execute.Copies.{copy_bytes_in, copy_bytes_out}
use softgpu.Device.Execute.Kernels.{IsApart}

-- A float is what its bytes say.
abbrev pub RoundTrips : Float32 → Type 0
RoundTrips f =
    (x : f.Float) → f.of_bytes (f.to_byte x 0) (f.to_byte x 1) (f.to_byte x 2) (f.to_byte x 3) ≡ x

module _ (f : Float32) (law : RoundTrips f) where
  load_float_same :
      (mem mem' : ℕ → ℕ) (p i : ℕ)
      → ((a : ℕ) → p + 4 * i ≤ a → a < p + 4 * i + 4 → mem' a ≡ mem a)
      → load_float f mem' p i ≡ load_float f mem p i
  load_float_same mem mem' p i h =
      let a = p + 4 * i in
      let e0 = h a (omega arith) (omega arith) in
      let e1 = h (a + 1) (omega arith) (omega arith) in
      let e2 = h (a + 2) (omega arith) (omega arith) in
      let e3 = h (a + 3) (omega arith) (omega arith) in cc (e0, e1, e2, e3)

  load-store_float :
      (mem : ℕ → ℕ) (p i : ℕ) (x : f.Float) → load_float f (store_float f mem p i x) p i ≡ x
  unfolding store_float
  load-store_float mem p i x =
      let a = p + 4 * i in
      let m = copy_bytes mem a (f.to_byte x) 4 in
      let z : a + 0 ≡ a = omega arith in
      let e0 =
        subst (λ y. m y ≡ f.to_byte x 0) z (copy_bytes_in mem a (f.to_byte x) 4 0 (omega arith)) in
      let e1 = copy_bytes_in mem a (f.to_byte x) 4 1 (omega arith) in
      let e2 = copy_bytes_in mem a (f.to_byte x) 4 2 (omega arith) in
      let e3 = copy_bytes_in mem a (f.to_byte x) 4 3 (omega arith) in cc (e0, e1, e2, e3, law x)

  -- A store changes no float of an array that it does not meet.
  load_other :
      (mem : ℕ → ℕ) (p i q j : ℕ) (x : f.Float)
      → (q + 4 * j + 4 ≤ p + 4 * i) ⊎ (p + 4 * i + 4 ≤ q + 4 * j)
      → load_float f (store_float f mem p i x) q j ≡ load_float f mem q j
  unfolding store_float
  load_other mem p i q j x h =
      load_float_same mem (store_float f mem p i x) q j
        (λ a l u. copy_bytes_out mem (p + 4 * i) (f.to_byte x) 4 a (omega (arith, h)))

  pub in_vectors-IsApart :
      (a b : ℕ → ℕ) (limit l0 l1 : ℕ) → IsApart f (in_vectors f a b) limit l0 l1
  in_vectors-IsApart a b limit l0 l1 = record {
    out_store = λ s i x h. load-store_float s 0 i x;
    out_other = λ s i j x h k n. load_other s 0 i 0 j x (omega (arith, n));
    src0_store = λ s i j x h k. refl;
    src1_store = λ s i j x h k. refl;
  }

  pub in_place-IsApart :
      (d s0 s1 limit l0 l1 : ℕ)
      → (d + 4 * limit ≤ s0) ⊎ (s0 + 4 * l0 ≤ d)
      → (d + 4 * limit ≤ s1) ⊎ (s1 + 4 * l1 ≤ d)
      → IsApart f (in_place f d s0 s1) limit l0 l1
  in_place-IsApart d s0 s1 limit l0 l1 h0 h1 = record {
    out_store = λ s i x h. load-store_float s d i x;
    out_other = λ s i j x h k n. load_other s d i d j x (omega (arith, n));
    src0_store = λ s i j x h k. load_other s d i s0 j x (omega (arith, h0));
    src1_store = λ s i j x h k. load_other s d i s1 j x (omega (arith, h1));
  }
