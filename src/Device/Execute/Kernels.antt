-- ===== src/Device/Execute/Kernels.antt =====
-- The kernels against their definitions element by element.
use softgpu.Base.{
  ℕ, zero, suc, ◌+◌, ◌<◌, ◌≤◌, ◌≡◌, ◌≢◌, ◌⊎◌, refl, ◌∙◌, sym, ap, subst, arith, inl, inr, eq_or_ne,
}
use softgpu.Device.Execute.{Float32, Operands, vadd_from, clear_row, add_row}

-- The arrays of a kernel are apart: a store is read back, and changes no other element and no source,
-- as long as each is in its array of `limit`, `l0` or `l1` elements.
pub record IsApart (f : Float32) {S : Type 0} (io : Operands f S) (limit l0 l1 : ℕ) : Type 0 where
  pub out_store : (s : S) (i : ℕ) (x : f.Float) → i < limit → io.out (io.store s i x) i ≡ x
  pub out_other :
      (s : S) (i j : ℕ) (x : f.Float)
      → i < limit
      → j < limit
      → j ≢ i
      → io.out (io.store s i x) j ≡ io.out s j
  pub src0_store :
      (s : S) (i j : ℕ) (x : f.Float)
      → i < limit
      → j < l0
      → io.src0 (io.store s i x) j ≡ io.src0 s j
  pub src1_store :
      (s : S) (i j : ℕ) (x : f.Float)
      → i < limit
      → j < l1
      → io.src1 (io.store s i x) j ≡ io.src1 s j

-- acc + a_p b_p + a_(p+1) b_(p+1) + ..., added up in this order.
unfoldable pub dot : (f : Float32) → (ℕ → f.Float) → (ℕ → f.Float) → ℕ → ℕ → f.Float → f.Float
dot f a b p zero acc = acc
dot f a b p (suc n) acc = dot f a b (p + 1) n (f.add acc (f.mul (a p) (b p)))

module _ (f : Float32) {S : Type 0} (io : Operands f S) (limit l0 l1 : ℕ)
    (apart : IsApart f io limit l0 l1) where
  -- The sources have not changed from s to s'.
  pub record SameSources (s s' : S) : Type 0 where
    pub same0 : (j : ℕ) → j < l0 → io.src0 s' j ≡ io.src0 s j
    pub same1 : (j : ℕ) → j < l1 → io.src1 s' j ≡ io.src1 s j

  pub SameSources-refl : (s : S) → SameSources s s
  SameSources-refl s = record { same0 = λ j h. refl; same1 = λ j h. refl }

  pub SameSources-trans : (s t u : S) → SameSources s t → SameSources t u → SameSources s u
  SameSources-trans s t u x y = record {
    same0 = λ j h. y.same0 j h ∙ x.same0 j h;
    same1 = λ j h. y.same1 j h ∙ x.same1 j h;
  }

  pub SameSources-store : (s : S) (i : ℕ) (x : f.Float) → i < limit → SameSources s (io.store s i x)
  SameSources-store s i x h = record {
    same0 = λ j u. apart.src0_store s i j x h u;
    same1 = λ j u. apart.src1_store s i j x h u;
  }

  -- Elements from i to i + n - 1 are the sums, the others as before.
  pub record Added (i n : ℕ) (s s' : S) : Type 0 where
    pub sources : SameSources s s'
    pub sums : (j : ℕ) → i ≤ j → j < i + n → io.out s' j ≡ f.add (io.src0 s j) (io.src1 s j)
    pub others : (j : ℕ) → j < limit → (j < i) ⊎ (i + n ≤ j) → io.out s' j ≡ io.out s j

  pub vadd_from-Added :
      (i n : ℕ) (s : S)
      → i + n ≤ limit
      → limit ≤ l0
      → limit ≤ l1
      → Added i n s (vadd_from f io i n s)
  unfolding vadd_from
  vadd_from-Added i zero s h h0 h1 = record {
    sources = SameSources-refl s;
    sums = λ j l u. absurd (omega arith);
    others = λ j l o. refl;
  }
  vadd_from-Added i (suc n) s h h0 h1 =
      let x = f.add (io.src0 s i) (io.src1 s i) in
      let s1 = io.store s i x in
      let t = SameSources-store s i x (omega arith) in
      let rest = vadd_from-Added (i + 1) n s1 (omega arith) h0 h1 in
      record {
        sources = SameSources-trans s s1 _ t rest.sources;
        sums = λ j l u. elim (eq_or_ne j i) [
          | inl e ↦
              subst
                (λ y. io.out (vadd_from f io (i + 1) n s1) y ≡ f.add (io.src0 s y) (io.src1 s y))
                (sym e)
                (rest.others i (omega arith) (inl (omega arith))
                  ∙ apart.out_store s i x (omega arith))
          | inr e ↦
              rest.sums j (omega arith) (omega arith)
              ∙ ap (λ y. f.add y (io.src1 s1 j)) (t.same0 j (omega arith))
              ∙ ap (λ y. f.add (io.src0 s j) y) (t.same1 j (omega arith))
        ];
        others = λ j l o.
            rest.others j l (omega (arith, o))
            ∙ apart.out_other s i j x (omega arith) l (omega (arith, o));
      }

  -- Elements from row + j to row + j + n - 1 are `value`, the others as before.
  pub record Row (row j n : ℕ) (value : ℕ → f.Float) (s s' : S) : Type 0 where
    pub sources : SameSources s s'
    pub values : (q : ℕ) → j ≤ q → q < j + n → io.out s' (row + q) ≡ value q
    pub others :
        (a : ℕ) → a < limit → (a < row + j) ⊎ (row + (j + n) ≤ a) → io.out s' a ≡ io.out s a

  pub clear_row-Row :
      (row j n : ℕ) (s : S)
      → row + (j + n) ≤ limit
      → Row row j n (λ q. f.zero_f) s (clear_row f io row j n s)
  unfolding clear_row
  clear_row-Row row j zero s h = record {
    sources = SameSources-refl s;
    values = λ q l u. absurd (omega arith);
    others = λ a l o. refl;
  }
  clear_row-Row row j (suc n) s h =
      let s1 = io.store s (row + j) f.zero_f in
      let t = SameSources-store s (row + j) f.zero_f (omega arith) in
      let rest = clear_row-Row row (j + 1) n s1 (omega arith) in
      record {
        sources = SameSources-trans s s1 _ t rest.sources;
        values = λ q l u. elim (eq_or_ne q j) [
          | inl e ↦
              subst (λ y. io.out (clear_row f io row (j + 1) n s1) (row + y) ≡ f.zero_f) (sym e)
                (rest.others (row + j) (omega arith) (inl (omega arith))
                  ∙ apart.out_store s (row + j) f.zero_f (omega arith))
          | inr e ↦ rest.values q (omega arith) (omega arith)
        ];
        others = λ a l o.
            rest.others a l (omega (arith, o))
            ∙ apart.out_other s (row + j) a f.zero_f (omega arith) l (omega (arith, o));
      }

  -- Element (row, q) after a round over p.
  abbrev pub raised : f.Float → ℕ → ℕ → S → ℕ → f.Float
  raised aip row brow s q = f.add (io.out s (row + q)) (f.mul aip (io.src1 s (brow + q)))

  pub add_row-Row :
      (aip : f.Float) (row brow j n : ℕ) (s : S)
      → row + (j + n) ≤ limit
      → brow + (j + n) ≤ l1
      → Row row j n (raised aip row brow s) s (add_row f io aip row brow j n s)
  unfolding add_row
  add_row-Row aip row brow j zero s h h1 = record {
    sources = SameSources-refl s;
    values = λ q l u. absurd (omega arith);
    others = λ a l o. refl;
  }
  add_row-Row aip row brow j (suc n) s h h1 =
      let x = raised aip row brow s j in
      let s1 = io.store s (row + j) x in
      let t = SameSources-store s (row + j) x (omega arith) in
      let rest = add_row-Row aip row brow (j + 1) n s1 (omega arith) (omega arith) in
      record {
        sources = SameSources-trans s s1 _ t rest.sources;
        values = λ q l u. elim (eq_or_ne q j) [
          | inl e ↦
              subst
                (λ y.
                  io.out (add_row f io aip row brow (j + 1) n s1) (row + y)
                  ≡ raised aip row brow s y)
                (sym e)
                (rest.others (row + j) (omega arith) (inl (omega arith))
                  ∙ apart.out_store s (row + j) x (omega arith))
          | inr e ↦
              rest.values q (omega arith) (omega arith)
              ∙ ap (λ y. f.add y (f.mul aip (io.src1 s1 (brow + q))))
                  (apart.out_other s (row + j) (row + q) x (omega arith) (omega arith)
                    (omega (arith, e)))
              ∙ ap (λ y. f.add (io.out s (row + q)) (f.mul aip y))
                  (t.same1 (brow + q) (omega arith))
        ];
        others = λ a l o.
            rest.others a l (omega (arith, o))
            ∙ apart.out_other s (row + j) a x (omega arith) l (omega (arith, o));
      }
