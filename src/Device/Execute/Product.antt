-- ===== src/Device/Execute/Product.antt =====
-- The matrix product: the i-k-j loop against the sums over p, element by element.
use softgpu.Base.{
  ℕ, zero, suc, ◌+◌, ◌-◌, ◌*◌, ◌<◌, ◌≤◌, ◌≡◌, ◌⊎◌, refl, ◌∙◌, sym, ap, subst, arith, inl, inr,
  eq_or_ne,
}
use softgpu.Device.Execute.{Float32, Operands, clear_row, add_row, add_rows, gemm_from}
use softgpu.Device.Execute.Kernels.{
  IsApart, dot, SameSources, SameSources-refl, SameSources-trans, Row, clear_row-Row, add_row-Row,
}

rows_in : (i n left : ℕ) → i * n + n ≤ (i + suc left) * n
rows_in i n left = grind arith

row_end : (i n : ℕ) → (i + 1) * n ≡ i * n + n
row_end i n = grind arith

rows_end : (i n left : ℕ) → (i + 1 + left) * n ≡ (i + suc left) * n
rows_end i n left = ap (λ x. x * n) (omega arith)

row_within : (r i left k : ℕ) → r < i + suc left → r * k + k ≤ (i + suc left) * k
row_within r i left k h =
    let d = i + left - r in
    let e : r + suc d ≡ i + suc left = omega arith in
    subst (λ x. r * k + k ≤ x * k) e (rows_in r k d)

zero_add : (k : ℕ) → 0 + k ≡ k
zero_add k = omega arith

module _ (f : Float32) {S : Type 0} (io : Operands f S) (limit l0 l1 : ℕ)
    (apart : IsApart f io limit l0 l1) where
  -- Row i of the first matrix, and column q of the second.
  abbrev pub row_of : ℕ → ℕ → S → ℕ → f.Float
  row_of k i s p = io.src0 s (i * k + p)

  abbrev pub column_of : ℕ → ℕ → S → ℕ → f.Float
  column_of n q s p = io.src1 s (p * n + q)

  dot_same :
      (n k i q p left : ℕ) (s s' : S) (acc acc' : f.Float)
      → i * k + (p + left) ≤ l0
      → (p + left) * n ≤ l1
      → q < n
      → SameSources f io limit l0 l1 apart s s'
      → acc' ≡ acc
      → dot f (row_of k i s') (column_of n q s') p left acc'
        ≡ dot f (row_of k i s) (column_of n q s) p left acc
  unfolding dot
  dot_same n k i q p zero s s' acc acc' h0 h1 v t e = e
  dot_same n k i q p (suc left) s s' acc acc' h0 h1 v t e =
      let a = t.same0 (i * k + p) (omega arith) in
      let b = t.same1 (p * n + q) (omega (arith, rows_in p n left)) in
      dot_same n k i q (p + 1) left s s' _ _ (omega arith) (omega (arith, rows_end p n left)) v t (
        ap (λ x. f.add x (f.mul (row_of k i s' p) (column_of n q s' p))) e
        ∙ ap (λ x. f.add acc (f.mul x (column_of n q s' p))) a
        ∙ ap (λ x. f.add acc (f.mul (row_of k i s p) x)) b)

  add_rows-Row :
      (n k i p left : ℕ) (s : S)
      → i * n + n ≤ limit
      → i * k + (p + left) ≤ l0
      → (p + left) * n ≤ l1
      → Row f io limit l0 l1 apart
          (i * n)
          0
          n
          (λ q. dot f (row_of k i s) (column_of n q s) p left (io.out s (i * n + q)))
          s
          (add_rows f io n k i p left s)
  unfolding add_rows dot
  add_rows-Row n k i p zero s h h0 h1 = record {
    sources = SameSources-refl f io limit l0 l1 apart s;
    values = λ q l u. refl;
    others = λ a l o. refl;
  }
  add_rows-Row n k i p (suc left) s h h0 h1 =
      let aip = io.src0 s (i * k + p) in
      let s1 = add_row f io aip (i * n) (p * n) 0 n s in
      let x =
        add_row-Row f io limit l0 l1 apart aip (i * n) (p * n) 0 n s (omega (arith, h))
          (omega (arith, rows_in p n left, h1)) in
      let rest =
        add_rows-Row n k i (p + 1) left s1 h (omega arith) (omega (arith, rows_end p n left)) in
      record {
        sources = SameSources-trans f io limit l0 l1 apart s s1 _ x.sources rest.sources;
        values = λ q l u.
            rest.values q l u
            ∙ dot_same n k i q (p + 1) left s s1 _ _ (omega arith)
                (omega (arith, rows_end p n left)) (omega arith) x.sources (x.values q l u);
        others = λ a l o. rest.others a l o ∙ x.others a l o;
      }

  -- Rows i to i + left - 1 of the product are there; the elements of other rows are as before.
  pub record Product (n k i left : ℕ) (s s' : S) : Type 0 where
    pub sources : SameSources f io limit l0 l1 apart s s'
    pub elements :
        (r q : ℕ)
        → i ≤ r
        → r < i + left
        → q < n
        → io.out s' (r * n + q) ≡ dot f (row_of k r s) (column_of n q s) 0 k f.zero_f
    pub others : (a : ℕ) → a < limit → (a < i * n) ⊎ ((i + left) * n ≤ a) → io.out s' a ≡ io.out s a

  pub gemm_from-Product :
      (n k i left : ℕ) (s : S)
      → (i + left) * n ≤ limit
      → (i + left) * k ≤ l0
      → k * n ≤ l1
      → Product n k i left s (gemm_from f io n k i left s)
  unfolding gemm_from
  gemm_from-Product n k i zero s h h0 h1 = record {
    sources = SameSources-refl f io limit l0 l1 apart s;
    elements = λ r q l u v. absurd (omega arith);
    others = λ a l o. refl;
  }
  gemm_from-Product n k i (suc left) s h h0 h1 =
      let w : i * n + n ≤ limit = omega (arith, rows_in i n left) in
      let z1 : (0 + k) * n ≤ l1 = omega (arith, ap (λ x. x * n) (zero_add k)) in
      let s1 = clear_row f io (i * n) 0 n s in
      let s2 = add_rows f io n k i 0 k s1 in
      let x = clear_row-Row f io limit l0 l1 apart (i * n) 0 n s (omega (arith, w)) in
      let y = add_rows-Row n k i 0 k s1 w (omega (arith, rows_in i k left)) z1 in
      let t = SameSources-trans f io limit l0 l1 apart s s1 s2 x.sources y.sources in
      let rest =
        gemm_from-Product n k (i + 1) left s2 (omega (arith, rows_end i n left))
          (omega (arith, rows_end i k left)) h1 in
      record {
        sources = SameSources-trans f io limit l0 l1 apart s s2 _ t rest.sources;
        elements = λ r q l u v. elim (eq_or_ne r i) [
          | inl e ↦
              subst
                (λ z.
                  io.out (gemm_from f io n k (i + 1) left s2) (z * n + q)
                  ≡ dot f (row_of k z s) (column_of n q s) 0 k f.zero_f)
                (sym e)
                (rest.others (i * n + q) (omega (arith, w)) (inl (omega (arith, row_end i n)))
                  ∙ y.values q (omega arith) (omega arith)
                  ∙ dot_same n k i q 0 k s s1 _ _ (omega (arith, rows_in i k left)) z1 v x.sources
                      (x.values q (omega arith) (omega arith)))
          | inr e ↦
              rest.elements r q (omega (arith, e)) (omega arith) v
              ∙ dot_same n k r q 0 k s s2 _ _ (omega (arith, row_within r i left k u)) z1 v t refl
        ];
        others = λ a l o.
            rest.others a l (omega (arith, o, row_end i n, rows_end i n left))
            ∙ y.others a l (omega (arith, o, w, rows_in i n left))
            ∙ x.others a l (omega (arith, o, rows_in i n left));
      }
