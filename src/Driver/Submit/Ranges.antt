-- ===== src/Driver/Submit/Ranges.antt =====
-- Which device memory a command may touch, and that do_submit has checked it.
use softgpu.Base.{
  ℕ, ◌*◌, ◌^◌, ◌≡◌, ◌≢◌, ◌<◌, refl, subst, inl, inr, List, [], ◌∷◌, All, Bool, true, false, not,
  ◌&&◌, ◌||◌, leb, ◌==◌, if◌then◌else◌, mul64, Bool-cases, eq_or_ne, ne→==, lt→leb, arith,
}
use softgpu.Errno.{Rc, ok, efault}
use softgpu.Device.{Command}
use softgpu.Device.Runlist.{is_ok}
use softgpu.Abi.{SubmitArgs}
use softgpu.Driver.Submit.{
  Parts, op_count, wrong_class, issue_if, copy_h2d, copy_d2h, dispatch, do_submit, floats,
}

-- The device memory of a command's operands, by address and length, as sg_ioctl.h describes the
-- opcodes: the sizes are the exact products.
abbrev pub ranges : Command → List (ℕ × ℕ)
ranges c =
    if (c.opcode == 1) || (c.opcode == 2)
    then (c.dst, c.size) ∷ []
    else if c.opcode == 3
    then (c.src0, c.size) ∷ []
    else if c.opcode == 4
    then (c.dst, c.size) ∷ (c.src0, c.size) ∷ []
    else if c.opcode == 5
    then (c.dst, c.arg0 * 4) ∷ (c.src0, c.arg0 * 4) ∷ (c.src1, c.arg0 * 4) ∷ []
    else if c.opcode == 6
    then (c.dst, c.arg0 * c.arg1 * 4)
      ∷ (c.src0, c.arg0 * c.arg2 * 4)
      ∷ (c.src1, c.arg2 * c.arg1 * 4)
      ∷ []
    else []

and_true : (a b : Bool) → (a && b) ≡ true → (a ≡ true) × (b ≡ true)
and_true true b h = (refl, h)
and_true false b h = cc

and3_true : (a b c : Bool) → (a && b && c) ≡ true → (a ≡ true) × (b ≡ true) × (c ≡ true)
and3_true true true c h = (refl, refl, h)
and3_true true false c h = cc
and3_true false b c h = cc

or_false : (a b : Bool) → (a || not b) ≡ false → b ≡ true
or_false true b h = cc
or_false false true h = refl
or_false false false h = cc

floats_exact : (x y : ℕ) → x * y * 4 < 2 ^ 64 → mul64 (mul64 x y) 4 ≡ x * y * 4
floats_exact x y h = omega (arith, h)

abbrev with_opcode : SubmitArgs → ℕ → SubmitArgs
with_opcode a op = record a { cmd = record (a.cmd) { opcode = op } }

module _ {D : Type 0} (parts : Parts D) where
  abbrev pub Owned : D → List (ℕ × ℕ) → Type 0
  Owned d l = All (λ r. parts.owns r.0 r.1 d ≡ true) l

  issue_if-ok :
      (allowed : Bool) (rc : Rc) (a : SubmitArgs) (d : D)
      → rc ≢ ok
      → (issue_if parts allowed rc a d).0 ≡ ok
      → allowed ≡ true
  unfolding issue_if
  issue_if-ok true rc a d n h = refl
  issue_if-ok false rc a d n h = absurd (n h)

  copy_h2d-owns :
      (a : SubmitArgs) (d : D)
      → (copy_h2d parts a d).0 ≡ ok
      → parts.owns a.cmd.dst a.cmd.size d ≡ true
  unfolding copy_h2d
  copy_h2d-owns a d h =
      elim (Bool-cases ((a.host_ptr == 0) || not (parts.owns a.cmd.dst a.cmd.size d))) [
        | inl q ↦ cc (rw q at h)
        | inr q ↦ or_false (a.host_ptr == 0) (parts.owns a.cmd.dst a.cmd.size d) q
      ]

  copy_d2h-owns :
      (a : SubmitArgs) (d : D)
      → (copy_d2h parts a d).0 ≡ ok
      → parts.owns a.cmd.src0 a.cmd.size d ≡ true
  unfolding copy_d2h
  copy_d2h-owns a d h =
      elim (Bool-cases ((a.host_ptr == 0) || not (parts.owns a.cmd.src0 a.cmd.size d))) [
        | inl q ↦ cc (rw q at h)
        | inr q ↦ or_false (a.host_ptr == 0) (parts.owns a.cmd.src0 a.cmd.size d) q
      ]

  vadd-owns :
      (a : SubmitArgs) (d : D)
      → a.cmd.arg0 * 4 < 2 ^ 64
      → (issue_if parts
          (parts.owns a.cmd.dst (mul64 a.cmd.arg0 4) d
            && parts.owns a.cmd.src0 (mul64 a.cmd.arg0 4) d
            && parts.owns a.cmd.src1 (mul64 a.cmd.arg0 4) d)
          efault
          a
          d).0
        ≡ ok
      → Owned d (
          (a.cmd.dst, a.cmd.arg0 * 4)
          ∷ (a.cmd.src0, a.cmd.arg0 * 4)
          ∷ (a.cmd.src1, a.cmd.arg0 * 4)
          ∷ [])
  vadd-owns a d v h =
      let n = mul64 a.cmd.arg0 4 in
      let size : n ≡ a.cmd.arg0 * 4 = omega (arith, v) in
      let all =
        issue_if-ok
          (parts.owns a.cmd.dst n d && parts.owns a.cmd.src0 n d && parts.owns a.cmd.src1 n d)
          efault a d (λ e. cc) h in
      let (x, y, z) =
        and3_true (parts.owns a.cmd.dst n d) (parts.owns a.cmd.src0 n d) (parts.owns a.cmd.src1 n d)
          all in
      subst
        (λ k.
          (parts.owns a.cmd.dst k d ≡ true)
          × ((parts.owns a.cmd.src0 k d ≡ true) × ((parts.owns a.cmd.src1 k d ≡ true) × Unit)))
        size (x, (y, (z, tt)))

  gemm-owns :
      (a : SubmitArgs) (d : D)
      → a.cmd.arg0 * a.cmd.arg1 * 4 < 2 ^ 64
      → a.cmd.arg0 * a.cmd.arg2 * 4 < 2 ^ 64
      → a.cmd.arg2 * a.cmd.arg1 * 4 < 2 ^ 64
      → (issue_if parts
          (parts.owns a.cmd.src0 (floats parts a.cmd.arg0 a.cmd.arg2) d
            && parts.owns a.cmd.src1 (floats parts a.cmd.arg2 a.cmd.arg1) d
            && parts.owns a.cmd.dst (floats parts a.cmd.arg0 a.cmd.arg1) d)
          efault
          a
          d).0
        ≡ ok
      → Owned d (
          (a.cmd.dst, a.cmd.arg0 * a.cmd.arg1 * 4)
          ∷ (a.cmd.src0, a.cmd.arg0 * a.cmd.arg2 * 4)
          ∷ (a.cmd.src1, a.cmd.arg2 * a.cmd.arg1 * 4)
          ∷ [])
  gemm-owns a d mn mk kn h =
      let all =
        issue_if-ok
          (parts.owns a.cmd.src0 (floats parts a.cmd.arg0 a.cmd.arg2) d
            && parts.owns a.cmd.src1 (floats parts a.cmd.arg2 a.cmd.arg1) d
            && parts.owns a.cmd.dst (floats parts a.cmd.arg0 a.cmd.arg1) d)
          efault a d (λ e. cc) h in
      let (x, y, z) =
        and3_true (parts.owns a.cmd.src0 (floats parts a.cmd.arg0 a.cmd.arg2) d)
          (parts.owns a.cmd.src1 (floats parts a.cmd.arg2 a.cmd.arg1) d)
          (parts.owns a.cmd.dst (floats parts a.cmd.arg0 a.cmd.arg1) d) all in
      (
        subst (λ k. parts.owns a.cmd.dst k d ≡ true) (floats_exact a.cmd.arg0 a.cmd.arg1 mn) z,
        (
          subst (λ k. parts.owns a.cmd.src0 k d ≡ true) (floats_exact a.cmd.arg0 a.cmd.arg2 mk) x,
          (
            subst (λ k. parts.owns a.cmd.src1 k d ≡ true) (floats_exact a.cmd.arg2 a.cmd.arg1 kn) y,
            tt,
          ),
        ),
      )

  dispatch-Owned :
      (a : SubmitArgs) (d : D)
      → a.cmd.arg0 * 4 < 2 ^ 64
      → a.cmd.arg0 * a.cmd.arg1 * 4 < 2 ^ 64
      → a.cmd.arg0 * a.cmd.arg2 * 4 < 2 ^ 64
      → a.cmd.arg2 * a.cmd.arg1 * 4 < 2 ^ 64
      → (dispatch parts a d).0 ≡ ok
      → Owned d (ranges a.cmd)
  unfolding dispatch
  dispatch-Owned a d v mn mk kn h = elim (eq_or_ne a.cmd.opcode 1) [
    | inl q ↦ rw q (
      issue_if-ok (parts.owns a.cmd.dst a.cmd.size d) efault (with_opcode a 1) d (λ e. cc)
          (rw q at h),
      tt,
    )
    | inr q1 ↦ elim (eq_or_ne a.cmd.opcode 2) [
      | inl q ↦ rw q (copy_h2d-owns (with_opcode a 2) d (rw q at h), tt)
      | inr q2 ↦ elim (eq_or_ne a.cmd.opcode 3) [
        | inl q ↦ rw q (copy_d2h-owns (with_opcode a 3) d (rw q at h), tt)
        | inr q3 ↦ elim (eq_or_ne a.cmd.opcode 4) [
          | inl q ↦
              let both =
                issue_if-ok
                  (parts.owns a.cmd.dst a.cmd.size d && parts.owns a.cmd.src0 a.cmd.size d) efault
                  (with_opcode a 4) d (λ e. cc) (rw q at h) in
              let (x, y) =
                and_true (parts.owns a.cmd.dst a.cmd.size d) (parts.owns a.cmd.src0 a.cmd.size d)
                  both in
              rw q (x, (y, tt))
          | inr q4 ↦ elim (eq_or_ne a.cmd.opcode 5) [
            | inl q ↦ rw q (vadd-owns (with_opcode a 5) d v (rw q at h))
            | inr q5 ↦ elim (eq_or_ne a.cmd.opcode 6) [
              | inl q ↦ rw q (gemm-owns (with_opcode a 6) d mn mk kn (rw q at h))
              | inr q6 ↦
                  rw
                    (
                      ne→== a.cmd.opcode 1 q1,
                      ne→== a.cmd.opcode 2 q2,
                      ne→== a.cmd.opcode 3 q3,
                      ne→== a.cmd.opcode 4 q4,
                      ne→== a.cmd.opcode 5 q5,
                      ne→== a.cmd.opcode 6 q6,
                    )
                    tt
            ]
          ]
        ]
      ]
    ]
  ]

  -- A command that do_submit accepts, whose operands' exact sizes fit in 64 bits, has operands that `owns`
  -- has all let through.
  pub do_submit-Owned :
      (a : SubmitArgs) (d : D)
      → a.cmd.arg0 * 4 < 2 ^ 64
      → a.cmd.arg0 * a.cmd.arg1 * 4 < 2 ^ 64
      → a.cmd.arg0 * a.cmd.arg2 * 4 < 2 ^ 64
      → a.cmd.arg2 * a.cmd.arg1 * 4 < 2 ^ 64
      → (do_submit parts a d).0 ≡ ok
      → Owned (parts.count_submit d) (ranges a.cmd)
  unfolding do_submit
  do_submit-Owned a d v mn mk kn h =
      elim (Bool-cases
        (leb op_count a.cmd.opcode || not (a.cmd.flags == 0) || not (a.cmd.reserved == 0))) [
          | inl q ↦ cc (rw q at h)
          | inr q1 ↦
              elim (Bool-cases
                (leb parts.num_engines a.engine || leb parts.num_channels a.channel)) [
                  | inl q ↦ cc (rw (q1, q) at h)
                  | inr q2 ↦ elim (Bool-cases (wrong_class parts a)) [
                    | inl q ↦ cc (rw (q1, q2, q) at h)
                    | inr q3 ↦ elim (Bool-cases (is_ok (parts.sticky d))) [
                      | inr q ↦ cc (rw (q1, q2, q3, q) at h)
                      | inl q ↦
                          dispatch-Owned a (parts.count_submit d) v mn mk kn
                            (rw (q1, q2, q3, q) at h)
                    ]
                  ]
                ]
        ]

  -- The sizes of a GEMM wrap: a product of 2 ^ 31 x 2 ^ 31 matrices is accepted at any addresses at
  -- which the driver takes no bytes at all to be inside an allocation.
  pub do_submit_wraps :
      (a : SubmitArgs) (d : D)
      → a.cmd.opcode ≡ 6
      → a.cmd.flags ≡ 0
      → a.cmd.reserved ≡ 0
      → a.cmd.arg0 ≡ 2 ^ 31
      → a.cmd.arg1 ≡ 2 ^ 31
      → a.cmd.arg2 ≡ 2 ^ 31
      → a.engine ≡ 0
      → 0 < parts.num_engines
      → a.channel < parts.num_channels
      → parts.sticky d ≡ ok
      → Owned (parts.count_submit d) ((a.cmd.src0, 0) ∷ (a.cmd.src1, 0) ∷ (a.cmd.dst, 0) ∷ [])
      → (do_submit parts a d).0 ≡ ok
  unfolding do_submit dispatch issue_if
  do_submit_wraps a d op fl re m n k e ne nc st o =
      let first : leb parts.num_engines 0 ≡ false = lt→leb parts.num_engines 0 ne in
      let second = lt→leb parts.num_channels a.channel nc in
      rw (op, fl, re, e, first, second, st, m, n, k, o.0, o.1.0, o.1.1.0) refl
