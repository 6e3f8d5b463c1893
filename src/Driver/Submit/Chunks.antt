-- ===== src/Driver/Submit/Chunks.antt =====
-- A pageable copy to the device is cut into commands that cover it exactly, in order.
use softgpu.Base.{
  ℕ, zero, suc, ◌+◌, ◌-◌, ◌*◌, ◌/◌, ◌^◌, ◌≡◌, ◌≢◌, ◌<◌, ◌≤◌, refl, sym, ap, subst, ◌∙◌, inl, inr,
  List, [], ◌∷◌, ◌++◌, false, not, ◌||◌, ◌==◌, min, add64, Bool-cases, ltb, lt→ltb, ge→ltb,
  lt_or_ge, arith,
}
use native.Mathlib.Nat.{div-add-mod, mod-lt, suc-mul, add-mul, mul_comm}
use softgpu.Errno.{Rc, ok}
use softgpu.Device.{Command}
use softgpu.Device.Runlist.{is_ok}
use softgpu.Driver.Staging.{Fence}
use softgpu.Abi.{SubmitArgs, SubmitOut}
use softgpu.Driver.Submit.{Parts, no_out, stage_h2d, copy_h2d}

-- The commands' targets are consecutive pieces of at most `chunk` bytes each, of n bytes in all from
-- `start` on.
unfoldable pub Covers : ℕ → ℕ → ℕ → List Command → Type 0
Covers chunk start n [] = n ≡ 0
Covers chunk start n (c ∷ cs) =
    (c.dst ≡ start)
    × (0 < c.size)
    × (c.size ≤ chunk)
    × (c.size ≤ n)
    × Covers chunk (start + c.size) (n - c.size) cs

-- `issued` lists what this thread's calls of `enqueue` appended to the rings.
record IsLogged {D : Type 0} (parts : Parts D) (issued : D → List Command) : Type 0 where
  appends :
      (e c : ℕ) (cmd : Command) (d : D) → issued (parts.enqueue e c cmd d).1 ≡ issued d ++ cmd ∷ []
  waits : (f : Fence) (d : D) → issued (parts.wait_fence f d).1 ≡ issued d
  acquires : (d : D) → issued (parts.acquire_slot d).1 ≡ issued d
  releases : (s : ℕ) (f : Fence) (d : D) → issued (parts.release_slot s f d) ≡ issued d
  fills : (s src n : ℕ) (d : D) → issued (parts.fill_slot s src n d) ≡ issued d
  counts_h2d : (n : ℕ) (d : D) → issued (parts.count_h2d n d) ≡ issued d
  counts_staged : (n : ℕ) (d : D) → issued (parts.count_staged n d) ≡ issued d

is_ok→ne : (rc : Rc) → is_ok rc ≡ false → rc ≢ ok
is_ok→ne rc h e = cc (h, ap is_ok e)

append_cons : {A : Type 0} (xs : List A) (x : A) (ys : List A) → (xs ++ x ∷ []) ++ ys ≡ xs ++ x ∷ ys
append_cons [] x ys = refl
append_cons (z ∷ xs) x ys = ap (λ l. z ∷ l) (append_cons xs x ys)

append_nil : {A : Type 0} (xs : List A) → xs ++ [] ≡ xs
append_nil [] = refl
append_nil (x ∷ xs) = ap (λ l. x ∷ l) (append_nil xs)

rounds : (n k : ℕ) → (n / k + 1) * k ≡ k * (n / k) + k
rounds n k = add-mul (n / k) 1 k ∙ omega (arith, mul_comm (n / k) k)

module _ {D : Type 0} (parts : Parts D) (issued : D → List Command)
    (logged : IsLogged parts issued) where
  -- What a call that succeeds appended.
  abbrev Appended : D → ℕ → ℕ → Rc × SubmitOut × D → Type 0
  Appended d start n r =
      (cmds : List Command) × (issued r.2 ≡ issued d ++ cmds) × Covers parts.chunk start n cmds

  -- One round that has a chunk to stage, and its slot's fence retired.
  round :
      (n : ℕ) (a : SubmitArgs) (off : ℕ) (out : SubmitOut) (d : D)
      → off < a.cmd.size
      → (stage_h2d parts (suc n) a off out d).0 ≡ ok
      → (d' : D) × (out' : SubmitOut) × (cmd : Command) × (cmd.dst ≡ add64 a.cmd.dst off)
        × (cmd.size ≡ min parts.chunk (a.cmd.size - off))
        × (issued d' ≡ issued d ++ cmd ∷ [])
        × (stage_h2d parts (suc n) a off out d
            ≡ stage_h2d parts n a (add64 off parts.chunk) out' d')
  unfolding stage_h2d
  round n a off out d l h =
      let ((s, prev), d1) = parts.acquire_slot d in
      let size = min parts.chunk (a.cmd.size - off) in
      let (rc, d2) = parts.wait_fence prev d1 in
      let d3 = parts.fill_slot s (add64 a.host_ptr off) size d2 in
      let cmd = record (a.cmd) {
        src0 = parts.slot_ptr s;
        dst = add64 a.cmd.dst off;
        size = size;
      } in
      let (f, d4) = parts.enqueue a.engine a.channel cmd d3 in
      let fence : Fence = record { engine = a.engine; channel = a.channel; value = f } in
      let before =
        logged.fills s (add64 a.host_ptr off) size d2 ∙ logged.waits prev d1 ∙ logged.acquires d in
      elim (Bool-cases (is_ok rc)) [
        | inr q ↦ absurd (is_ok→ne rc q (rw (lt→ltb off a.cmd.size l, q) at h))
        | inl q ↦ (
          parts.release_slot s fence d4,
          record no_out { fence = f },
          cmd,
          refl,
          refl,
          logged.releases s fence d4
              ∙ logged.appends a.engine a.channel cmd d3
              ∙ ap (λ x. x ++ cmd ∷ []) before,
          rw (lt→ltb off a.cmd.size l, q) refl,
        )
      ]

  stage_h2d_done :
      (n : ℕ) (a : SubmitArgs) (off : ℕ) (out : SubmitOut) (d : D)
      → a.cmd.size ≤ off
      → stage_h2d parts n a off out d ≡ (ok, out, d)
  unfolding stage_h2d
  stage_h2d_done zero a off out d h = refl
  stage_h2d_done (suc n) a off out d h = rw (ge→ltb off a.cmd.size h) refl

  stage_h2d-Appended :
      (n : ℕ) (a : SubmitArgs) (off : ℕ) (out : SubmitOut) (d : D)
      → 0 < parts.chunk
      → a.cmd.size + parts.chunk < 2 ^ 64
      → a.cmd.dst + a.cmd.size < 2 ^ 64
      → off ≤ a.cmd.size
      → a.cmd.size - off ≤ n * parts.chunk
      → (stage_h2d parts n a off out d).0 ≡ ok
      → Appended d (a.cmd.dst + off) (a.cmd.size - off) (stage_h2d parts n a off out d)
  unfolding stage_h2d Covers
  stage_h2d-Appended zero a off out d c k b l f h =
      ([], sym (append_nil (issued d)), omega (arith, f))
  stage_h2d-Appended (suc n) a off out d c k b l f h = elim (lt_or_ge off a.cmd.size) [
    | inr g ↦ rw (ge→ltb off a.cmd.size g) ([], sym (append_nil (issued d)), omega (arith, g))
    | inl g ↦
        let (d', out', cmd, dst, size, log, same) = round n a off out d g h in
        let total = a.cmd.size in
        let at : cmd.dst ≡ a.cmd.dst + off = dst ∙ omega (arith, b, g) in
        let next : add64 off parts.chunk ≡ off + parts.chunk = omega (arith, k, g) in
        let same' : stage_h2d parts (suc n) a off out d
            ≡ stage_h2d parts n a (off + parts.chunk) out' d' =
          same ∙ ap (λ x. stage_h2d parts n a x out' d') next in
        let h' = ap (λ x. x.0) (sym same') ∙ h in
        let (cs, app, cov) : Appended d' (a.cmd.dst + off + cmd.size) (total - off - cmd.size)
            (stage_h2d parts n a (off + parts.chunk) out' d') =
          elim (lt_or_ge (off + parts.chunk) total) [
            | inl j ↦
                let (cs, app, cov) =
                  stage_h2d-Appended n a (off + parts.chunk) out' d' c k b (omega (arith, j))
                    (omega (arith, f, suc-mul n parts.chunk)) h' in
                let whole : cmd.size ≡ parts.chunk = size ∙ omega (arith, j) in
                let start : a.cmd.dst + (off + parts.chunk) ≡ a.cmd.dst + off + cmd.size =
                  omega (arith, whole) in
                let left : total - (off + parts.chunk) ≡ total - off - cmd.size =
                  omega (arith, whole, j) in
                (
                  cs,
                  app,
                  subst (λ x. Covers parts.chunk x (total - off - cmd.size) cs) start
                      (subst (λ x. Covers parts.chunk (a.cmd.dst + (off + parts.chunk)) x cs) left
                        cov),
                )
            | inr j ↦
                let ended = stage_h2d_done n a (off + parts.chunk) out' d' j in
                (
                  [],
                  ap (λ x. issued x.2) ended ∙ sym (append_nil (issued d')),
                  omega (arith, size, j),
                )
          ] in
        (
          cmd ∷ cs,
          ap (λ x. issued x.2) same' ∙ app ∙ ap (λ x. x ++ cs) log ∙ append_cons (issued d) cmd cs,
          (at, omega (arith, size, c, g), omega (arith, size), omega (arith, size), cov),
        )
  ]

  copy_h2d-Appended :
      (a : SubmitArgs) (d : D)
      → 0 < parts.chunk
      → a.cmd.size + parts.chunk < 2 ^ 64
      → a.cmd.dst + a.cmd.size < 2 ^ 64
      → parts.pinned a.host_ptr a.cmd.size (parts.count_h2d a.cmd.size d) ≡ false
      → (copy_h2d parts a d).0 ≡ ok
      → Appended d a.cmd.dst a.cmd.size (copy_h2d parts a d)
  unfolding copy_h2d
  copy_h2d-Appended a d c k b p h =
      elim (Bool-cases ((a.host_ptr == 0) || not (parts.owns a.cmd.dst a.cmd.size d))) [
        | inl q ↦ cc (rw q at h)
        | inr q ↦
            let total = a.cmd.size in
            let d1 = parts.count_staged total (parts.count_h2d total d) in
            let n = total / parts.chunk + 1 in
            let fuel : total - 0 ≤ n * parts.chunk =
              omega
                (arith, div-add-mod total parts.chunk, mod-lt total c, rounds total parts.chunk) in
            let (cs, app, cov) =
              stage_h2d-Appended n a 0 no_out d1 c k b (omega arith) fuel (rw (q, p) at h) in
            let kept =
              logged.counts_staged total (parts.count_h2d total d) ∙ logged.counts_h2d total d in
            let start : a.cmd.dst + 0 ≡ a.cmd.dst = omega arith in
            let none_yet : total - 0 ≡ total = omega arith in
            rw (q, p)
              (
                cs,
                app ∙ ap (λ x. x ++ cs) kept,
                subst (λ x. Covers parts.chunk x total cs) start
                    (subst (λ x. Covers parts.chunk (a.cmd.dst + 0) x cs) none_yet cov),
              )
      ]

-- A driver's parts, with a list of the commands that this call has given to `enqueue`. What other threads
-- do while `enqueue`, `wait_fence` or `acquire_slot` waits is in the parts, and not on the list.
abbrev pub logging : {D : Type 0} → Parts D → Parts (D × List Command)
logging parts = record {
  num_engines = parts.num_engines;
  num_channels = parts.num_channels;
  chunk = parts.chunk;
  slots = parts.slots;
  sticky = λ d. parts.sticky d.0;
  published = λ e c d. parts.published e c d.0;
  owns = λ a n d. parts.owns a n d.0;
  pinned = λ a n d. parts.pinned a n d.0;
  count_submit = λ d. (parts.count_submit d.0, d.1);
  count_h2d = λ n d. (parts.count_h2d n d.0, d.1);
  count_d2h = λ n d. (parts.count_d2h n d.0, d.1);
  count_direct = λ n d. (parts.count_direct n d.0, d.1);
  count_staged = λ n d. (parts.count_staged n d.0, d.1);
  enqueue = λ e c cmd d. let (f, d') = parts.enqueue e c cmd d.0 in (f, (d', d.1 ++ cmd ∷ []));
  wait_fence = λ f d. let (rc, d') = parts.wait_fence f d.0 in (rc, (d', d.1));
  acquire_slot = λ d. let (s, d') = parts.acquire_slot d.0 in (s, (d', d.1));
  release_slot = λ s f d. (parts.release_slot s f d.0, d.1);
  fill_slot = λ s src n d. (parts.fill_slot s src n d.0, d.1);
  drain_slot = λ s dst n d. (parts.drain_slot s dst n d.0, d.1);
  slot_ptr = parts.slot_ptr;
}

logging-IsLogged : {D : Type 0} (parts : Parts D) → IsLogged (logging parts) (λ d. d.1)
logging-IsLogged parts = record {
  appends = λ e c cmd d. refl;
  waits = λ f d. refl;
  acquires = λ d. refl;
  releases = λ s f d. refl;
  fills = λ s src n d. refl;
  counts_h2d = λ n d. refl;
  counts_staged = λ n d. refl;
}

-- What a call returns and leaves, without the list.
abbrev pub unlogged : {D : Type 0} → Rc × SubmitOut × (D × List Command) → Rc × SubmitOut × D
unlogged (rc, o, (d, l)) = (rc, o, d)

stage_h2d-unlogged :
    {D : Type 0} (parts : Parts D) (n : ℕ) (a : SubmitArgs) (off : ℕ) (out : SubmitOut)
    (d : D × List Command)
    → unlogged (stage_h2d (logging parts) n a off out d) ≡ stage_h2d parts n a off out d.0
unfolding stage_h2d
stage_h2d-unlogged parts zero a off out d = refl
stage_h2d-unlogged parts (suc n) a off out d =
    let ((s, prev), d1) = parts.acquire_slot d.0 in
    let size = min parts.chunk (a.cmd.size - off) in
    let (rc, d2) = parts.wait_fence prev d1 in
    elim (Bool-cases (ltb off a.cmd.size)) [
      | inr q ↦ rw q refl
      | inl q ↦ elim (Bool-cases (is_ok rc)) [
        | inr k ↦ rw (q, k) refl
        | inl k ↦ rw (q, k) (stage_h2d-unlogged parts n a (add64 off parts.chunk) _ _)
      ]
    ]

-- A copy of pageable memory to the device that returns success, when the target and one more chunk end
-- below 2 ^ 64, has given `enqueue` commands that cover [dst, dst + size) exactly, in order, by pieces of
-- at most a chunk; whatever other threads do while the call waits. Keeping the list changes neither what
-- the call returns nor the state that it leaves.
pub copy_h2d-Covers :
    {D : Type 0} (parts : Parts D) (a : SubmitArgs) (d : D)
    → 0 < parts.chunk
    → a.cmd.size + parts.chunk < 2 ^ 64
    → a.cmd.dst + a.cmd.size < 2 ^ 64
    → parts.pinned a.host_ptr a.cmd.size (parts.count_h2d a.cmd.size d) ≡ false
    → (copy_h2d parts a d).0 ≡ ok
    → let logged = copy_h2d (logging parts) a (d, []) in
      (unlogged logged ≡ copy_h2d parts a d) × Covers parts.chunk a.cmd.dst a.cmd.size logged.2.1
unfolding copy_h2d
copy_h2d-Covers parts a d c k b p h =
    elim (Bool-cases ((a.host_ptr == 0) || not (parts.owns a.cmd.dst a.cmd.size d))) [
      | inl q ↦ cc (rw q at h)
      | inr q ↦
          let total = a.cmd.size in
          let d1 = parts.count_staged total (parts.count_h2d total d) in
          let same = stage_h2d-unlogged parts (total / parts.chunk + 1) a 0 no_out (d1, []) in
          let (cs, app, cov) =
            copy_h2d-Appended (logging parts) (λ x. x.1) (logging-IsLogged parts) a (d, []) c k b p
              (rw (q, p) (ap (λ x. x.0) same ∙ rw (q, p) at h)) in
          rw (q, p) (same, subst (Covers parts.chunk a.cmd.dst total) (sym (rw (q, p) at app)) cov)
    ]
