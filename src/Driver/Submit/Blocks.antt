-- ===== src/Driver/Submit/Blocks.antt =====
-- The parts that the driver's allocations, pins and rings decide, and what `owns` means.
use softgpu.Base.{
  ℕ, ◌+◌, ◌*◌, ◌^◌, ◌≡◌, ◌≤◌, ◌<◌, List, [], ◌∷◌, All, some, true, arith, Option-cases, inl, inr,
  suc,
}
use softgpu.Errno.{ok}
use softgpu.OrderedMap.{find, before_upper, Ascending}
use softgpu.Abi.{SubmitArgs}
use softgpu.Driver.Fences.{sticky}
use softgpu.Driver.Pins.{pinned}
use softgpu.Driver.Release.{Heap, Allocation, owns}
use softgpu.Driver.Submit.{Parts, do_submit}
use softgpu.Driver.Submit.Ranges.{Owned, ranges, do_submit-Owned}

-- Where the driver's state holds what `owns`, `pinned`, `sticky` and the published PUT read.
pub record View (H : Type 0) (D : Type 0) : Type 0 where
  pub heap : D → Heap H
  pub pins : D → List (ℕ × ℕ)

unfoldable pub driver_parts : {H : Type 0} {D : Type 0} → View H D → Parts D → Parts D
driver_parts view parts = record parts {
  sticky = λ d. sticky (view.heap d).rings.dev;
  published = λ e c d. (view.heap d).rings.published e c;
  owns = λ a n d. owns (view.heap d) a n;
  pinned = λ a n d. pinned (view.pins d) a n;
}

-- The range is inside one live allocation.
abbrev pub InBlock : List (ℕ × Allocation) → ℕ → ℕ → Type 0
InBlock allocs addr n =
    (start : ℕ) × (al : Allocation) × (find start allocs ≡ some al)
    × (start ≤ addr)
    × (addr + n ≤ start + al.size)

before_upper-find :
    (lo addr s : ℕ) (al : Allocation) (m : List (ℕ × Allocation))
    → Ascending lo m
    → before_upper addr m ≡ some (s, al)
    → (find s m ≡ some al) × (lo ≤ s) × (s ≤ addr)
unfolding before_upper find
before_upper-find lo addr s al [] p e = cc
before_upper-find lo addr s al ((j, k) ∷ m) p e = elim (Option-cases (before_upper addr m)) [
  | inl q ↦ ground (arith, q, e, p)
  | inr ((i, l), q) ↦
      let r = before_upper-find (suc j) addr i l m p.1 q in ground (arith, q, e, p, r)
]

owns-InBlock :
    {H : Type 0} (d : Heap H) (addr n : ℕ)
    → Ascending 0 d.allocs
    → owns d addr n ≡ true
    → InBlock d.allocs addr n
unfolding owns
owns-InBlock d addr n p t = elim (Option-cases (before_upper addr d.allocs)) [
  | inl q ↦ ground (arith, q, t)
  | inr ((s, al), q) ↦
      let r = before_upper-find 0 addr s al d.allocs p q in
      (s, al, r.0, r.2, ground (arith, q, t, r))
]

module _ {H : Type 0} {D : Type 0} (view : View H D) (parts : Parts D) where
  in_blocks :
      (d : D) (l : List (ℕ × ℕ))
      → Ascending 0 (view.heap d).allocs
      → Owned (driver_parts view parts) d l
      → All (λ r. InBlock (view.heap d).allocs r.0 r.1) l
  unfolding driver_parts
  in_blocks d [] p h = tt
  in_blocks d (r ∷ l) p h = (owns-InBlock (view.heap d) r.0 r.1 p h.0, in_blocks d l p h.1)

  -- A command that do_submit accepts, whose operands' exact sizes fit in 64 bits, has each of its operands
  -- inside one live allocation of the table, whose keys ascend; the allocations are those when the request
  -- is counted.
  pub do_submit-InBlock :
      (a : SubmitArgs) (d : D)
      → a.cmd.arg0 * 4 < 2 ^ 64
      → a.cmd.arg0 * a.cmd.arg1 * 4 < 2 ^ 64
      → a.cmd.arg0 * a.cmd.arg2 * 4 < 2 ^ 64
      → a.cmd.arg2 * a.cmd.arg1 * 4 < 2 ^ 64
      → Ascending 0 (view.heap (parts.count_submit d)).allocs
      → (do_submit (driver_parts view parts) a d).0 ≡ ok
      → All (λ r. InBlock (view.heap (parts.count_submit d)).allocs r.0 r.1) (ranges a.cmd)
  do_submit-InBlock a d v mn mk kn p h =
      in_blocks (parts.count_submit d) (ranges a.cmd) p
        (unfold driver_parts in do_submit-Owned (driver_parts view parts) a d v mn mk kn h)
