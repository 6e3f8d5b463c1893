-- ===== src/Driver/Release/Deferred.antt =====
-- Freed memory is not recycled while a command that was published before may still use it.
use softgpu.Base.{
  ℕ, ◌≡◌, ◌<◌, refl, sym, ap, subst, ◌∙◌, inl, inr, List, [], ◌∷◌, ◌++◌, Option, none, some, false,
  All, Bool-cases, arith,
}
use softgpu.Errno.{ok}
use softgpu.OrderedMap.{find, erase}
use softgpu.Driver.Fences.{Rings, retired, snapshot_puts, all_retired}
use softgpu.Driver.Fences.Snapshots.{all_retired_iff}
use softgpu.Driver.Managed.{Host}
use softgpu.Driver.Release.{
  Pending, k_vram, k_managed, k_pin, Allocation, Heap, recycle, recycle_managed, reclaim_list,
  reclaim, released, free_found, free, defer_unpin,
}

-- The entry is in the list.
abbrev pub Has : Pending → List Pending → Type 0
Has p l = (xs : List Pending) × (ys : List Pending) × (l ≡ xs ++ p ∷ ys)

append_assoc : {A : Type 0} (xs ys zs : List A) → (xs ++ ys) ++ zs ≡ xs ++ (ys ++ zs)
append_assoc [] ys zs = refl
append_assoc (x ∷ xs) ys zs = ap (λ l. x ∷ l) (append_assoc xs ys zs)

-- A later call.
pub data Later : Type 0 where
  reclaims : Later
  frees : ℕ → Later
  unpins : ℕ → ℕ → Later

module _ {H : Type 0} (os : Host H) (release_host : ℕ → ℕ → H → H) where
  recycle-rings : (d : Heap H) (p : Pending) → (recycle os release_host d p).rings ≡ d.rings
  unfolding recycle recycle_managed
  recycle-rings d p =
      elim p.kind as (λ k. (recycle os release_host d (record p { kind = k })).rings ≡ d.rings) [
        | k_pin ↦ refl
        | k_vram ↦ refl
        | k_managed ↦ refl
      ]

  -- An entry whose commands have not all retired stays in the queue.
  reclaim_list-Has :
      (xs ys : List Pending) (p : Pending) (d : Heap H)
      → all_retired d.rings p.fence ≡ false
      → Has p (reclaim_list os release_host (xs ++ p ∷ ys) d).0
  unfolding reclaim_list
  reclaim_list-Has [] ys p d h = rw h ([], (reclaim_list os release_host ys d).0, refl)
  reclaim_list-Has (x ∷ xs) ys p d h = elim (Bool-cases (all_retired d.rings x.fence)) [
    | inl q ↦
        let same = ap (λ r. all_retired r p.fence) (recycle-rings d x) in
        rw q (reclaim_list-Has xs ys p (recycle os release_host d x) (same ∙ h))
    | inr q ↦
        let (as', bs, e) = reclaim_list-Has xs ys p d h in rw q (x ∷ as', bs, ap (λ l. x ∷ l) e)
  ]

  reclaim-Has :
      (d : Heap H) (p : Pending)
      → Has p d.pending
      → all_retired d.rings p.fence ≡ false
      → Has p (reclaim os release_host d).pending
  unfolding reclaim
  reclaim-Has d p (xs, ys, e) h =
      subst (λ l. Has p (reclaim_list os release_host l d).0) (sym e) (reclaim_list-Has xs ys p d h)

  recycle-pending : (d : Heap H) (p : Pending) → (recycle os release_host d p).pending ≡ d.pending
  unfolding recycle recycle_managed
  recycle-pending d p =
      elim p.kind
        as (λ k. (recycle os release_host d (record p { kind = k })).pending ≡ d.pending) [
          | k_pin ↦ refl
          | k_vram ↦ refl
          | k_managed ↦ refl
        ]

  -- A later entry is put behind.
  Has-append : (p x : Pending) (l : List Pending) → Has p l → Has p (l ++ x ∷ [])
  Has-append p x l (xs, ys, e) =
      (xs, ys ++ x ∷ [], ap (λ k. k ++ x ∷ []) e ∙ append_assoc xs (p ∷ ys) (x ∷ []))

  free_found-Has :
      (d : Heap H) (addr : ℕ) (o : Option Allocation) (p : Pending)
      → Has p d.pending
      → Has p (free_found os release_host d addr o).1.pending
  unfolding free_found
  free_found-Has d addr none p h = h
  free_found-Has d addr (some al) p h =
      let d' = record d { allocs = erase addr d.allocs } in
      let x = released os release_host d addr al in
      elim (Bool-cases (all_retired d.rings x.fence)) [
        | inl q ↦ rw q (subst (Has p) (sym (recycle-pending d' x)) h)
        | inr q ↦ rw q (Has-append p x d.pending h)
      ]

  -- What the driver does later, each with the rings as they are then: SG_IOC_FREE, reclaim_locked, and
  -- the entry of SG_IOC_UNPIN.
  unfoldable pub run_later : Heap H → List (Rings × Later) → Heap H
  run_later d [] = d
  run_later d ((r, reclaims) ∷ l) = run_later (reclaim os release_host (record d { rings = r })) l
  run_later d ((r, frees addr) ∷ l) =
      run_later (free os release_host (record d { rings = r }) addr).1 l
  run_later d ((r, unpins addr size) ∷ l) =
      run_later (defer_unpin os release_host (record d { rings = r }) addr size) l

  run_later-Has :
      (d : Heap H) (p : Pending) (l : List (Rings × Later))
      → Has p d.pending
      → All (λ x. all_retired x.0 p.fence ≡ false) l
      → Has p (run_later d l).pending
  unfolding run_later free defer_unpin
  run_later-Has d p [] h k = h
  run_later-Has d p ((r, reclaims) ∷ l) h k =
      let d' = record d { rings = r } in
      run_later-Has (reclaim os release_host d') p l (reclaim-Has d' p h k.0) k.1
  run_later-Has d p ((r, frees addr) ∷ l) h k =
      let d0 = reclaim os release_host (record d { rings = r }) in
      let kept = reclaim-Has (record d { rings = r }) p h k.0 in
      let o = find addr d0.allocs in
      run_later-Has (free_found os release_host d0 addr o).1 p l (free_found-Has d0 addr o p kept)
        k.1
  run_later-Has d p ((r, unpins addr size) ∷ l) h k =
      run_later-Has (defer_unpin os release_host (record d { rings = r }) addr size) p l
        (Has-append p _ d.pending h) k.1

  -- A command that was published before has not retired.
  not_retired :
      (r r' : Rings) (e c : ℕ)
      → r'.dev.num_engines ≡ r.dev.num_engines
      → r'.dev.num_channels ≡ r.dev.num_channels
      → e < r.dev.num_engines
      → c < r.dev.num_channels
      → retired r' e c < r.published e c
      → all_retired r' (snapshot_puts r) ≡ false
  not_retired r r' e c n m i j h = elim (Bool-cases (all_retired r' (snapshot_puts r))) [
    | inr q ↦ q
    | inl q ↦ absurd (omega (arith, (all_retired_iff r r' n m).0 q e c i j, h))
  ]

  -- A list of rings, each short of what was published on the channel at the time of the free.
  abbrev pub Short : Rings → ℕ → ℕ → List (Rings × Later) → Type 0
  Short r e c l =
      All
        (λ x.
          (x.0.dev.num_engines ≡ r.dev.num_engines)
          × (x.0.dev.num_channels ≡ r.dev.num_channels)
          × (retired x.0 e c < r.published e c))
        l

  Short-all_retired :
      (r : Rings) (e c : ℕ) (l : List (Rings × Later))
      → e < r.dev.num_engines
      → c < r.dev.num_channels
      → Short r e c l
      → All (λ x. all_retired x.0 (snapshot_puts r) ≡ false) l
  Short-all_retired r e c [] i j h = tt
  Short-all_retired r e c (x ∷ l) i j h =
      (not_retired r x.0 e c h.0.0 h.0.1 i j h.0.2, Short-all_retired r e c l i j h.1)

  -- SG_IOC_FREE of a live allocation while some channel has not retired what was published on it: the
  -- allocation is no longer owned, its memory is left as it is, and it is queued behind what was queued
  -- before; and it is still queued after any sequence of frees, reclaims and entries of SG_IOC_UNPIN, as
  -- long as each of them finds that channel short of what was published at the free.
  pub reclaim-free :
      (d : Heap H) (addr : ℕ) (al : Allocation) (e c : ℕ) (l : List (Rings × Later))
      → let d0 = reclaim os release_host d in
        find addr d0.allocs ≡ some al
        → e < d0.rings.dev.num_engines
        → c < d0.rings.dev.num_channels
        → retired d0.rings e c < d0.rings.published e c
        → Short d0.rings e c l
        → let (rc, d1) = free os release_host d addr in
          let p = released os release_host d0 addr al in
          (rc ≡ ok)
          × (d1.mem ≡ d0.mem)
          × (d1.allocs ≡ erase addr d0.allocs)
          × (d1.pending ≡ d0.pending ++ p ∷ [])
          × Has p (run_later d1 l).pending
  unfolding free free_found
  reclaim-free d addr al e c l f i j g h =
      let d0 = reclaim os release_host d in
      let p = released os release_host d0 addr al in
      let now = not_retired d0.rings d0.rings e c refl refl i j g in
      let d1 = record d0 { allocs = erase addr d0.allocs; pending = d0.pending ++ p ∷ [] } in
      rw (f, now)
        (
          refl,
          refl,
          refl,
          refl,
          run_later-Has d1 p l (d0.pending, [], refl) (Short-all_retired d0.rings e c l i j h),
        )
