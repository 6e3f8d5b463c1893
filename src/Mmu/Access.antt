-- ===== src/Mmu/Access.antt =====
-- src/device/mmu.cpp: translation by the engines, through the TLB and the page-table walk.
use softgpu.Base.{
  ℕ, ◌+◌, List, [], ◌∷◌, Option, none, some, Bool, not, ◌&&◌, ◌||◌, ltb, leb, ◌==◌, if◌then◌else◌,
  add64, u64_max, has, with_flag, update, set,
}
use softgpu.Mmu.{
  Mmu, TlbEntry, Translate, TranslateStatus, translated, not_present, host_resident, present,
  in_vram, dirty, accessed, vpn_of, pte_pa, is_resident, no_vpn, store_pte, max_engines,
}

-- The slot that `tlb_insert` fills: the first empty one, or else the least recently used.
unfoldable pub pick_slot : List TlbEntry → ℕ → ℕ → ℕ → ℕ
pick_slot [] i oldest slot = slot
pick_slot (e ∷ es) i oldest slot =
    let older = ltb e.last_used oldest in
    let rest =
      pick_slot es (i + 1) (if older then e.last_used else oldest) (if older then i else slot) in
    if e.vpn == no_vpn then i else rest

unfoldable pub store_entry : Mmu → ℕ → ℕ → TlbEntry → Mmu
store_entry m engine i e = record m { tlb = update m.tlb engine (set (m.tlb engine) i e) }

unfoldable pub tick : Mmu → ℕ → Mmu
tick m engine = record m { clock = update m.clock engine (add64 (m.clock engine) 1) }

-- The new entry's tag: empty unless the page is still resident and the generation unmoved.
unfoldable pub published_vpn : Mmu → ℕ → ℕ → ℕ
published_vpn m gen vpn =
    if not (is_resident (m.pte vpn)) then no_vpn else if m.tlb_gen == gen then vpn else no_vpn

-- Mmu::tlb_insert
unfoldable pub tlb_insert : Mmu → ℕ → ℕ → ℕ → Mmu
unfolding store_entry tick pick_slot published_vpn
tlb_insert m engine vpn pte =
    let i = pick_slot (m.tlb engine) 0 u64_max 0 in
    tick
      (store_entry m engine i
        (record { vpn = published_vpn m m.tlb_gen vpn; pte = pte; last_used = m.clock engine }))
      engine

-- `pte | PTE_ACCESSED | (write ? PTE_DIRTY : 0)`
unfoldable pub touch : Bool → ℕ → ℕ
touch write pte = if write then with_flag dirty (with_flag accessed pte) else with_flag accessed pte

abbrev pub is_touched : Bool → ℕ → Bool
is_touched write pte = has accessed pte && (not write || has dirty pte)

-- `fetch_or` with the wanted bits, when one of them is missing.
unfoldable pub touch_page : Mmu → ℕ → Bool → Mmu
unfolding store_pte touch
touch_page m vpn write =
    if is_touched write (m.pte vpn) then m else store_pte m vpn (touch write (m.pte vpn))

-- The word that the walk goes on with.
unfoldable pub touched : Bool → ℕ → ℕ
unfolding touch
touched write pte = if is_touched write pte then pte else touch write pte

abbrev refuse : TranslateStatus → Translate
refuse s = record { status = s; pa = 0 }

-- Mmu::walk
unfoldable pub walk : Mmu → ℕ → ℕ → Bool → Translate × Mmu
unfolding tlb_insert touch_page touched
walk m engine va write =
    let vpn = vpn_of va in
    let pte = m.pte vpn in
    let pte' = touched write pte in
    let m' = touch_page m vpn write in
    if leb m.npages vpn
    then (refuse not_present, m)
    else if not (has present pte)
    then (refuse not_present, m)
    else if not (has in_vram pte)
    then (refuse host_resident, m)
    else if not (has present pte')
    then (refuse not_present, m')
    else if not (has in_vram pte')
    then (refuse host_resident, m')
    else (record { status = translated; pa = pte_pa pte' }, tlb_insert m' engine vpn pte')

-- The first entry with the tag, and its index.
unfoldable pub probe : ℕ → List TlbEntry → ℕ → Option (ℕ × TlbEntry)
probe vpn [] i = none
probe vpn (e ∷ es) i = if e.vpn == vpn then some (i, e) else probe vpn es (i + 1)

-- The page table's DIRTY bit on a write through an entry that is clean.
unfoldable pub mark_dirty : Mmu → ℕ → Bool → Mmu
unfolding store_pte
mark_dirty m vpn flag =
    if flag && ltb vpn m.npages then store_pte m vpn (with_flag dirty (m.pte vpn)) else m

-- The body of `translate`'s loop for an entry that it takes; `first` is `write && !(pte & DIRTY)`.
unfoldable pub take_entry : Mmu → ℕ → ℕ → Bool → ℕ → TlbEntry → Translate × Mmu
unfolding store_entry tick mark_dirty
take_entry m engine va first i e =
    let pte' = if first then with_flag dirty e.pte else e.pte in
    let m' =
      tick
        (store_entry (mark_dirty m (vpn_of va) first) engine i
          (record { vpn = e.vpn; pte = pte'; last_used = m.clock engine }))
        engine in
    (
      record { status = translated; pa = pte_pa pte' },
      record m' { tlb_hits = update m.tlb_hits engine (add64 (m.tlb_hits engine) 1) },
    )

unfoldable pub hit : Mmu → ℕ → ℕ → Bool → ℕ → TlbEntry → Translate × Mmu
unfolding take_entry
hit m engine va write i e = take_entry m engine va (write && not (has dirty e.pte)) i e

unfoldable pub miss : Mmu → ℕ → ℕ → Bool → Translate × Mmu
unfolding walk
miss m engine va write =
    walk (record m { tlb_misses = update m.tlb_misses engine (add64 (m.tlb_misses engine) 1) })
      engine va write

unfoldable pub through : Mmu → ℕ → ℕ → Bool → Option (ℕ × TlbEntry) → Translate × Mmu
unfolding hit miss
through m engine va write none = miss m engine va write
through m engine va write (some (i, e)) =
    if is_resident e.pte then hit m engine va write i e else miss m engine va write

-- Mmu::translate
unfoldable pub translate : Mmu → ℕ → ℕ → Bool → Translate × Mmu
unfolding probe through
translate m engine va write = through m engine va write (probe (vpn_of va) (m.tlb engine) 0)

-- Mmu::reset_stats
unfoldable pub reset_stats : Mmu → Mmu
reset_stats m = record m {
  tlb_hits = λ e. if ltb e max_engines then 0 else m.tlb_hits e;
  tlb_misses = λ e. if ltb e max_engines then 0 else m.tlb_misses e;
}
