-- ===== src/Driver/Faults/Streams.antt =====
-- The stream that match_stream picks.
use softgpu.Base.{
  ℕ, zero, suc, ◌+◌, ◌≤◌, ◌<◌, ◌≡◌, ◌⊎◌, refl, sym, subst, inl, inr, Bool, true, false, not, ◌&&◌,
  ltb, ◌==◌, if◌then◌else◌, Bool-cases, arith,
}
use softgpu.Driver.Faults.{FaultStream, fault_streams, Service, match_from, match_stream}

-- Does the stream expect the page next?
abbrev pub expects : FaultStream → ℕ → Bool
expects s va = not (s.used == 0) && (s.next == va)

-- The choice among the streams below an index: one that expects the page, or the least recently used.
abbrev pub Chosen : (ℕ → FaultStream) → ℕ → ℕ → ℕ × Bool → Type 0
Chosen set va n r =
    (r.0 < n)
    × (r.1 ≡ true → expects (set r.0) va ≡ true)
    × (r.1 ≡ false
        → (k : ℕ) → k < n
        → ((set r.0).used ≤ (set k).used) × (expects (set k) va ≡ false))

-- The index of the less recently used of two streams.
abbrev older : (ℕ → FaultStream) → ℕ → ℕ → ℕ
older set i lru = if ltb (set i).used (set lru).used then i else lru

match_from_hit :
    (set : ℕ → FaultStream) (va i n lru : ℕ)
    → expects (set i) va ≡ true
    → match_from set va i (suc n) lru ≡ (i, true)
unfolding match_from
match_from_hit set va i n lru q = rw q refl

match_from_miss :
    (set : ℕ → FaultStream) (va i n lru : ℕ)
    → expects (set i) va ≡ false
    → match_from set va i (suc n) lru ≡ match_from set va (i + 1) n (older set i lru)
unfolding match_from
match_from_miss set va i n lru q = rw q refl

-- The least recently used of the streams below an index, none of which expects the page.
abbrev Oldest : (ℕ → FaultStream) → ℕ → ℕ → ℕ → Type 0
Oldest set va i lru =
    (k : ℕ) → k < i → ((set lru).used ≤ (set k).used) × (expects (set k) va ≡ false)

below_suc : (k i : ℕ) → k < i + 1 → (k ≡ i) ⊎ (k < i)
below_suc k i l = elim (Bool-cases (ltb k i)) [
  | inl q ↦ inr (ground (arith, q))
  | inr q ↦ inl (ground (arith, q))
]

older-used :
    (set : ℕ → FaultStream) (i lru : ℕ)
    → ((set (older set i lru)).used ≤ (set i).used)
      × ((set (older set i lru)).used ≤ (set lru).used)
older-used set i lru = elim (Bool-cases (ltb (set i).used (set lru).used)) [
  | inl q ↦ rw q (ground (arith, q), ground (arith, q))
  | inr q ↦ rw q (ground (arith, q), ground (arith, q))
]

older-Oldest :
    (set : ℕ → FaultStream) (va i lru : ℕ)
    → expects (set i) va ≡ false
    → Oldest set va i lru
    → Oldest set va (i + 1) (older set i lru)
older-Oldest set va i lru q h k l = elim (below_suc k i l) [
  | inl e ↦
      subst (λ j. ((set (older set i lru)).used ≤ (set j).used) × (expects (set j) va ≡ false))
        (sym e) ((older-used set i lru).0, q)
  | inr lt' ↦
      let o = h k lt' in
      (let u = (older-used set i lru).1 in let v = o.0 in omega (arith, u, v), o.1)
]

-- The loop from stream i on, with the least recently used of those before it.
match_from-Chosen :
    (set : ℕ → FaultStream) (va m i n lru : ℕ)
    → m ≡ i + n
    → lru < m
    → Oldest set va i lru
    → Chosen set va m (match_from set va i n lru)
unfolding match_from
match_from-Chosen set va m i zero lru e b h =
    (b, λ q. ground (arith, q), λ q k l. h k (omega arith))
match_from-Chosen set va m i (suc n) lru e b h = elim (Bool-cases (expects (set i) va)) [
  | inl q ↦
      subst (λ r. Chosen set va m r) (sym (match_from_hit set va i n lru q))
        (omega arith, λ _. q, λ z. ground (arith, z))
  | inr q ↦
      subst (λ r. Chosen set va m r) (sym (match_from_miss set va i n lru q))
        (match_from-Chosen set va m (i + 1) n (older set i lru) (omega arith) (ground arith)
          (older-Oldest set va i lru q h))
]

-- match_stream picks one of the channel's streams: one that expects the page, when it says that the
-- faults are sequential, and else the least recently used, when none of them does.
pub match_stream_lem :
    {H : Type 0} (d : Service H) (e c va : ℕ)
    → Chosen (d.streams e c) va fault_streams (match_stream d e c va).0
unfolding match_stream
match_stream_lem d e c va =
    match_from-Chosen (d.streams e c) va fault_streams 0 fault_streams 0 refl (omega arith)
      (λ k l. ground (arith, l))
