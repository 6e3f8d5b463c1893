-- ===== src/Driver/Managed/Evict.antt =====
-- Evicting a page publishes its bytes to the host, and evicting every page comes to an end.
use softgpu.Base.{ℕ, ◌≡◌, ◌⊎◌, [], none, true}
use softgpu.Device.Runlist.{is_ok}
use softgpu.Driver.Managed.{Host, Memory, evict_front}

-- What a host page reads after it was written, and after userfaultfd filled it.
pub record Reads {H : Type 0} (os : Host H) : Type 0 where
  pub read-write : (to : ℕ) (b : ℕ → ℕ) (h : H) → os.read to (os.write to b h) ≡ b
  pub read-uffd_copy :
      (to : ℕ) (b : ℕ → ℕ) (h : H)
      → is_ok (os.uffd_copy to b h).0 ≡ true
      → os.read to (os.uffd_copy to b h).1 ≡ b

module _ {H : Type 0} (os : Host H) where
  -- What evict_all_locked ends in: no page is resident, or the first could not be evicted.
  abbrev pub Ended : Memory H → Type 0
  Ended d =
      (d.resident ≡ [])
      ⊎ ((e : Memory H) × ((evict_front os e e.resident).0 ≡ none)
          × (d ≡ (evict_front os e e.resident).1))
