-- ===== src/Driver/Faults/Served.antt =====
-- A served fault: its page is in VRAM or its channel has an error, and the channel goes on.
use softgpu.Base.{
  ℕ, ◌≡◌, ◌≢◌, refl, sym, ap, subst, ◌∙◌, ◌⊎◌, inl, inr, Option, none, some, true, false, ◌==◌, leb,
  update, update_self, Bool-cases, arith,
}
use softgpu.Errno.{ok, efault}
use softgpu.Device.{Device, Fault, Channel, set_channel, unpark}
use softgpu.Device.Runlist.{is_ok}
use softgpu.Runtime.Errors.{is_ok→ok, is_ok→ne}
use softgpu.Alloc as A
use softgpu.Mmu.{page_size, Mmu, PageKind, absent, host, vram, vpn_of, is_resident, page_floor}
use softgpu.Mmu.Residency.{make_resident, change_pte, resident_pte, page}
use softgpu.Mmu.Shootdown.{pte-change_pte, npages-change_pte}
use softgpu.Driver.Managed.{
  Host, Memory, bad_copy, copy_to_frame, migrate_to, migrate_locked, take_frame,
}
use softgpu.Driver.Faults.{Service, serve}

resident_flags : (pfn : ℕ) → is_resident (resident_pte pfn) ≡ true
unfolding resident_pte
resident_flags pfn = ground arith

page_vram :
    (m : Mmu) (va : ℕ)
    → leb m.npages (vpn_of va) ≡ false
    → is_resident (m.pte (vpn_of va)) ≡ true
    → (page m va).kind ≡ vram
unfolding page
page_vram m va a b = ground (arith, a, b)

-- make_resident accepts a page of the table, which was in VRAM before or is moved there.
made_resident :
    (m : Mmu) (va pa : ℕ)
    → (make_resident m va pa).0 ≡ ok
    → (leb m.npages (vpn_of va) ≡ false)
      × (((is_resident (m.pte (vpn_of va)) ≡ true) × ((make_resident m va pa).1 ≡ m))
          ⊎ ((make_resident m va pa).1 ≡ change_pte m (vpn_of va) (resident_pte (vpn_of pa))))
unfolding make_resident
made_resident m va pa h = ground (arith, h)

PageKind-cases : (k : PageKind) → (k ≡ vram) ⊎ (k ≡ absent) ⊎ (k ≡ host)
PageKind-cases vram = inl refl
PageKind-cases absent = inr (inl refl)
PageKind-cases host = inr (inr refl)

-- A page that make_resident accepts is in VRAM.
make_resident-vram :
    (m : Mmu) (va pa : ℕ)
    → (make_resident m va pa).0 ≡ ok
    → (page (make_resident m va pa).1 va).kind ≡ vram
make_resident-vram m va pa h =
    let (inside, made) = made_resident m va pa h in
    let v = vpn_of va in
    let x = resident_pte (vpn_of pa) in
    elim made [
      | inl (r, e) ↦ subst (λ k. (page k va).kind ≡ vram) (sym e) (page_vram m va inside r)
      | inr e ↦
          subst (λ k. (page k va).kind ≡ vram) (sym e)
            (page_vram (change_pte m v x) va (ap (λ n. leb n v) (npages-change_pte m v x) ∙ inside)
              (ap (λ w. is_resident w) (pte-change_pte m v x) ∙ resident_flags (vpn_of pa)))
    ]

channel-set_channel :
    (d : Device) (e c : ℕ) (ch : Channel) → (set_channel d e c ch).channel e c ≡ ch
unfolding set_channel
channel-set_channel d e c ch =
    ap (λ g. g c) (update_self d.channel e (update (d.channel e) c ch))
    ∙ update_self (d.channel e) c ch

channel-unpark :
    (d : Device) (e c : ℕ) → (unpark d e c).channel e c ≡ record (d.channel e c) { parked = false }
unfolding unpark
channel-unpark d e c = channel-set_channel d e c (record (d.channel e c) { parked = false })

module _ {H : Type 0} (os : Host H) where
  copy_to_frame_failed :
      (d : Memory H) (va from pa : ℕ)
      → bad_copy d pa (from == 0) ≡ false
      → is_ok (make_resident d.mmu va pa).0 ≡ false
      → (copy_to_frame os d va from pa).0 ≡ (make_resident d.mmu va pa).0
  unfolding copy_to_frame
  copy_to_frame_failed d va from pa q r = rw (q, r) refl

  copy_to_frame-vram :
      (d : Memory H) (va from pa : ℕ)
      → (copy_to_frame os d va from pa).0 ≡ ok
      → (page (copy_to_frame os d va from pa).2.mmu va).kind ≡ vram
  unfolding copy_to_frame
  copy_to_frame-vram d va from pa h =
      let (rc, m) = make_resident d.mmu va pa in
      elim (Bool-cases (bad_copy d pa (from == 0))) [
        | inl q ↦ cc (h, q)
        | inr q ↦ elim (Bool-cases (is_ok rc)) [
          | inr r ↦ absurd (is_ok→ne rc r (sym (copy_to_frame_failed d va from pa q r) ∙ h))
          | inl r ↦ rw (q, r) (make_resident-vram d.mmu va pa (is_ok→ok rc r))
        ]
      ]

  migrate_to-vram :
      (d : Memory H) (va from : ℕ) (frame : Option ℕ)
      → (migrate_to os d va from frame).0 ≡ ok
      → (page (migrate_to os d va from frame).2.mmu va).kind ≡ vram
  unfolding migrate_to
  migrate_to-vram d va from none h = cc h
  migrate_to-vram d va from (some pa) h = copy_to_frame-vram d va from pa h

  migrate_locked_absent :
      (d : Memory H) (va : ℕ) → (page d.mmu va).kind ≡ absent → (migrate_locked os d va).0 ≡ efault
  unfolding migrate_locked
  migrate_locked_absent d va q = rw (migrate_locked, q) refl

  migrate_locked_homeless :
      (d : Memory H) (va : ℕ)
      → (page d.mmu va).kind ≡ host
      → ((page d.mmu va).host_page == 0) ≡ true
      → (migrate_locked os d va).0 ≡ efault
  unfolding migrate_locked
  migrate_locked_homeless d va q z = rw (migrate_locked, q, z) refl

  migrate_locked_moved :
      (d : Memory H) (va : ℕ)
      → (page d.mmu va).kind ≡ host
      → ((page d.mmu va).host_page == 0) ≡ false
      → let (frame, d') = take_frame os d (A.alloc d.vram_alloc page_size) in
        migrate_locked os d va ≡ migrate_to os d' va (page d.mmu va).host_page frame
  unfolding migrate_locked
  migrate_locked_moved d va q z = rw (migrate_locked, q, z) refl

  -- A page that migrate_locked accepts is in VRAM.
  pub migrate_locked-vram :
      (d : Memory H) (va : ℕ)
      → (migrate_locked os d va).0 ≡ ok
      → (page (migrate_locked os d va).2.mmu va).kind ≡ vram
  unfolding migrate_locked
  migrate_locked-vram d va h = elim (PageKind-cases (page d.mmu va).kind) [
    | inl q ↦ rw (migrate_locked, q) q
    | inr (inl q) ↦ cc (h, migrate_locked_absent d va q)
    | inr (inr q) ↦ elim (Bool-cases ((page d.mmu va).host_page == 0)) [
      | inl z ↦ cc (h, migrate_locked_homeless d va q z)
      | inr z ↦
          let (frame, d') = take_frame os d (A.alloc d.vram_alloc page_size) in
          let e = migrate_locked_moved d va q z in
          subst (λ r. (page r.2.mmu va).kind ≡ vram) (sym e)
            (migrate_to-vram d' va (page d.mmu va).host_page frame (sym (ap (λ r. r.0) e) ∙ h))
    ]
  ]

  -- A fault that was served leaves its channel not parked, and its page in VRAM or an error in the channel.
  pub serve_lem :
      (d : Service H) (f : Fault)
      → let d' = (serve os d f).1 in
        let ch = d'.dev.channel f.engine f.channel in
        (ch.parked ≡ false)
        × (((page d'.mem.mmu (page_floor f.va)).kind ≡ vram) ⊎ (ch.fault_fail ≢ ok))
  unfolding serve
  serve_lem d f =
      let rc = (migrate_locked os d.mem (page_floor f.va)).0 in
      elim (Bool-cases (is_ok rc)) [
        | inl q ↦
            rw (q, channel-unpark d.dev f.engine f.channel)
              (refl, inl (migrate_locked-vram d.mem (page_floor f.va) (is_ok→ok rc q)))
        | inr q ↦
            let ch = record (d.dev.channel f.engine f.channel) { fault_fail = rc } in
            let failed = set_channel d.dev f.engine f.channel ch in
            rw
              (
                q,
                channel-unpark failed f.engine f.channel,
                channel-set_channel d.dev f.engine f.channel ch,
              )
              (refl, inr (is_ok→ne rc q))
      ]
