-- ===== src/Driver/Tickets/Ordered.antt =====
-- What every interleaving of producers and the engine keeps: tickets are shown in order, and the ring
-- holds the command of each ticket that the engine has not retired.
use softgpu.Base.{
  ℕ, ◌+◌, ◌%◌, ◌^◌, ◌≤◌, ◌<◌, ◌≡◌, ◌≢◌, refl, sym, ap, subst, ◌∙◌, inl, inr, Option, none, some,
  some-injective, Bool, true, false, sub64, update, update_self, update_ne, eq_or_ne, lt_or_ge,
  arith,
}
use softgpu.Device.{Command}
use softgpu.Driver.Tickets.{
  Claim, unclaimed, claimed, written, shown, finished, Lane, claim_slot, has_room, write_slot,
  show_put, hand_on, retire, Step, empty_lane, Reachable, start, next, reserve_step, write_step,
  show_step, hand_step, retire_step,
}
use softgpu.Driver.Tickets.Slots.{slots_differ}

-- The command that a producer has written.
abbrev pub payload : Claim → Option Command
payload unclaimed = none
payload claimed = none
payload (written cmd) = some cmd
payload (shown cmd) = some cmd
payload (finished cmd) = some cmd

-- PUT covers the ticket; and the ticket was handed on; and the ticket was reserved.
abbrev pub is_shown : Claim → Bool
is_shown (shown cmd) = true
is_shown (finished cmd) = true
is_shown _ = false

abbrev pub is_finished : Claim → Bool
is_finished (finished cmd) = true
is_finished _ = false

abbrev pub is_taken : Claim → Bool
is_taken unclaimed = false
is_taken _ = true

pub record IsOrdered (l : Lane) : Type 0 where
  pub behind : l.get ≤ l.reg_put
  pub below : l.put ≤ l.reg_put
  pub covered : (t : ℕ) → t < l.reg_put → is_shown (l.claims t) ≡ true
  pub covers : (t : ℕ) → is_shown (l.claims t) ≡ true → t < l.reg_put
  pub turn : (t : ℕ) → is_shown (l.claims t) ≡ true → t ≤ l.put
  pub done : (t : ℕ) → t < l.put → is_finished (l.claims t) ≡ true
  pub handed : (t : ℕ) → is_finished (l.claims t) ≡ true → t < l.put
  pub reserved : (t : ℕ) → is_taken (l.claims t) ≡ true → t < l.reserve
  pub bounded : l.reserve < 2 ^ 64
  pub holds :
      (t : ℕ) (cmd : Command)
      → payload (l.claims t) ≡ some cmd
      → l.get ≤ t
      → (t < l.get + l.depth) × (l.ring (t % l.depth) ≡ cmd)

pub empty_lane-IsOrdered : (ring : ℕ → Command) (n : ℕ) → IsOrdered (empty_lane ring n)
empty_lane-IsOrdered ring n = record {
  behind = omega arith;
  below = omega arith;
  covered = λ t h. absurd (omega (arith, h));
  covers = λ t h. cc;
  turn = λ t h. cc;
  done = λ t h. absurd (omega (arith, h));
  handed = λ t h. cc;
  reserved = λ t h. cc;
  bounded = omega arith;
  holds = λ t cmd h g. cc;
}

-- A property of every ticket after the claim of one has changed.
changed :
    (P : ℕ → Claim → Type 0) (claims : ℕ → Claim) (t : ℕ) (c : Claim)
    → P t c
    → ((i : ℕ) → i ≢ t → P i (claims i))
    → (i : ℕ) → P i (update claims t c i)
changed P claims t c h k i = elim (eq_or_ne i t) [
  | inl q ↦
      subst (λ x. P x (update claims t c x)) (sym q)
        (subst (λ x. P t x) (sym (update_self claims t c)) h)
  | inr q ↦ subst (λ x. P i x) (sym (update_ne claims t i c q)) (k i q)
]

is_shown-is_taken : (c : Claim) → is_shown c ≡ true → is_taken c ≡ true
is_shown-is_taken unclaimed h = cc
is_shown-is_taken claimed h = cc
is_shown-is_taken (written cmd) h = cc
is_shown-is_taken (shown cmd) h = refl
is_shown-is_taken (finished cmd) h = refl

-- A ticket that is not shown is not below PUT, nor below the mirror of PUT.
pub hidden : (l : Lane) (t : ℕ) → IsOrdered l → is_shown (l.claims t) ≡ false → l.reg_put ≤ t
hidden l t w h = elim (lt_or_ge t l.reg_put) [ inl k ↦ absurd (cc (w.covered t k, h)) | inr k ↦ k ]

claim_slot-IsOrdered : (l : Lane) → l.reserve + 1 < 2 ^ 64 → IsOrdered l → IsOrdered (claim_slot l)
unfolding claim_slot
claim_slot-IsOrdered l b w =
    let r = l.reserve in
    let fresh : l.reg_put ≤ r = elim (lt_or_ge r l.reg_put) [
      | inl k ↦
          absurd (omega (arith, w.reserved r (is_shown-is_taken (l.claims r) (w.covered r k))))
      | inr k ↦ k
    ] in
    record {
      behind = w.behind;
      below = w.below;
      covered =
          changed (λ t c. t < l.reg_put → is_shown c ≡ true) l.claims r claimed
            (λ h. absurd (omega (arith, h, fresh))) (λ t n. w.covered t);
      covers =
          changed (λ t c. is_shown c ≡ true → t < l.reg_put) l.claims r claimed (λ h. cc)
            (λ t n. w.covers t);
      turn =
          changed (λ t c. is_shown c ≡ true → t ≤ l.put) l.claims r claimed (λ h. cc)
            (λ t n. w.turn t);
      done =
          changed (λ t c. t < l.put → is_finished c ≡ true) l.claims r claimed
            (λ h. absurd (omega (arith, h, fresh, w.below))) (λ t n. w.done t);
      handed =
          changed (λ t c. is_finished c ≡ true → t < l.put) l.claims r claimed (λ h. cc)
            (λ t n. w.handed t);
      reserved =
          changed (λ t c. is_taken c ≡ true → t < r + 1) l.claims r claimed (λ h. omega arith)
            (λ t n h. omega (arith, w.reserved t h));
      bounded = b;
      holds =
          changed
            (λ t c.
              (cmd : Command)
              → payload c ≡ some cmd
              → l.get ≤ t
              → (t < l.get + l.depth) × (l.ring (t % l.depth) ≡ cmd))
            l.claims r claimed (λ cmd h. cc) (λ t n. w.holds t);
    }

room_left : (l : Lane) (t : ℕ) → l.get ≤ t → t < 2 ^ 64 → has_room l t ≡ true → t < l.get + l.depth
room_left l t g b r =
    let less : sub64 t l.get < l.depth = ground (arith, r) in omega (arith, less, g, b)

write_slot-IsOrdered :
    (l : Lane) (t : ℕ) (cmd : Command)
    → l.claims t ≡ claimed
    → has_room l t ≡ true
    → IsOrdered l
    → IsOrdered (write_slot l t cmd)
unfolding write_slot
write_slot-IsOrdered l t cmd q r w =
    let c = written cmd in
    let late = hidden l t w (ap is_shown q) in
    let room =
      room_left l t (omega (arith, late, w.behind))
        (omega (arith, w.reserved t (ap is_taken q), w.bounded)) r in
    record {
      behind = w.behind;
      below = w.below;
      covered =
          changed (λ i c. i < l.reg_put → is_shown c ≡ true) l.claims t c
            (λ h. absurd (omega (arith, h, late))) (λ i n. w.covered i);
      covers =
          changed (λ i c. is_shown c ≡ true → i < l.reg_put) l.claims t c (λ h. cc)
            (λ i n. w.covers i);
      turn =
          changed (λ i c. is_shown c ≡ true → i ≤ l.put) l.claims t c (λ h. cc) (λ i n. w.turn i);
      done =
          changed (λ i c. i < l.put → is_finished c ≡ true) l.claims t c
            (λ h. absurd (omega (arith, h, late, w.below))) (λ i n. w.done i);
      handed =
          changed (λ i c. is_finished c ≡ true → i < l.put) l.claims t c (λ h. cc)
            (λ i n. w.handed i);
      reserved =
          changed (λ i c. is_taken c ≡ true → i < l.reserve) l.claims t c
            (λ h. w.reserved t (ap is_taken q)) (λ i n. w.reserved i);
      bounded = w.bounded;
      holds =
          changed
            (λ i c.
              (x : Command)
              → payload c ≡ some x
              → l.get ≤ i
              → (i < l.get + l.depth) × (update l.ring (t % l.depth) cmd (i % l.depth) ≡ x))
            l.claims t c
            (λ x h g. (room, update_self l.ring (t % l.depth) cmd ∙ some-injective cmd x h))
            (λ i n x h g.
              let (k, e) = w.holds i x h g in
              (
                k,
                update_ne l.ring (t % l.depth) (i % l.depth) cmd (elim (lt_or_ge i t) [
                  | inl b ↦ slots_differ i t l.depth b (omega (arith, room, g))
                  | inr b ↦ λ s.
                      slots_differ t i l.depth (omega (arith, b, n))
                        (omega (arith, k, late, w.behind)) (sym s)
                ])
                    ∙ e,
              ));
    }

show_put-IsOrdered :
    (l : Lane) (t : ℕ) (cmd : Command)
    → l.claims t ≡ written cmd
    → l.put ≡ t
    → IsOrdered l
    → IsOrdered (show_put l t cmd)
unfolding show_put
show_put-IsOrdered l t cmd q p w =
    let c = shown cmd in
    let late = hidden l t w (ap is_shown q) in
    let exact : l.reg_put ≡ t = omega (arith, late, w.below, p) in
    let held = w.holds t cmd (ap payload q) in
    record {
      behind = omega (arith, w.behind, exact);
      below = omega (arith, p);
      covered =
          changed (λ i c. i < t + 1 → is_shown c ≡ true) l.claims t c (λ h. refl)
            (λ i n h. w.covered i (omega (arith, h, n, exact)));
      covers =
          changed (λ i c. is_shown c ≡ true → i < t + 1) l.claims t c (λ h. omega arith)
            (λ i n h. omega (arith, w.covers i h, exact));
      turn =
          changed (λ i c. is_shown c ≡ true → i ≤ l.put) l.claims t c (λ h. omega (arith, p))
            (λ i n. w.turn i);
      done =
          changed (λ i c. i < l.put → is_finished c ≡ true) l.claims t c
            (λ h. absurd (omega (arith, h, p))) (λ i n. w.done i);
      handed =
          changed (λ i c. is_finished c ≡ true → i < l.put) l.claims t c (λ h. cc)
            (λ i n. w.handed i);
      reserved =
          changed (λ i c. is_taken c ≡ true → i < l.reserve) l.claims t c
            (λ h. w.reserved t (ap is_taken q)) (λ i n. w.reserved i);
      bounded = w.bounded;
      holds =
          changed
            (λ i c.
              (x : Command)
              → payload c ≡ some x
              → l.get ≤ i
              → (i < l.get + l.depth) × (l.ring (i % l.depth) ≡ x))
            l.claims t c (λ x h g. ((held g).0, (held g).1 ∙ some-injective cmd x h))
            (λ i n. w.holds i);
    }

hand_on-IsOrdered :
    (l : Lane) (t : ℕ) (cmd : Command)
    → l.claims t ≡ shown cmd
    → IsOrdered l
    → IsOrdered (hand_on l t cmd)
unfolding hand_on
hand_on-IsOrdered l t cmd q w =
    let c = finished cmd in
    let covers = w.covers t (ap is_shown q) in
    let exact : l.put ≡ t = elim (lt_or_ge t l.put) [
      | inl k ↦ absurd (cc (w.done t k, q))
      | inr k ↦ omega (arith, k, w.turn t (ap is_shown q))
    ] in
    let held = w.holds t cmd (ap payload q) in
    record {
      behind = w.behind;
      below = omega (arith, covers);
      covered =
          changed (λ i c. i < l.reg_put → is_shown c ≡ true) l.claims t c (λ h. refl)
            (λ i n. w.covered i);
      covers =
          changed (λ i c. is_shown c ≡ true → i < l.reg_put) l.claims t c (λ h. covers)
            (λ i n. w.covers i);
      turn =
          changed (λ i c. is_shown c ≡ true → i ≤ t + 1) l.claims t c (λ h. omega arith)
            (λ i n h. omega (arith, w.turn i h, exact));
      done =
          changed (λ i c. i < t + 1 → is_finished c ≡ true) l.claims t c (λ h. refl)
            (λ i n h. w.done i (omega (arith, h, n, exact)));
      handed =
          changed (λ i c. is_finished c ≡ true → i < t + 1) l.claims t c (λ h. omega arith)
            (λ i n h. omega (arith, w.handed i h, exact));
      reserved =
          changed (λ i c. is_taken c ≡ true → i < l.reserve) l.claims t c
            (λ h. w.reserved t (ap is_taken q)) (λ i n. w.reserved i);
      bounded = w.bounded;
      holds =
          changed
            (λ i c.
              (x : Command)
              → payload c ≡ some x
              → l.get ≤ i
              → (i < l.get + l.depth) × (l.ring (i % l.depth) ≡ x))
            l.claims t c (λ x h g. ((held g).0, (held g).1 ∙ some-injective cmd x h))
            (λ i n. w.holds i);
    }

retire-IsOrdered : (l : Lane) → l.get < l.reg_put → IsOrdered l → IsOrdered (retire l)
unfolding retire
retire-IsOrdered l h w = record {
  behind = omega (arith, h);
  below = w.below;
  covered = w.covered;
  covers = w.covers;
  turn = w.turn;
  done = w.done;
  handed = w.handed;
  reserved = w.reserved;
  bounded = w.bounded;
  holds = λ t cmd q g. let (a, b) = w.holds t cmd q (omega (arith, g)) in (omega (arith, a), b);
}

pub Step-IsOrdered : {l l' : Lane} → Step l l' → IsOrdered l → IsOrdered l'
Step-IsOrdered (reserve_step l b) w = claim_slot-IsOrdered l b w
Step-IsOrdered (write_step l t cmd q r) w = write_slot-IsOrdered l t cmd q r w
Step-IsOrdered (show_step l t cmd q p) w = show_put-IsOrdered l t cmd q p w
Step-IsOrdered (hand_step l t cmd q) w = hand_on-IsOrdered l t cmd q w
Step-IsOrdered (retire_step l h) w = retire-IsOrdered l h w

pub Reachable-IsOrdered : {n : ℕ} {l : Lane} → Reachable n l → IsOrdered l
Reachable-IsOrdered {n = n} (start ring) = empty_lane-IsOrdered ring n
Reachable-IsOrdered (next r s) = Step-IsOrdered s (Reachable-IsOrdered r)
