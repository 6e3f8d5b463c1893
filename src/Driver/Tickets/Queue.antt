-- ===== src/Driver/Tickets/Queue.antt =====
-- The ring is a queue: what the engine has still to run, in the order of the tickets.
use softgpu.Base.{
  ℕ, zero, suc, ◌+◌, ◌-◌, ◌%◌, ◌≤◌, ◌<◌, ◌≡◌, ◌≢◌, refl, sym, ap, ◌∙◌, ◌⊎◌, inl, inr, List, [], ◌∷◌,
  ◌++◌, some, true, update, update_ne, eq_or_ne, arith,
}
use softgpu.Device.{Command}
use softgpu.Driver.Tickets.{
  Claim, unclaimed, claimed, written, shown, finished, Lane, claim_slot, write_slot, show_put,
  hand_on, retire, Step, Reachable, reserve_step, write_step, show_step, hand_step, retire_step,
}
use softgpu.Driver.Tickets.Ordered.{
  payload, is_shown, IsOrdered, hidden, Step-IsOrdered, Reachable-IsOrdered,
}

-- The ring's slots of the tickets t, ..., t + n - 1.
unfoldable pub slots : (ℕ → Command) → ℕ → ℕ → ℕ → List Command
slots ring depth t zero = []
slots ring depth t (suc n) = ring (t % depth) ∷ slots ring depth (t + 1) n

-- What the engine has still to run: the slots between GET and PUT.
unfoldable pub queue : Lane → List Command
unfolding slots
queue l = slots l.ring l.depth l.get (l.reg_put - l.get)

slots_ext :
    (r r' : ℕ → Command) (d t n : ℕ)
    → ((i : ℕ) → t ≤ i → i < t + n → r' (i % d) ≡ r (i % d))
    → slots r' d t n ≡ slots r d t n
unfolding slots
slots_ext r r' d t zero h = refl
slots_ext r r' d t (suc n) h = rw (h t (omega arith) (omega arith)) (
    ap (λ x. r (t % d) ∷ x)
      (slots_ext r r' d (t + 1) n (λ i a b. h i (omega (arith, a)) (omega (arith, b)))))

slots_snoc :
    (r : ℕ → Command) (d t n : ℕ) → slots r d t (suc n) ≡ slots r d t n ++ r ((t + n) % d) ∷ []
unfolding slots
slots_snoc r d t zero = let same : t + 0 ≡ t = omega arith in rw same refl
slots_snoc r d t (suc n) =
    ap (λ x. r (t % d) ∷ x)
      (slots_snoc r d (t + 1) n ∙ ap (λ x. slots r d (t + 1) n ++ r (x % d) ∷ []) (omega arith))

is_shown-payload : (c : Claim) → is_shown c ≡ true → (cmd : Command) × (payload c ≡ some cmd)
is_shown-payload unclaimed h = cc
is_shown-payload claimed h = cc
is_shown-payload (written cmd) h = cc
is_shown-payload (shown cmd) h = (cmd, refl)
is_shown-payload (finished cmd) h = (cmd, refl)

-- A producer that writes a slot leaves the slots between GET and PUT.
queue-write_slot :
    (l : Lane) (t : ℕ) (cmd : Command)
    → l.claims t ≡ claimed
    → IsOrdered l
    → IsOrdered (write_slot l t cmd)
    → queue (write_slot l t cmd) ≡ queue l
unfolding queue write_slot
queue-write_slot l t cmd q w w' =
    slots_ext l.ring (update l.ring (t % l.depth) cmd) l.depth l.get (l.reg_put - l.get) (λ i a b.
      let before = w.covered i (omega (arith, b)) in
      let (x, p) = is_shown-payload (l.claims i) before in
      let other : i ≢ t = λ s. cc (before, q, ap (λ y. is_shown (l.claims y)) s) in
      (w'.holds i x (ap payload (update_ne l.claims t i (written cmd) other) ∙ p) a).1
      ∙ sym (w.holds i x p a).1)

queue-show_put :
    (l : Lane) (t : ℕ) (cmd : Command)
    → l.claims t ≡ written cmd
    → l.put ≡ t
    → IsOrdered l
    → queue (show_put l t cmd) ≡ queue l ++ cmd ∷ []
unfolding queue show_put
queue-show_put l t cmd q p w =
    let late = hidden l t w (ap is_shown q) in
    let exact : l.reg_put ≡ t = omega (arith, late, w.below, p) in
    let gap : t + 1 - l.get ≡ suc (l.reg_put - l.get) = omega (arith, exact, w.behind) in
    let slot : l.get + (l.reg_put - l.get) ≡ t = omega (arith, exact, w.behind) in
    let held = (w.holds t cmd (ap payload q) (omega (arith, exact, w.behind))).1 in
    rw gap (
      slots_snoc l.ring l.depth l.get (l.reg_put - l.get)
      ∙ ap (λ x. queue l ++ l.ring (x % l.depth) ∷ []) slot
      ∙ ap (λ x. queue l ++ x ∷ []) held)

queue-retire :
    (l : Lane) → l.get < l.reg_put → queue l ≡ l.ring (l.get % l.depth) ∷ queue (retire l)
unfolding queue slots retire
queue-retire l h =
    let gap : l.reg_put - l.get ≡ suc (l.reg_put - (l.get + 1)) = omega (arith, h) in rw gap refl

claimed_queue : (l : Lane) → queue (claim_slot l) ≡ queue l
unfolding queue claim_slot
claimed_queue l = refl

handed_queue : (l : Lane) (t : ℕ) (cmd : Command) → queue (hand_on l t cmd) ≡ queue l
unfolding queue hand_on
handed_queue l t cmd = refl

shown_put : (l : Lane) (t : ℕ) (cmd : Command) → (show_put l t cmd).reg_put ≡ t + 1
unfolding show_put
shown_put l t cmd = refl

reg_put_mono : {l l' : Lane} → Step l l' → IsOrdered l → l.reg_put ≤ l'.reg_put
unfolding claim_slot write_slot show_put hand_on retire
reg_put_mono (reserve_step l b) w = omega arith
reg_put_mono (write_step l t cmd q r) w = omega arith
reg_put_mono (show_step l t cmd q p) w =
    let late = hidden l t w (ap is_shown q) in omega (arith, late, w.below, p)
reg_put_mono (hand_step l t cmd q) w = omega arith
reg_put_mono (retire_step l h) w = omega arith

within : {l : Lane} → IsOrdered l → l.reg_put ≤ l.get + l.depth
within {l = l} w = elim (eq_or_ne l.reg_put l.get) [
  | inl q ↦ omega (arith, q)
  | inr q ↦
      let last = l.reg_put - 1 in
      let (cmd, p) =
        is_shown-payload (l.claims last) (w.covered last (omega (arith, q, w.behind))) in
      let (k, _) = w.holds last cmd p (omega (arith, q, w.behind)) in omega (arith, k, q, w.behind)
]

-- How one access changes the queue.
abbrev pub Moved : Lane → Lane → Type 0
Moved l l' =
    (queue l' ≡ queue l)
    ⊎ (((cmd : Command) × (l.claims l.reg_put ≡ written cmd)
          × (l'.reg_put ≡ l.reg_put + 1)
          × (queue l' ≡ queue l ++ cmd ∷ []))
        ⊎ ((cmd : Command) × (payload (l.claims l.get) ≡ some cmd) × (queue l ≡ cmd ∷ queue l')))

moved : {l l' : Lane} → Step l l' → IsOrdered l → Moved l l'
moved (reserve_step l b) w = inl (claimed_queue l)
moved (write_step l t cmd q r) w =
    inl (queue-write_slot l t cmd q w (Step-IsOrdered (write_step l t cmd q r) w))
moved (show_step l t cmd q p) w =
    let late = hidden l t w (ap is_shown q) in
    let exact : l.reg_put ≡ t = omega (arith, late, w.below, p) in
    inr (
      inl (
        cmd,
        ap l.claims exact ∙ q,
        shown_put l t cmd ∙ omega (arith, exact),
        queue-show_put l t cmd q p w,
      ))
moved (hand_step l t cmd q) w = inl (handed_queue l t cmd)
moved (retire_step l h) w =
    let (cmd, p) = is_shown-payload (l.claims l.get) (w.covered l.get h) in
    let (_, e) = w.holds l.get cmd p (omega arith) in
    inr (inr (cmd, p, queue-retire l h ∙ ap (λ x. x ∷ queue (retire l)) e))

-- In every interleaving of any number of producers with the engine, one access either leaves the
-- commands that the engine has still to run, or appends the command of the next ticket to them, or
-- takes the first off them, which is the command that the producer of the ticket GET wrote; and the
-- PUT register never goes backwards, nor more than the ring's depth ahead of GET.
pub Step-queue :
    {n : ℕ} {l l' : Lane}
    → Reachable n l
    → Step l l'
    → (l.reg_put ≤ l'.reg_put) × (l'.reg_put ≤ l'.get + l'.depth) × Moved l l'
Step-queue r s = (
  reg_put_mono s (Reachable-IsOrdered r),
  within (Step-IsOrdered s (Reachable-IsOrdered r)),
  moved s (Reachable-IsOrdered r),
)
