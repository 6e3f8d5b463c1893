-- ===== src/Runtime/ChannelSearch.antt =====
-- The two loops of `bind_channel`, and what a change of one channel leaves true of the streams.
use softgpu.Base.{
  ℕ, zero, suc, ◌+◌, ◌≤◌, ◌<◌, ◌≡◌, ◌≢◌, refl, sym, ap, subst, ◌∙◌, inl, inr, List, [], ◌∷◌, All,
  Option, none, some, some-injective, true, ◌&&◌, ◌==◌, if◌then◌else◌, update, update_self,
  update_ne, arith, eq_or_ne, Bool-cases,
}
use softgpu.Integers.{ℤ, pos, negsuc}
use softgpu.Device.{priority_least, is_default}
use softgpu.Runtime.{ChanBind}
use softgpu.Runtime.Bind.{eq_int, fewer, least_users, first_unused}

-- The streams by their channels and priorities: how many are on channel c.
unfoldable pub uses : ℕ → List (ℕ × ℤ) → ℕ
uses c [] = 0
uses c ((k, p) ∷ l) = (if k == c then 1 else 0) + uses c l

-- The stream's channel is the device's and has its priority.
abbrev pub Agrees : (ℕ → ChanBind) → ℕ → ℕ × ℤ → Type 0
Agrees bind n s = (s.0 < n) × ((bind s.0).priority ≡ s.1)

eq_int→eq : (a b : ℤ) → eq_int a b ≡ true → a ≡ b
eq_int→eq (pos a) (pos b) h = ground arith
eq_int→eq (pos a) (negsuc b) h = ground arith
eq_int→eq (negsuc a) (pos b) h = ground arith
eq_int→eq (negsuc a) (negsuc b) h = ground arith

eq_int_self : (a : ℤ) → eq_int a a ≡ true
eq_int_self (pos a) = ground arith
eq_int_self (negsuc a) = ground arith

pub is_default→least : (p : ℤ) → is_default p ≡ true → p ≡ priority_least
is_default→least (pos zero) h = refl
is_default→least (pos (suc n)) h = cc
is_default→least (negsuc n) h = cc

-- Changing a channel's users, or the priority of a channel that no stream has.
pub Agrees-users :
    (bind : ℕ → ChanBind) (n c : ℕ) (b : ChanBind) (l : List (ℕ × ℤ))
    → b.priority ≡ (bind c).priority
    → All (Agrees bind n) l
    → All (Agrees (update bind c b) n) l
Agrees-users bind n c b [] e h = tt
Agrees-users bind n c b ((k, p) ∷ l) e h = (
  elim (eq_or_ne k c) [
    | inl q ↦
        let same : update bind c b k ≡ b = ap (update bind c b) q ∙ update_self bind c b in
        (h.0.0, ap (λ x. x.priority) same ∙ e ∙ ap (λ x. (bind x).priority) (sym q) ∙ h.0.1)
    | inr q ↦ (h.0.0, ap (λ x. x.priority) (update_ne bind c k b q) ∙ h.0.1)
  ],
  Agrees-users bind n c b l e h.1,
)

pub Agrees-unused :
    (bind : ℕ → ChanBind) (n c : ℕ) (b : ChanBind) (l : List (ℕ × ℤ))
    → uses c l ≡ 0
    → All (Agrees bind n) l
    → All (Agrees (update bind c b) n) l
unfolding uses
Agrees-unused bind n c b [] e h = tt
Agrees-unused bind n c b ((k, p) ∷ l) e h = elim (eq_or_ne k c) [
  | inl q ↦ ground (arith, e, q)
  | inr q ↦ (
    (h.0.0, ap (λ x. x.priority) (update_ne bind c k b q) ∙ h.0.1),
    Agrees-unused bind n c b l (ground (arith, e, q)) h.1,
  )
]

-- What the first loop finds, and what it means that it finds nothing.
unfoldable pub Found : (ℕ → ChanBind) → ℤ → ℕ → Option (ℕ × ℕ) → Type 0
Found bind p n none = Unit
Found bind p n (some (c, u)) = (c < n) × ((bind c).priority ≡ p)

pub least_users-Found :
    (bind : ℕ → ChanBind) (p : ℤ) (c n t : ℕ) (best : Option (ℕ × ℕ))
    → c + n ≡ t
    → Found bind p t best
    → Found bind p t (least_users bind p c n best)
unfolding least_users Found
least_users-Found bind p c zero t best e h = h
least_users-Found bind p c (suc n) t best e h =
    elim (Bool-cases (eq_int (bind c).priority p && fewer (bind c).users best)) [
      | inr f ↦ rw f (least_users-Found bind p (suc c) n t best (omega (arith, e)) h)
      | inl q ↦
          let same : eq_int (bind c).priority p ≡ true = ground (arith, q) in
          rw q (
            least_users-Found bind p (suc c) n t (some (c, (bind c).users)) (omega (arith, e))
              (omega (arith, e), eq_int→eq (bind c).priority p same))
    ]

least_users-some :
    (bind : ℕ → ChanBind) (p : ℤ) (c n : ℕ) (b : ℕ × ℕ)
    → (b' : ℕ × ℕ) × (least_users bind p c n (some b) ≡ some b')
unfolding least_users
least_users-some bind p c zero b = (b, refl)
least_users-some bind p c (suc n) b =
    elim (Bool-cases (eq_int (bind c).priority p && fewer (bind c).users (some b))) [
      | inr f ↦ rw f (least_users-some bind p (suc c) n b)
      | inl q ↦ rw q (least_users-some bind p (suc c) n (c, (bind c).users))
    ]

pub least_users-none :
    (bind : ℕ → ChanBind) (p : ℤ) (c n : ℕ)
    → least_users bind p c n none ≡ none
    → (j : ℕ) → c ≤ j
    → j < c + n
    → (bind j).priority ≢ p
unfolding least_users
least_users-none bind p c zero e j l h = omega (arith, l, h)
least_users-none bind p c (suc n) e j l h = elim (Bool-cases (eq_int (bind c).priority p)) [
  | inl q ↦
      let (b, s) = least_users-some bind p (suc c) n (c, (bind c).users) in
      let t : least_users bind p (suc c) n (some (c, (bind c).users)) ≡ none = rw q at e in cc
  | inr f ↦ elim (eq_or_ne j c) [
    | inl q ↦ λ same. cc (eq_int_self p, f, ap (λ x. eq_int (bind x).priority p) q, same)
    | inr q ↦
        let t : least_users bind p (suc c) n none ≡ none = rw f at e in
        least_users-none bind p (suc c) n t j (omega (arith, l, q)) (omega (arith, h))
  ]
]

pub first_unused-some :
    (bind : ℕ → ChanBind) (c n k : ℕ)
    → first_unused bind c n ≡ some k
    → (k < c + n) × ((bind k).users ≡ 0)
unfolding first_unused
first_unused-some bind c zero k e = cc
first_unused-some bind c (suc n) k e = elim (Bool-cases ((bind c).users == 0)) [
  | inl q ↦
      let same : c ≡ k = some-injective c k (rw q at e) in
      (omega (arith, same), subst (λ x. (bind x).users ≡ 0) same (ground (arith, q)))
  | inr f ↦ let r = first_unused-some bind (suc c) n k (rw f at e) in (omega (arith, r.0), r.1)
]

pub first_unused-none :
    (bind : ℕ → ChanBind) (c n : ℕ)
    → first_unused bind c n ≡ none
    → (j : ℕ) → c ≤ j
    → j < c + n
    → 0 < (bind j).users
unfolding first_unused
first_unused-none bind c zero e j l h = omega (arith, l, h)
first_unused-none bind c (suc n) e j l h = elim (Bool-cases ((bind c).users == 0)) [
  | inl q ↦ ground (arith, q, e)
  | inr f ↦ elim (eq_or_ne j c) [
    | inl q ↦ subst (λ x. 0 < (bind x).users) (sym q) (ground (arith, f))
    | inr q ↦
        first_unused-none bind (suc c) n (rw f at e) j (omega (arith, l, q)) (omega (arith, h))
  ]
]
