-- ===== src/Integers.antt =====
-- int32_t priorities: the integers over the native naturals, with their order.
use softgpu.Base.{ℕ, ◌≡◌, Bool, true, false, ltb, arith}

pub data ℤ : Type 0 where
  pos negsuc : ℕ → ℤ

-- `a < b`
abbrev pub ltb_int : ℤ → ℤ → Bool
ltb_int (pos a) (pos b) = ltb a b
ltb_int (pos a) (negsuc b) = false
ltb_int (negsuc a) (pos b) = true
ltb_int (negsuc a) (negsuc b) = ltb b a

pub ltb_int_self : (a : ℤ) → ltb_int a a ≡ false
ltb_int_self (pos a) = ground arith
ltb_int_self (negsuc a) = ground arith

-- What was not below q is not below a p that is below q.
pub ltb_int_lower : (p q r : ℤ) → ltb_int p q ≡ true → ltb_int r q ≡ false → ltb_int r p ≡ false
ltb_int_lower (pos a) (pos b) (pos c) h k = ground arith
ltb_int_lower (pos a) (pos b) (negsuc c) h k = ground arith
ltb_int_lower (pos a) (negsuc b) (pos c) h k = ground arith
ltb_int_lower (pos a) (negsuc b) (negsuc c) h k = ground arith
ltb_int_lower (negsuc a) (pos b) (pos c) h k = ground arith
ltb_int_lower (negsuc a) (pos b) (negsuc c) h k = ground arith
ltb_int_lower (negsuc a) (negsuc b) (pos c) h k = ground arith
ltb_int_lower (negsuc a) (negsuc b) (negsuc c) h k = ground arith

-- What is below q is above no p: a p below q is below every r that q does not exceed.
pub ltb_int_below : (p q r : ℤ) → ltb_int p q ≡ true → ltb_int r q ≡ false → ltb_int p r ≡ true
ltb_int_below (pos a) (pos b) (pos c) h k = ground arith
ltb_int_below (pos a) (pos b) (negsuc c) h k = ground arith
ltb_int_below (pos a) (negsuc b) (pos c) h k = ground arith
ltb_int_below (pos a) (negsuc b) (negsuc c) h k = ground arith
ltb_int_below (negsuc a) (pos b) (pos c) h k = ground arith
ltb_int_below (negsuc a) (pos b) (negsuc c) h k = ground arith
ltb_int_below (negsuc a) (negsuc b) (pos c) h k = ground arith
ltb_int_below (negsuc a) (negsuc b) (negsuc c) h k = ground arith
