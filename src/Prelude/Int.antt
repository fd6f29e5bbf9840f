-- ===== src/Prelude/Int.antt =====
-- Signed integers over the native numbers, with C's division and two's complement conversion.
use sure.Prelude.{
  ℕ, suc, ◌+◌, ◌-◌, ◌*◌, ◌/◌, ◌%◌, ◌^◌, ◌≤◌, ◌<◌, ◌≡◌, refl, ◌⊎◌, inl, inr, Bool, true, false, ◌==◌,
  arith, ltb, leb, if◌then◌else◌,
}

-- `negsuc n` is -(n + 1).
pub data ℤ : Type 0 where
  pos : ℕ → ℤ
  negsuc : ℕ → ℤ

abbrev pub pos_part : ℤ → ℕ
pos_part (pos n) = n
pos_part (negsuc n) = 0

abbrev pub neg_part : ℤ → ℕ
neg_part (pos n) = 0
neg_part (negsuc n) = suc n

-- a - b, as an integer.
abbrev pub sub_ℕ : ℕ → ℕ → ℤ
sub_ℕ a b = if leb b a then pos (a - b) else negsuc (b - a - 1)

infixl 65 ◌+ℤ◌ ◌-ℤ◌
infixl 70 ◌*ℤ◌
infix 50 ◌≤ℤ◌ ◌<ℤ◌
unfoldable pub ◌+ℤ◌ : ℤ → ℤ → ℤ
a +ℤ b = sub_ℕ (pos_part a + pos_part b) (neg_part a + neg_part b)

unfoldable pub ◌-ℤ◌ : ℤ → ℤ → ℤ
a -ℤ b = sub_ℕ (pos_part a + neg_part b) (neg_part a + pos_part b)

unfoldable pub ◌*ℤ◌ : ℤ → ℤ → ℤ
a *ℤ b =
    sub_ℕ (pos_part a * pos_part b + neg_part a * neg_part b)
      (pos_part a * neg_part b + neg_part a * pos_part b)

abbrev pub ◌≤ℤ◌ : ℤ → ℤ → Type 0
a ≤ℤ b = pos_part a + neg_part b ≤ pos_part b + neg_part a

abbrev pub ◌<ℤ◌ : ℤ → ℤ → Type 0
a <ℤ b = pos_part a + neg_part b < pos_part b + neg_part a

abbrev pub ltb_ℤ : ℤ → ℤ → Bool
ltb_ℤ a b = ltb (pos_part a + neg_part b) (pos_part b + neg_part a)

abbrev pub leb_ℤ : ℤ → ℤ → Bool
leb_ℤ a b = leb (pos_part a + neg_part b) (pos_part b + neg_part a)

-- Comparisons with zero.
abbrev pub eqz : ℤ → Bool
eqz (pos n) = n == 0
eqz (negsuc n) = false

abbrev pub gtz : ℤ → Bool
gtz (pos n) = ltb 0 n
gtz (negsuc n) = false

abbrev pub ltz : ℤ → Bool
ltz (pos n) = false
ltz (negsuc n) = true

abbrev pub gez : ℤ → Bool
gez (pos n) = true
gez (negsuc n) = false

abbrev pub lez : ℤ → Bool
lez (pos n) = n == 0
lez (negsuc n) = true

-- C's division and remainder by a positive number: both go towards zero.
unfoldable pub quot_ℤ : ℤ → ℕ → ℤ
quot_ℤ a k = sub_ℕ (pos_part a / k) (neg_part a / k)

unfoldable pub rem_ℤ : ℤ → ℕ → ℤ
rem_ℤ a k = sub_ℕ (pos_part a % k) (neg_part a % k)

-- The value of the low bits of a number, read in two's complement. `half` is 2 ^ (w - 1).
unfoldable pub wrap_at : ℕ → ℤ → ℤ
wrap_at half a =
    let r = (pos_part a + (2 * half - neg_part a % (2 * half))) % (2 * half) in
    if ltb r half then pos r else negsuc (2 * half - r - 1)

-- An `int32_t` and an `int64_t` result of an operation.
unfoldable pub to_i32 : ℤ → ℤ
unfolding wrap_at
to_i32 a = wrap_at (2 ^ 31) a

unfoldable pub to_i64 : ℤ → ℤ
unfolding wrap_at
to_i64 a = wrap_at (2 ^ 63) a

pub to_i32_lem : (a : ℤ) → pos_part a < 2 ^ 31 → neg_part a ≤ 2 ^ 31 → to_i32 a ≡ a
unfolding to_i32
to_i32_lem a h k = ground arith

pub to_i64_lem : (a : ℤ) → pos_part a < 2 ^ 63 → neg_part a ≤ 2 ^ 63 → to_i64 a ≡ a
unfolding to_i64
to_i64_lem a h k = ground arith

-- One lemma for each operation lets `omega` work with the operations shut.
pub +ℤ_parts :
    (a b : ℤ)
    → pos_part (a +ℤ b) + neg_part a + neg_part b ≡ neg_part (a +ℤ b) + pos_part a + pos_part b
unfolding ◌+ℤ◌
+ℤ_parts a b = ground arith

pub eq_of_parts : (a b : ℤ) → pos_part a + neg_part b ≡ pos_part b + neg_part a → a ≡ b
eq_of_parts a b h = ground arith

pub sided : (a : ℤ) → (pos_part a ≡ 0) ⊎ (neg_part a ≡ 0)
sided (pos n) = inr refl
sided (negsuc n) = inl refl
