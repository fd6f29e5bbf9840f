-- ===== src/Currency/Floating.antt =====
-- What apps/boutique/sure/currencyservice/main.c asks of the type `double` and of math.h.
use sure.Prelude.{ℕ, ◌+◌, ◌/◌, ◌^◌, ◌<◌, ◌≤◌, ◌≡◌}
use sure.Prelude.Int.{ℤ, pos, negsuc, pos_part, neg_part, ◌+ℤ◌}

pub record Doubles : Type 1 where
  pub D : Type 0
  -- A decimal literal: the digits without the point, and how many stand behind it.
  pub literal : ℕ → ℕ → D
  -- (double) of an integer
  pub of_int : ℤ → D
  pub divide : D → D → D
  pub times : D → D → D
  pub plus : D → D → D
  pub floor : D → D
  pub round : D → D
  -- (int32_t) and (int64_t)
  pub as_i32 : D → ℤ
  pub as_i64 : D → ℤ

-- Division of an integer that goes down.
abbrev pub floor_div : ℤ → ℕ → ℤ
floor_div (pos n) k = pos (n / k)
floor_div (negsuc n) k = negsuc (n / k)

-- Doubles are exact at integers of up to 53 bits, and a quotient of an `int32_t` by 10 ^ 9 is far enough
-- from the next integer for its floor to be right.
pub record IsExact (d : Doubles) : Type 0 where
  pub as_i64_of_int :
      (a : ℤ) → pos_part a < 2 ^ 53 → neg_part a < 2 ^ 53 → d.as_i64 (d.of_int a) ≡ a
  pub as_i32_of_int :
      (a : ℤ) → pos_part a < 2 ^ 31 → neg_part a ≤ 2 ^ 31 → d.as_i32 (d.of_int a) ≡ a
  pub literal_of_int : (n : ℕ) → n < 2 ^ 53 → d.literal n 0 ≡ d.of_int (pos n)
  pub floor_of_int :
      (a : ℤ) → pos_part a < 2 ^ 53 → neg_part a < 2 ^ 53 → d.floor (d.of_int a) ≡ d.of_int a
  pub times_zero :
      (n : ℕ) → n < 2 ^ 53 → d.times (d.of_int (pos 0)) (d.of_int (pos n)) ≡ d.of_int (pos 0)
  pub plus_of_int :
      (a b : ℤ)
      → pos_part a + neg_part a < 2 ^ 52
      → pos_part b + neg_part b < 2 ^ 52
      → d.plus (d.of_int a) (d.of_int b) ≡ d.of_int (a +ℤ b)
  pub floor_divide :
      (a : ℤ)
      → pos_part a < 2 ^ 31
      → neg_part a ≤ 2 ^ 31
      → d.floor (d.divide (d.of_int a) (d.of_int (pos (10 ^ 9)))) ≡ d.of_int (floor_div a (10 ^ 9))
