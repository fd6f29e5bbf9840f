-- ===== src/Currency/Whole.antt =====
-- Whole numbers in place of the doubles of apps/boutique/sure/currencyservice/main.c: what is asked of
-- doubles can be had.
use sure.Prelude.{ℕ, ◌/◌, ◌^◌, ◌≡◌, refl, ap, arith}
use sure.Prelude.Int.{ℤ, pos, pos_part, ◌+ℤ◌, ◌*ℤ◌, to_i32, to_i64, to_i32_lem, to_i64_lem}
use sure.Currency.Floating.{Doubles, IsExact, floor_div}

abbrev pub whole : Doubles
whole = record {
  D = ℤ;
  literal = λ n places. pos (n / 10 ^ places);
  of_int = λ a. a;
  divide = λ a b. floor_div a (pos_part b);
  times = λ a b. a *ℤ b;
  plus = λ a b. a +ℤ b;
  floor = λ a. a;
  round = λ a. a;
  as_i32 = to_i32;
  as_i64 = to_i64;
}

over_one : (n : ℕ) → pos (n / 10 ^ 0) ≡ pos n
over_one n = let e : n / 1 ≡ n = omega arith in ap pos e

zero_times : (n : ℕ) → (pos 0 *ℤ pos n) ≡ pos 0
unfolding ◌*ℤ◌
zero_times n = ground arith

pub whole-IsExact : IsExact whole
whole-IsExact = record {
  as_i64_of_int = λ a h k. to_i64_lem a (omega (arith, h)) (omega (arith, k));
  as_i32_of_int = to_i32_lem;
  literal_of_int = λ n _. over_one n;
  floor_of_int = λ a _ _. refl;
  times_zero = λ n _. zero_times n;
  plus_of_int = λ a b _ _. refl;
  floor_divide = λ a _ _. refl;
}
