-- ===== src/Currency/Carried.antt =====
-- `Carry` of apps/boutique/sure/currencyservice/main.c: what it does to the value of an amount.
use sure.Prelude.{
  ◌+◌, ◌%◌, ◌^◌, ◌≤◌, ◌<◌, ◌≡◌, refl, ap, ◌∙◌, ◌&&◌, not, ◌==◌, if◌then◌else◌, arith,
}
use sure.Prelude.Int.{ℤ, pos, negsuc, pos_part, neg_part, ◌+ℤ◌, ◌-ℤ◌, ◌*ℤ◌, ltz, rem_ℤ, to_i32_lem}
use sure.Money.{Money, nanos_mod, value}
use sure.Currency.Floating.{Doubles, IsExact, floor_div}
use sure.Currency.{carry}

-- What a carry loses: a unit, when the nanos are negative and no whole units.
abbrev pub lost : ℤ → ℤ
lost nanos = if ltz nanos && not (neg_part nanos % nanos_mod == 0) then pos nanos_mod else pos 0

add_zero : (a : ℤ) → (a +ℤ pos 0) ≡ a
unfolding ◌+ℤ◌
add_zero a = ground arith

rem_one : (a : ℤ) → rem_ℤ a 1 ≡ pos 0
unfolding rem_ℤ
rem_one a = ground arith

floor_div_bounds :
    (a : ℤ)
    → pos_part a < 2 ^ 31
    → neg_part a ≤ 2 ^ 31
    → pos_part (floor_div a (10 ^ 9)) + neg_part (floor_div a (10 ^ 9)) < 2 ^ 52
floor_div_bounds (pos n) h k = omega (arith, h)
floor_div_bounds (negsuc n) h k = omega (arith, k)

pos_part-+ℤ : (a b : ℤ) → pos_part (a +ℤ b) ≤ pos_part a + pos_part b
unfolding ◌+ℤ◌
pos_part-+ℤ a b = ground arith

neg_part-+ℤ : (a b : ℤ) → neg_part (a +ℤ b) ≤ neg_part a + neg_part b
unfolding ◌+ℤ◌
neg_part-+ℤ a b = ground arith

carried_value :
    (u n : ℤ)
    → ((u +ℤ floor_div n (10 ^ 9)) *ℤ pos nanos_mod +ℤ rem_ℤ n (10 ^ 9))
      ≡ u *ℤ pos nanos_mod +ℤ n -ℤ lost n
unfolding rem_ℤ ◌+ℤ◌ ◌-ℤ◌ ◌*ℤ◌
carried_value (pos u) (pos n) = ground arith
carried_value (pos u) (negsuc n) = ground arith
carried_value (negsuc u) (pos n) = ground arith
carried_value (negsuc u) (negsuc n) = ground arith

module _ (d : Doubles) (exact : IsExact d) where
  carry_parts :
      (m : Money)
      → pos_part m.units + neg_part m.units < 2 ^ 52
      → pos_part m.nanos < 2 ^ 31
      → neg_part m.nanos ≤ 2 ^ 31
      → carry d m
        ≡ record m { units = m.units +ℤ floor_div m.nanos (10 ^ 9); nanos = rem_ℤ m.nanos (10 ^ 9) }
  unfolding carry
  carry_parts m h k l =
      let small : pos_part (floor_div m.nanos (10 ^ 9)) + neg_part (floor_div m.nanos (10 ^ 9))
          < 2 ^ 52 =
        floor_div_bounds m.nanos k l in
      rw
        (
          rem_one m.units,
          exact.literal_of_int (10 ^ 9) (omega arith),
          exact.times_zero (10 ^ 9) (omega arith),
          exact.as_i32_of_int (pos 0) (omega arith) (omega arith),
          exact.as_i32_of_int (pos (10 ^ 9)) (omega arith) (omega arith),
          add_zero m.nanos,
          to_i32_lem m.nanos k l,
          exact.floor_divide m.nanos k l,
          exact.floor_of_int m.units (omega (arith, h)) (omega (arith, h)),
          exact.plus_of_int m.units (floor_div m.nanos (10 ^ 9)) h small,
          exact.as_i64_of_int (m.units +ℤ floor_div m.nanos (10 ^ 9))
              (omega (arith, h, small, pos_part-+ℤ m.units (floor_div m.nanos (10 ^ 9))))
              (omega (arith, h, small, neg_part-+ℤ m.units (floor_div m.nanos (10 ^ 9)))),
          carry,
        )
        refl

  -- With doubles that are exact at integers, a carry of an amount whose units have at most 52 bits leaves its
  -- value when the nanos are not negative, or are whole units; of other negative nanos it loses one unit,
  -- since the quotient goes down and the remainder goes towards zero.
  pub carry-value :
      (m : Money)
      → pos_part m.units + neg_part m.units < 2 ^ 52
      → pos_part m.nanos < 2 ^ 31
      → neg_part m.nanos ≤ 2 ^ 31
      → value (carry d m) ≡ value m -ℤ lost m.nanos
  carry-value m h k l = ap value (carry_parts m h k l) ∙ carried_value m.units m.nanos
