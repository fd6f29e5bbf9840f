-- ===== src/Money/Tests.antt =====
-- Sums and multiples of amounts, and the theorems at concrete ones.
use sure.Prelude.{◌≤◌, ◌≡◌, ◌↔◌, refl, arith}
use sure.Prelude.Int.{pos, negsuc, ◌+ℤ◌, ◌*ℤ◌, to_i32, to_i64, quot_ℤ, rem_ℤ, ◌-ℤ◌}
use sure.Money.{Money, money_sum, money_multiply_slow, value, IsValid}
use sure.Money.Sum.{Carries, money_sum-value, money_sum-IsValid_iff}
use sure.Money.Multiply.{money_multiply_slow-exact_iff}

-- 8.99 and 19.99 dollars, and minus a quarter.
abbrev quote : Money
quote = record { currency_code = "USD"; units = pos 8; nanos = pos 990_000_000 }

abbrev sunglasses : Money
sunglasses = record { currency_code = "USD"; units = pos 19; nanos = pos 990_000_000 }

abbrev quarter_off : Money
quarter_off = record { currency_code = "USD"; units = pos 0; nanos = negsuc 249_999_999 }

abbrev half : Money
half = record { currency_code = "USD"; units = pos 0; nanos = pos 500_000_000 }

abbrev sixty_cents : Money
sixty_cents = record { currency_code = "USD"; units = pos 0; nanos = pos 600_000_000 }

abbrev nothing : Money
nothing = record { currency_code = "USD"; units = pos 0; nanos = pos 0 }

sum_carries : money_sum quote sunglasses ≡ record quote { units = pos 28; nanos = pos 980_000_000 }
unfolding money_sum to_i32 to_i64 quot_ℤ rem_ℤ ◌+ℤ◌ ◌-ℤ◌
sum_carries = refl

sum_borrows : money_sum quote quarter_off ≡ record quote { nanos = pos 740_000_000 }
unfolding money_sum to_i32 to_i64 quot_ℤ rem_ℤ ◌+ℤ◌ ◌-ℤ◌
sum_borrows = refl

-- Half a dollar and nothing come to one dollar less half a dollar.
sum_of_cents : money_sum half nothing ≡ record half { units = pos 1; nanos = negsuc 499_999_999 }
unfolding money_sum to_i32 to_i64 quot_ℤ rem_ℤ ◌+ℤ◌ ◌-ℤ◌
sum_of_cents = refl

-- Four pairs of sunglasses are charged as eight.
four_items :
    money_multiply_slow sunglasses 4
    ≡ record sunglasses { units = pos 159; nanos = pos 920_000_000 }
unfolding money_multiply_slow money_sum to_i32 to_i64 quot_ℤ rem_ℤ ◌+ℤ◌ ◌-ℤ◌
four_items = refl

quote-IsValid : IsValid quote
quote-IsValid = omega arith

sunglasses-IsValid : IsValid sunglasses
sunglasses-IsValid = omega arith

half-IsValid : IsValid half
half-IsValid = omega arith

money_sum-value_example : value (money_sum quote sunglasses) ≡ value quote +ℤ value sunglasses
unfolding ◌+ℤ◌
money_sum-value_example =
    money_sum-value quote sunglasses quote-IsValid sunglasses-IsValid (omega arith, omega arith)
      (λ z. omega arith)

money_sum-IsValid_iff_example :
    IsValid (money_sum half sixty_cents)
    ↔ Carries (half.units +ℤ sixty_cents.units) (half.nanos +ℤ sixty_cents.nanos)
unfolding ◌+ℤ◌
money_sum-IsValid_iff_example =
    money_sum-IsValid_iff half sixty_cents half-IsValid (omega arith) (omega arith, omega arith)

money_multiply_slow-exact_iff_example :
    (value (money_multiply_slow sunglasses 4) ≡ value sunglasses *ℤ pos 4) ↔ (3 ≤ 1)
money_multiply_slow-exact_iff_example =
    money_multiply_slow-exact_iff 3 sunglasses sunglasses-IsValid (omega arith) (omega arith)
