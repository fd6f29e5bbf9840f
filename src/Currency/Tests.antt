-- ===== src/Currency/Tests.antt =====
-- apps/boutique/sure/currencyservice/main.c with whole numbers in place of doubles.
use sure.Prelude.{◌≡◌, refl, [], ◌∷◌, arith, replicate}
use sure.Prelude.Int.{ℤ, pos, negsuc, ◌+ℤ◌, ◌-ℤ◌, ◌*ℤ◌, rem_ℤ, to_i32, to_i64}
use sure.Money.{Money, value}
use sure.Cart.ListMap.{list_map}
use sure.Service.Process.{returns}
use sure.Currency.Whole.{whole, whole-IsExact}
use sure.Currency.{
  CurrencyConversionRr, get_supported_currencies, list_codes, carry, get_currency_data, convert,
}
use sure.Currency.Carried.{lost, carry-value}

-- -0.000000005 becomes -1.000000005.
abbrev debt : Money
debt = record { currency_code = "EUR"; units = pos 0; nanos = negsuc 4 }

carry-value_example : value (carry whole debt) ≡ value debt -ℤ lost (negsuc 4)
carry-value_example = carry-value whole whole-IsExact debt (omega arith) (omega arith) (omega arith)

abbrev request : CurrencyConversionRr
request = record {
  from = record { currency_code = "USD"; units = pos 19; nanos = pos 990000000 };
  to_code = "CHF";
  res = record { currency_code = ""; units = pos 0; nanos = pos 0 };
}

-- A hundred thousand yen, asked for in yen, are divided by the rate twice.
yen_to_yen :
    convert whole
      (list_map ℤ)
      (record request {
        from = record { currency_code = "JPY"; units = pos 100000; nanos = pos 0 };
        to_code = "JPY";
      })
      (get_currency_data whole (list_map ℤ))
    ≡ returns (record {
      from = record { currency_code = "JPY"; units = pos 100000; nanos = pos 0 };
      to_code = "JPY";
      res = record { currency_code = "JPY"; units = pos 6; nanos = pos 0 };
    })
unfolding convert carry get_currency_data rem_ℤ ◌+ℤ◌ ◌*ℤ◌ to_i32 to_i64
yen_to_yen = refl

four_codes :
    (get_supported_currencies (record { num_currencies = 9; currency_codes = replicate 6 "" }))
    ≡ record { num_currencies = 4; currency_codes = "EUR" ∷ "USD" ∷ "JPY" ∷ "CAD" ∷ "" ∷ "" ∷ [] }
unfolding get_supported_currencies list_codes
four_codes = refl
