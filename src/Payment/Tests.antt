-- ===== src/Payment/Tests.antt =====
-- apps/boutique/sure/paymentservice/main.c at a card of the demo shop.
use sure.Prelude.{
  ℕ, false, true, zero, suc, ◌+◌, ◌*◌, ◌/◌, ◌%◌, ◌≤◌, ◌≡◌, ◌≢◌, ◌↔◌, ◌⊎◌, inl, inr, refl, ltb,
  if◌then◌else◌, arith,
}
use sure.Prelude.Int.{pos}
use sure.Payment.{
  amex, mastercard, visa, invalid, ChargeRr, creditcard_validator, default_uuid, charge,
  scan_digits, card_type, scan_digit, get_digit_sum,
}
use sure.Payment.Validator.{digit, luhn, creditcard_validator_iff}
use sure.Payment.Charge.{IsTaken, IsLive, charge_lem}

abbrev log_below : ℕ → ℕ → ℕ
log_below zero n = 0
log_below (suc fuel) n = if ltb n 10 then 0 else suc (log_below fuel (n / 10))

abbrev floor_log10 : ℕ → ℕ
floor_log10 = log_below 20

abbrev visa_number : ℕ
visa_number = 4432801561520454

abbrev mastercard_number : ℕ
mastercard_number = 5555555555554444

abbrev request : ChargeRr
request = record {
  amount = record { currency_code = "USD"; units = pos 12; nanos = pos 0 };
  credit_card = record {
    credit_card_number = visa_number;
    credit_card_cvv = pos 672;
    credit_card_expiration_year = pos 2022;
    credit_card_expiration_month = pos 5;
  };
  transaction_id = "";
}

visa_runs : creditcard_validator floor_log10 visa_number ≡ visa
unfolding creditcard_validator scan_digits card_type scan_digit get_digit_sum
visa_runs = refl

mastercard_runs : creditcard_validator floor_log10 mastercard_number ≡ mastercard
unfolding creditcard_validator scan_digits card_type scan_digit get_digit_sum
mastercard_runs = refl

amex_runs : creditcard_validator floor_log10 378282246310005 ≡ amex
unfolding creditcard_validator scan_digits card_type scan_digit get_digit_sum
amex_runs = refl

invalid_runs : creditcard_validator floor_log10 4432801561520455 ≡ invalid
unfolding creditcard_validator scan_digits card_type scan_digit get_digit_sum
invalid_runs = refl

creditcard_validator_iff_example :
    ((creditcard_validator floor_log10 mastercard_number ≡ visa) ↔ (
      (luhn mastercard_number 16 % 10 ≡ 0)
      × (13 ≤ 16)
      × (16 ≤ 16)
      × (digit mastercard_number 15 ≡ 4)))
    × ((creditcard_validator floor_log10 mastercard_number ≡ mastercard) ↔ (
        (luhn mastercard_number 16 % 10 ≡ 0)
        × (◌≡◌ {A = ℕ} 16 16)
        × (((50 ≤ digit mastercard_number 14 + digit mastercard_number 15 * 10)
              × (digit mastercard_number 14 + digit mastercard_number 15 * 10 ≤ 55))
            ⊎ ((22 ≤ digit mastercard_number 14 + digit mastercard_number 15 * 10)
                × (digit mastercard_number 14 + digit mastercard_number 15 * 10 ≤ 27)))))
creditcard_validator_iff_example =
    creditcard_validator_iff floor_log10 mastercard_number 16 refl (omega arith)

charge_lem_example :
    ((IsTaken visa_number 16 × IsLive 2022 5)
      × (charge floor_log10 request ≡ record request { transaction_id = default_uuid }))
    ⊎ ((¬ (IsTaken visa_number 16 × IsLive 2022 5)) × (charge floor_log10 request ≡ request))
charge_lem_example =
    charge_lem floor_log10 request 16 2022 5 refl (omega arith) refl refl (omega arith)
      (omega arith) (omega arith)

visa_charged : charge floor_log10 request ≡ record request { transaction_id = default_uuid }
unfolding creditcard_validator scan_digits card_type scan_digit get_digit_sum charge
    sure.Prelude.Int.to_i32 sure.Prelude.Int.◌+ℤ◌ sure.Prelude.Int.◌*ℤ◌
visa_charged = refl
