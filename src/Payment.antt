-- ===== src/Payment.antt =====
-- apps/boutique/sure/paymentservice/main.c: which cards are charged.
pub mod Validator
pub mod Charge
mod Tests
use Prim.Native.String.{String}
use sure.Prelude.{
  ℕ, zero, suc, ◌+◌, ◌-◌, ◌*◌, ◌/◌, ◌%◌, Bool, true, false, not, ◌&&◌, ◌||◌, ltb, leb, ◌==◌,
  if◌then◌else◌,
}
use sure.Prelude.Int.{ℤ, pos, ◌+ℤ◌, ◌*ℤ◌, ltb_ℤ, to_i32}
use sure.Money.{Money}

-- The strings that `creditcard_validator` returns.
pub data CardType : Type 0 where
  amex mastercard visa invalid : CardType

-- `get_digit_sum`
unfoldable pub get_digit_sum : ℕ → ℕ
get_digit_sum n = n / 10 + n % 10

-- The variables of the loop of `creditcard_validator`.
pub record Scan : Type 0 where
  pub credit_card : ℕ
  pub sum : ℕ
  pub first_digits : ℕ

-- A round of the loop. The comparisons are of `int`, where `digits - 2` may be negative.
unfoldable pub scan_digit : ℕ → ℕ → Scan → Scan
unfolding get_digit_sum
scan_digit digits i s = record {
  credit_card = s.credit_card / 10;
  sum =
      s.sum + (if i % 2 == 1 then get_digit_sum (2 * (s.credit_card % 10)) else s.credit_card % 10);
  first_digits =
      if i + 2 == digits
      then s.credit_card % 10
      else if i + 1 == digits
      then s.first_digits + s.credit_card % 10 * 10
      else s.first_digits;
}

-- `for (i = 0; i < digits; i++)`, with the rounds that are left.
unfoldable pub scan_digits : ℕ → ℕ → ℕ → Scan → Scan
scan_digits digits zero i s = s
scan_digits digits (suc left) i s = scan_digits digits left (i + 1) (scan_digit digits i s)

-- The tests behind the loop.
unfoldable pub card_type : ℕ → ℕ → ℕ → CardType
card_type digits sum first_digits =
    if sum % 10 == 0
    then (if digits == 15 && (first_digits == 34 || first_digits == 37)
        then amex
        else if digits == 16
            && ((leb 50 first_digits && leb first_digits 55)
                || (leb 22 first_digits && leb first_digits 27))
        then mastercard
        else if (leb 13 digits && leb digits 16) && first_digits / 10 == 4
        then visa
        else invalid)
    else invalid

-- `creditcard_validator`. The argument is what `(int)floor(log10(num))` gives; card numbers are not
-- negative, as the logarithm asks.
unfoldable pub creditcard_validator : (ℕ → ℕ) → ℕ → CardType
unfolding scan_digits card_type
creditcard_validator floor_log10 credit_card =
    let digits = floor_log10 credit_card + 1 in
    let s =
      scan_digits digits digits 0
        (record { credit_card = credit_card; sum = 0; first_digits = 0 }) in
    card_type digits s.sum s.first_digits

-- `struct _creditCardInfo` and `struct _chargeRequest`; the card number as `strtoll` reads it.
pub record CreditCardInfo : Type 0 where
  pub credit_card_number : ℕ
  pub credit_card_cvv : ℤ
  pub credit_card_expiration_year : ℤ
  pub credit_card_expiration_month : ℤ

pub record ChargeRr : Type 0 where
  pub amount : Money
  pub credit_card : CreditCardInfo
  pub transaction_id : String

-- DEFAULT_UUID
abbrev pub default_uuid : String
default_uuid = "1b4e28ba-2fa1-11d2-883f-0016d3cca427"

-- `strcmp(cardType, "visa") != 0 && strcmp(cardType, "mastercard") != 0`
abbrev pub is_refused : CardType → Bool
is_refused visa = false
is_refused mastercard = false
is_refused amex = true
is_refused invalid = true

-- `!strcmp(cardType, "invalid")`
abbrev pub is_invalid : CardType → Bool
is_invalid invalid = true
is_invalid _ = false

-- `(currentYear * 12 + currentMonth) > (year * 12 + month)`
abbrev pub is_expired : CreditCardInfo → Bool
is_expired card =
    ltb_ℤ
      (to_i32
        (to_i32 (card.credit_card_expiration_year *ℤ pos 12) +ℤ card.credit_card_expiration_month))
      (pos (2022 * 12 + 5))

-- `Charge`: a refused card leaves the response as it was.
unfoldable pub charge : (ℕ → ℕ) → ChargeRr → ChargeRr
charge floor_log10 rr =
    let card_type = creditcard_validator floor_log10 rr.credit_card.credit_card_number in
    if is_invalid card_type
    then rr
    else if is_refused card_type
    then rr
    else if is_expired rr.credit_card
    then rr
    else record rr { transaction_id = default_uuid }
