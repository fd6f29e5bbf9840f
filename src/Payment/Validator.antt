-- ===== src/Payment/Validator.antt =====
-- `creditcard_validator` of apps/boutique/sure/paymentservice/main.c against the digits of the number.
use native.Mathlib.Nat.{pow-suc, div-div-eq-div-mul}
use sure.Prelude.{
  ℕ, zero, suc, ◌+◌, ◌-◌, ◌*◌, ◌/◌, ◌%◌, ◌^◌, ◌≤◌, ◌<◌, ◌≡◌, ◌⊎◌, ◌↔◌, refl, sym, ap, ap₂, subst,
  ◌∙◌, ◌==◌, if◌then◌else◌, arith,
}
use sure.Payment.{
  mastercard, visa, Scan, get_digit_sum, scan_digit, scan_digits, card_type, creditcard_validator,
}

-- The decimal digit of a number at a place, counted from the last one.
abbrev pub digit : ℕ → ℕ → ℕ
digit n place = n / 10 ^ place % 10

-- Luhn's sum of the digits at the places below a bound: at each odd place the digit is doubled, and
-- the two digits of the result are added.
abbrev pub luhn : ℕ → ℕ → ℕ
luhn n zero = 0
luhn n (suc k) =
    luhn n k + (if k % 2 == 1 then (2 * digit n k) / 10 + (2 * digit n k) % 10 else digit n k)

-- The variables of the loop before the round `i`.
record At (n digits i : ℕ) (s : Scan) : Type 0 where
  number : s.credit_card ≡ n / 10 ^ i
  total : s.sum ≡ luhn n i
  first_before : i + 2 ≤ digits → s.first_digits ≡ 0
  first_within : i + 1 ≡ digits → 2 ≤ digits → s.first_digits ≡ digit n (digits - 2)
  first_after :
      i ≡ digits → 2 ≤ digits → s.first_digits ≡ digit n (digits - 2) + digit n (digits - 1) * 10

-- The test of `i == digits - 2` and that of `i == digits - 1`, before, at and behind them.
first_skips :
    (i digits x y z : ℕ)
    → i + 3 ≤ digits
    → (if i + 2 == digits then x else if i + 1 == digits then y else z) ≡ z
first_skips i digits x y z h = ground arith

first_starts :
    (i digits x y z : ℕ)
    → i + 2 ≡ digits
    → (if i + 2 == digits then x else if i + 1 == digits then y else z) ≡ x
first_starts i digits x y z h = ground arith

first_adds :
    (i digits x y z : ℕ)
    → i + 1 ≡ digits
    → (if i + 2 == digits then x else if i + 1 == digits then y else z) ≡ y
first_adds i digits x y z h = ground arith

place : (n i j c : ℕ) → c ≡ n / 10 ^ i → i ≡ j → c % 10 ≡ digit n j
place n i j c e f = ap (λ k. k % 10) e ∙ ap (digit n) f

scan_digit-At :
    (n digits i : ℕ) (s : Scan)
    → i < digits
    → At n digits i s
    → At n digits (suc i) (scan_digit digits i s)
unfolding scan_digit get_digit_sum
scan_digit-At n digits i s h a = record {
  number = rw (a.number, pow-suc 10 i) (div-div-eq-div-mul n (10 ^ i) 10);
  total = rw (a.total, a.number);
  first_before = λ l. first_skips i digits _ _ _ (omega arith) ∙ a.first_before (omega arith);
  first_within = λ e l.
      first_starts i digits _ _ _ (omega arith)
      ∙ place n i (digits - 2) s.credit_card a.number (omega arith);
  first_after = λ e l.
      first_adds i digits _ _ _ (omega arith)
      ∙ ap₂ (λ x y. x + y * 10) (a.first_within (omega arith) l)
          (place n i (digits - 1) s.credit_card a.number (omega arith));
}

scan_digits-At :
    (left n digits i : ℕ) (s : Scan)
    → i + left ≡ digits
    → At n digits i s
    → At n digits digits (scan_digits digits left i s)
unfolding scan_digits
scan_digits-At zero n digits i s e a = subst (λ k. At n digits k s) (omega arith) a
scan_digits-At (suc left) n digits i s e a =
    scan_digits-At left n digits (i + 1) (scan_digit digits i s) (omega arith) (
      subst (λ k. At n digits k (scan_digit digits i s)) (omega arith)
        (scan_digit-At n digits i s (omega arith) a))

start : ℕ → Scan
start n = record { credit_card = n; sum = 0; first_digits = 0 }

start-At : (n digits : ℕ) → 2 ≤ digits → At n digits 0 (start n)
unfolding start
start-At n digits l = record {
  number = omega arith;
  total = refl;
  first_before = λ _. refl;
  first_within = λ e m. absurd (omega arith);
  first_after = λ e m. absurd (omega arith);
}

-- What the loop finds: Luhn's sum of all digits, and the two digits in front.
creditcard_validator_lem :
    (floor_log10 : ℕ → ℕ) (n digits : ℕ)
    → floor_log10 n + 1 ≡ digits
    → 2 ≤ digits
    → creditcard_validator floor_log10 n
      ≡ card_type digits (luhn n digits) (digit n (digits - 2) + digit n (digits - 1) * 10)
unfolding creditcard_validator start
creditcard_validator_lem floor_log10 n digits log long =
    let a : At n digits digits (scan_digits digits digits 0 (start n)) =
      scan_digits-At digits n digits 0 (start n) (omega arith) (start-At n digits long) in
    ap
      (λ k.
        card_type k (scan_digits k k 0 (start n)).sum (scan_digits k k 0 (start n)).first_digits)
      log
    ∙ ap₂ (card_type digits) a.total (a.first_after refl long)

card_type-visa_iff :
    (digits sum a b : ℕ)
    → a < 10
    → (card_type digits sum (a + b * 10) ≡ visa)
      ↔ ((sum % 10 ≡ 0) × (13 ≤ digits) × (digits ≤ 16) × (b ≡ 4))
unfolding card_type
card_type-visa_iff digits sum a b h = ground arith

card_type-mastercard_iff :
    (digits sum first : ℕ)
    → (card_type digits sum first ≡ mastercard) ↔ (
        (sum % 10 ≡ 0)
        × (digits ≡ 16)
        × (((50 ≤ first) × (first ≤ 55)) ⊎ ((22 ≤ first) × (first ≤ 27))))
unfolding card_type
card_type-mastercard_iff digits sum first = ground arith

creditcard_validator-visa_iff :
    (floor_log10 : ℕ → ℕ) (n digits : ℕ)
    → floor_log10 n + 1 ≡ digits
    → 2 ≤ digits
    → (creditcard_validator floor_log10 n ≡ visa)
      ↔ ((luhn n digits % 10 ≡ 0) × (13 ≤ digits) × (digits ≤ 16) × (digit n (digits - 1) ≡ 4))
creditcard_validator-visa_iff floor_log10 n digits log long =
    subst
      (λ t.
        (t ≡ visa)
        ↔ ((luhn n digits % 10 ≡ 0) × (13 ≤ digits) × (digits ≤ 16) × (digit n (digits - 1) ≡ 4)))
      (sym (creditcard_validator_lem floor_log10 n digits log long))
      (card_type-visa_iff digits (luhn n digits) (digit n (digits - 2)) (digit n (digits - 1))
        (omega arith))

creditcard_validator-mastercard_iff :
    (floor_log10 : ℕ → ℕ) (n digits : ℕ)
    → floor_log10 n + 1 ≡ digits
    → 2 ≤ digits
    → let first = digit n (digits - 2) + digit n (digits - 1) * 10 in
      (creditcard_validator floor_log10 n ≡ mastercard) ↔ (
        (luhn n digits % 10 ≡ 0)
        × (digits ≡ 16)
        × (((50 ≤ first) × (first ≤ 55)) ⊎ ((22 ≤ first) × (first ≤ 27))))
creditcard_validator-mastercard_iff floor_log10 n digits log long =
    let first = digit n (digits - 2) + digit n (digits - 1) * 10 in
    subst
      (λ t. (t ≡ mastercard) ↔ (
        (luhn n digits % 10 ≡ 0)
        × (digits ≡ 16)
        × (((50 ≤ first) × (first ≤ 55)) ⊎ ((22 ≤ first) × (first ≤ 27)))))
      (sym (creditcard_validator_lem floor_log10 n digits log long))
      (card_type-mastercard_iff digits (luhn n digits) first)

-- When `floor_log10` is exact and the number has at least two digits, `creditcard_validator` says "visa"
-- just for the numbers of 13 to 16 digits that begin with a 4, and "mastercard" just for the numbers of
-- 16 digits whose first two digits make 50 to 55 or 22 to 27; of both, just for those whose sum by Luhn
-- is a multiple of 10.
pub creditcard_validator_iff :
    (floor_log10 : ℕ → ℕ) (n digits : ℕ)
    → floor_log10 n + 1 ≡ digits
    → 2 ≤ digits
    → let first = digit n (digits - 2) + digit n (digits - 1) * 10 in
      ((creditcard_validator floor_log10 n ≡ visa)
        ↔ ((luhn n digits % 10 ≡ 0) × (13 ≤ digits) × (digits ≤ 16) × (digit n (digits - 1) ≡ 4)))
      × ((creditcard_validator floor_log10 n ≡ mastercard) ↔ (
          (luhn n digits % 10 ≡ 0)
          × (digits ≡ 16)
          × (((50 ≤ first) × (first ≤ 55)) ⊎ ((22 ≤ first) × (first ≤ 27)))))
creditcard_validator_iff floor_log10 n digits log long = (
  creditcard_validator-visa_iff floor_log10 n digits log long,
  creditcard_validator-mastercard_iff floor_log10 n digits log long,
)
