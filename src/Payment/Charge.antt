-- ===== src/Payment/Charge.antt =====
-- `Charge` of apps/boutique/sure/paymentservice/main.c: which requests get a transaction.
use sure.Prelude.{
  ℕ, ◌+◌, ◌-◌, ◌*◌, ◌%◌, ◌^◌, ◌≤◌, ◌<◌, ◌≡◌, ◌≢◌, ◌⊎◌, inl, inr, refl, ap, ap₂, ◌∙◌, true, false,
  Bool-cases, ltb, arith,
}
use sure.Prelude.Int.{pos, ◌+ℤ◌, ◌*ℤ◌, ltb_ℤ, to_i32, to_i32_lem}
use sure.Payment.{
  CardType, amex, mastercard, visa, invalid, CreditCardInfo, ChargeRr, creditcard_validator,
  is_expired, charge, default_uuid,
}
use sure.Payment.Validator.{digit, luhn, creditcard_validator_iff}

-- A card number of so many digits is that of a Visa card or a MasterCard.
abbrev pub IsTaken : ℕ → ℕ → Type 0
IsTaken n digits =
    (luhn n digits % 10 ≡ 0)
    × (((13 ≤ digits) × (digits ≤ 16) × (digit n (digits - 1) ≡ 4))
        ⊎ ((digits ≡ 16)
            × (((50 ≤ digit n (digits - 2) + digit n (digits - 1) * 10)
                  × (digit n (digits - 2) + digit n (digits - 1) * 10 ≤ 55))
                ⊎ ((22 ≤ digit n (digits - 2) + digit n (digits - 1) * 10)
                    × (digit n (digits - 2) + digit n (digits - 1) * 10 ≤ 27)))))

-- A year and a month from May 2022 on.
abbrev pub IsLive : ℕ → ℕ → Type 0
IsLive year month = (2022 < year) ⊎ ((year ≡ 2022) × (5 ≤ month))

times_twelve : (y : ℕ) → (pos y *ℤ pos 12) ≡ pos (y * 12)
unfolding ◌*ℤ◌
times_twelve y = ground arith

total : (a b : ℕ) → (pos a +ℤ pos b) ≡ pos (a + b)
unfolding ◌+ℤ◌
total a b = ground arith

months :
    (y m : ℕ) → y < 2 ^ 24 → m ≤ 12 → to_i32 (to_i32 (pos y *ℤ pos 12) +ℤ pos m) ≡ pos (y * 12 + m)
months y m h k =
    ap (λ a. to_i32 (to_i32 a +ℤ pos m)) (times_twelve y)
    ∙ ap (λ a. to_i32 (a +ℤ pos m)) (to_i32_lem (pos (y * 12)) (omega (arith, h)) (omega arith))
    ∙ ap to_i32 (total (y * 12) m)
    ∙ to_i32_lem (pos (y * 12 + m)) (omega (arith, h, k)) (omega arith)

is_expired_lem :
    (card : CreditCardInfo) (y m : ℕ)
    → card.credit_card_expiration_year ≡ pos y
    → card.credit_card_expiration_month ≡ pos m
    → y < 2 ^ 24
    → m ≤ 12
    → is_expired card ≡ ltb (y * 12 + m) (2022 * 12 + 5)
is_expired_lem card y m e f h k =
    ap₂ (λ a b. ltb_ℤ (to_i32 (to_i32 (a *ℤ pos 12) +ℤ b)) (pos (2022 * 12 + 5))) e f
    ∙ ap (λ a. ltb_ℤ a (pos (2022 * 12 + 5))) (months y m h k)
    ∙ ap (λ a. ltb a (2022 * 12 + 5 + 0)) (ground arith)

is_expired-IsLive :
    (y m : ℕ)
    → 1 ≤ m
    → m ≤ 12
    → ((ltb (y * 12 + m) (2022 * 12 + 5) ≡ false) × IsLive y m)
      ⊎ ((ltb (y * 12 + m) (2022 * 12 + 5) ≡ true) × (¬ IsLive y m))
is_expired-IsLive y m low high = elim (Bool-cases (ltb (y * 12 + m) (2022 * 12 + 5))) [
  | inl e ↦
      inr (e, (λ live. elim live [ inl after ↦ ground arith | inr (same, from) ↦ ground arith ]))
  | inr e ↦ inl (e, ground arith)
]

known :
    (brand : CardType)
    → ((brand ≡ visa) ⊎ (brand ≡ mastercard)) ⊎ ((brand ≢ visa) × (brand ≢ mastercard))
known visa = inl (inl refl)
known mastercard = inl (inr refl)
known amex = inr ((λ e. ground arith), (λ e. ground arith))
known invalid = inr ((λ e. ground arith), (λ e. ground arith))

creditcard_validator-IsTaken :
    (floor_log10 : ℕ → ℕ) (n digits : ℕ)
    → floor_log10 n + 1 ≡ digits
    → 2 ≤ digits
    → (((creditcard_validator floor_log10 n ≡ visa)
          ⊎ (creditcard_validator floor_log10 n ≡ mastercard))
        × IsTaken n digits)
      ⊎ (((creditcard_validator floor_log10 n ≢ visa)
            × (creditcard_validator floor_log10 n ≢ mastercard))
          × (¬ IsTaken n digits))
creditcard_validator-IsTaken floor_log10 n digits log long =
    let (to_visa, to_mastercard) = creditcard_validator_iff floor_log10 n digits log long in
    elim (known (creditcard_validator floor_log10 n)) [
      | inl either ↦ elim either [
        | inl e ↦
            (let (sum, low, high, four) = to_visa.0 e in inl (inl e, (sum, inl (low, high, four))))
        | inr e ↦
            (let (sum, exact, range) = to_mastercard.0 e in inl (inr e, (sum, inr (exact, range))))
      ]
      | inr (u, v) ↦ inr (
        (u, v),
        (λ (sum, rest). elim rest [
          | inl (low, high, four) ↦ u (to_visa.1 (sum, low, high, four))
          | inr (exact, range) ↦ v (to_mastercard.1 (sum, exact, range))
        ]),
      )
    ]

charged :
    (floor_log10 : ℕ → ℕ) (rr : ChargeRr)
    → (creditcard_validator floor_log10 rr.credit_card.credit_card_number ≡ visa)
      ⊎ (creditcard_validator floor_log10 rr.credit_card.credit_card_number ≡ mastercard)
    → is_expired rr.credit_card ≡ false
    → charge floor_log10 rr ≡ record rr { transaction_id = default_uuid }
unfolding charge
charged floor_log10 rr brand live = elim brand [
  | inl e ↦ rw (e, live) refl
  | inr e ↦ rw (e, live) refl
]

by_brand :
    (floor_log10 : ℕ → ℕ) (rr : ChargeRr) (brand : CardType)
    → creditcard_validator floor_log10 rr.credit_card.credit_card_number ≡ brand
    → (brand ≢ visa) × (brand ≢ mastercard)
    → charge floor_log10 rr ≡ rr
unfolding charge
by_brand floor_log10 rr visa e (u, v) = absurd (u refl)
by_brand floor_log10 rr mastercard e (u, v) = absurd (v refl)
by_brand floor_log10 rr amex e h = rw (e) refl
by_brand floor_log10 rr invalid e h = rw (e) refl

too_old :
    (floor_log10 : ℕ → ℕ) (rr : ChargeRr)
    → (creditcard_validator floor_log10 rr.credit_card.credit_card_number ≡ visa)
      ⊎ (creditcard_validator floor_log10 rr.credit_card.credit_card_number ≡ mastercard)
    → is_expired rr.credit_card ≡ true
    → charge floor_log10 rr ≡ rr
unfolding charge
too_old floor_log10 rr brand old = elim brand [
  | inl e ↦ rw (e, old) refl
  | inr e ↦ rw (e, old) refl
]

-- When `floor_log10` is exact for the number of the card, which has at least two digits, its month is
-- one of the twelve and its year below 2 ^ 24: `Charge` writes the transaction id, and nothing else,
-- when the number is that of a Visa card or a MasterCard by its digits and by Luhn's sum and the month
-- is May 2022 or later, and leaves the request as it is in every other case.
pub charge_lem :
    (floor_log10 : ℕ → ℕ) (rr : ChargeRr) (digits year month : ℕ)
    → floor_log10 rr.credit_card.credit_card_number + 1 ≡ digits
    → 2 ≤ digits
    → rr.credit_card.credit_card_expiration_year ≡ pos year
    → rr.credit_card.credit_card_expiration_month ≡ pos month
    → year < 2 ^ 24
    → 1 ≤ month
    → month ≤ 12
    → ((IsTaken rr.credit_card.credit_card_number digits × IsLive year month)
        × (charge floor_log10 rr ≡ record rr { transaction_id = default_uuid }))
      ⊎ ((¬ (IsTaken rr.credit_card.credit_card_number digits × IsLive year month))
          × (charge floor_log10 rr ≡ rr))
charge_lem floor_log10 rr digits year month log long y m early low high =
    let expired = is_expired_lem rr.credit_card year month y m early high in
    let number = rr.credit_card.credit_card_number in
    elim (creditcard_validator-IsTaken floor_log10 number digits log long) [
      | inl (brand, taken) ↦ elim (is_expired-IsLive year month low high) [
        | inl (e, live) ↦ inl ((taken, live), charged floor_log10 rr brand (expired ∙ e))
        | inr (e, old) ↦ inr ((λ (_, live). old live), too_old floor_log10 rr brand (expired ∙ e))
      ]
      | inr (other, untaken) ↦
          inr ((λ (taken, _). untaken taken), by_brand floor_log10 rr _ refl other)
    ]
