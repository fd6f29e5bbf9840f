-- ===== src/Currency/Rates.antt =====
-- apps/boutique/sure/currencyservice/main.c: which currencies have a rate, and what `Convert` answers.
use Prim.Native.String.{String}
use sure.Prelude.{
  ◌≡◌, ◌≢◌, ◌⊎◌, refl, sym, ap, ◌∙◌, inl, inr, Bool-cases, if◌then◌else◌, Option, none, some,
  Option-cases,
}
use sure.Prelude.Texts.{same_text, same_text→eq, different_text→ne}
use sure.Cart.CMap.{CMap}
use sure.Service.Process.{Exec, returns, exits}
use sure.Currency.Floating.{Doubles}
use sure.Currency.{CurrencyConversionRr, get_currency_data, convert}

module _ (d : Doubles) (m : CMap d.D) where
  open m use {Store, empty, insert, find, find-empty, find-insert, find-insert_other}

  -- The rates of the four currencies.
  abbrev pub rate_of : String → Option d.D
  rate_of code =
      if same_text code "CAD"
      then some (d.literal 15128 4)
      else if same_text code "JPY"
      then some (d.literal 12640 2)
      else if same_text code "USD"
      then some (d.literal 11305 4)
      else if same_text code "EUR"
      then some (d.literal 10 1)
      else none

  after_insert :
      (code k : String) (v : d.D) (s : Store) (o : Option d.D)
      → find k s ≡ none
      → find code s ≡ o
      → find code (insert k v s) ≡ (if same_text code k then some v else o)
  after_insert code k v s o new old = elim (Bool-cases (same_text code k)) [
    | inl e ↦
        rw (e) (ap (λ c. find c (insert k v s)) (same_text→eq code k e) ∙ find-insert k v s new)
    | inr e ↦ rw (e) (find-insert_other code k v s (different_text→ne code k e) ∙ old)
  ]

  still_none :
      (code k : String) (v : d.D) (s : Store)
      → code ≢ k
      → find code s ≡ none
      → find code (insert k v s) ≡ none
  still_none code k v s other h = find-insert_other code k v s other ∙ h

  pub find-get_currency_data : (code : String) → find code (get_currency_data d m) ≡ rate_of code
  unfolding get_currency_data
  find-get_currency_data code =
      let eur : d.D = d.literal 10 1 in
      let usd : d.D = d.literal 11305 4 in
      let jpy : d.D = d.literal 12640 2 in
      let s1 : Store = insert "EUR" eur empty in
      let s2 : Store = insert "USD" usd s1 in
      let s3 : Store = insert "JPY" jpy s2 in
      after_insert code "CAD" (d.literal 15128 4) s3 _
        (still_none "CAD" "JPY" jpy s2 (different_text→ne "CAD" "JPY" refl) (
          still_none "CAD" "USD" usd s1 (different_text→ne "CAD" "USD" refl) (
            still_none "CAD" "EUR" eur empty (different_text→ne "CAD" "EUR" refl)
              (find-empty "CAD"))))
        (after_insert code "JPY" jpy s2 _
          (still_none "JPY" "USD" usd s1 (different_text→ne "JPY" "USD" refl) (
            still_none "JPY" "EUR" eur empty (different_text→ne "JPY" "EUR" refl)
              (find-empty "JPY")))
          (after_insert code "USD" usd s1 _
            (still_none "USD" "EUR" eur empty (different_text→ne "USD" "EUR" refl)
              (find-empty "USD"))
            (after_insert code "EUR" eur empty _ (find-empty "EUR") (find-empty code))))

  -- How `Convert` may end.
  abbrev pub Converted : CurrencyConversionRr → Exec CurrencyConversionRr → Type 0
  Converted rr exits = (rate_of rr.from.currency_code ≡ none) ⊎ (rate_of rr.to_code ≡ none)
  Converted rr (returns rr') =
      (rate : d.D) × (rate' : d.D) × (rate_of rr.from.currency_code ≡ some rate)
      × (rate_of rr.to_code ≡ some rate')
      × (rr'.from ≡ rr.from)
      × (rr'.res.currency_code ≡ rr.to_code)

  -- With the rates that the service starts with, `Convert` exits exactly when the currency of the amount or
  -- the one that is asked for is not EUR, USD, JPY or CAD; else it leaves the request and answers with an
  -- amount in the currency that is asked for.
  pub convert-Converted :
      (rr : CurrencyConversionRr) → Converted rr (convert d m rr (get_currency_data d m))
  unfolding convert
  convert-Converted rr =
      let s : Store = get_currency_data d m in
      let from : String = rr.from.currency_code in
      elim (Option-cases (find from s)) [
        | inl e ↦ rw (e, convert) (inl (sym (find-get_currency_data from) ∙ e))
        | inr (r, e) ↦ elim (Option-cases (find rr.to_code s)) [
          | inl f ↦ rw (e, f, convert) (inr (sym (find-get_currency_data rr.to_code) ∙ f))
          | inr (r', f) ↦
              rw (e, f, convert)
                (
                  r,
                  r',
                  sym (find-get_currency_data from) ∙ e,
                  sym (find-get_currency_data rr.to_code) ∙ f,
                  refl,
                  refl,
                )
        ]
      ]
