-- ===== src/Boutique/Wires/Answers.antt =====
-- The shop of apps/boutique/sure: answers that do not depend on what stood in the buffer.
use Prim.Native.String.{String}
use sure.Prelude.{
  ℕ, ◌≤◌, ◌<◌, ◌≡◌, refl, ◌∙◌, List, get_or, get_or-append_left, get_or-take, length-take, length,
  take, drop, some, arith, inl, inr, Option-cases,
}
use sure.Money.{Money}
use sure.Cart.{CartItem, zero_item}
use sure.Catalog.{GetProductRr, find_product, get_product}
use sure.Catalog.Table.{Product, products}
use sure.Currency as CurrencyService
use sure.Currency.{CurrencyRequest, CurrencyConversionRr, convert, get_currency_data}
use sure.Service.Process.{Exec, returns, exits}
use sure.Checkout.Marshal.{copy_items}
use sure.Boutique.{Setting}
use sure.Boutique.Visits.{Exec-cases}

pub copied_item :
    (n : ℕ) (xs ys : List CartItem) (j : ℕ)
    → n ≤ length xs
    → j < n
    → get_or (copy_items n xs ys) j zero_item ≡ get_or xs j zero_item
copied_item n xs ys j bound h =
    get_or-append_left (take n xs) (drop n ys) j zero_item
      (omega (arith, bound, h, length-take n xs))
    ∙ get_or-take n xs j zero_item h

pub get_product-found :
    (rr : GetProductRr) (p : Product)
    → find_product rr.req products ≡ some p
    → (get_product rr).res ≡ p
unfolding get_product
get_product-found rr p e = rw (e, get_product) refl

module _ (o : Setting) where
  abbrev pub conversion_of : CurrencyConversionRr → Exec CurrencyConversionRr
  conversion_of rr = convert o.doubles o.rate_map rr (get_currency_data o.doubles o.rate_map)

  -- What stands in the response does not matter.
  pub convert-res :
      (price : Money) (code : String) (res res' : Money)
      → conversion_of (record { from = price; to_code = code; res = res })
        ≡ conversion_of (record { from = price; to_code = code; res = res' })
  unfolding convert CurrencyService.carry
  convert-res price code res res' =
      let rates = get_currency_data o.doubles o.rate_map in
      elim (Option-cases (o.rate_map.find price.currency_code rates)) [
        | inl e ↦ rw (e, convert) refl
        | inr (r, e) ↦ elim (Option-cases (o.rate_map.find code rates)) [
          | inl f ↦ rw (e, f, convert) refl
          | inr (r', f) ↦ rw (e, f, convert) refl
        ]
      ]

  abbrev pub converted : Exec CurrencyConversionRr → Exec CurrencyRequest
  converted exits = exits
  converted (returns rr) = returns (CurrencyService.currency_convert rr)

  pub converted_lem :
      (rr : CurrencyConversionRr)
      → CurrencyService.handle_request o.doubles o.rate_map
          (CurrencyService.currency_convert rr)
          (get_currency_data o.doubles o.rate_map)
        ≡ converted (conversion_of rr)
  unfolding CurrencyService.handle_request
  converted_lem rr = elim (Exec-cases (conversion_of rr)) [
    | inl e ↦ rw (e, CurrencyService.handle_request) refl
    | inr (rr', e) ↦ rw (e, CurrencyService.handle_request) refl
  ]
