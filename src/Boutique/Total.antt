-- ===== src/Boutique/Total.antt =====
-- The shop of apps/boutique/sure: what `viewCartHandler` computes for a cart with one item.
use Prim.Native.String.{String}
use sure.Prelude.{ℕ, ◌+◌, ◌^◌, ◌≤◌, ◌<◌, ◌≡◌, refl, ap, ◌∙◌, false, ◌==◌, [], ◌∷◌, arith}
use sure.Prelude.Int.{pos}
use sure.Money.{Money, money_sum, money_multiply_slow}
use sure.Cart.{new_cart}
use sure.Shipping.Costs.{get_quote_lem}
use sure.Currency.{CurrencyConversionRr, convert, get_currency_data}
use sure.Service.Process.{Exec, returns}
use sure.Checkout.{as_u32, zero_money}
use sure.Frontend.Calls.{perform}
use sure.Frontend.Pages.{user_id, get_shipping_quote, add_prices, cart_total}
use sure.Boutique.{Setting, blank_address, product_of, quote_of, backend}
use sure.Boutique.Visits.{HasCart}
use sure.Boutique.FirstItem.{cart_of-HasCart}

-- The price of shipping.
abbrev pub shipping : Money
shipping = record { currency_code = "USD"; units = pos 8; nanos = pos 990000000 }

as_u32_lem : (q : ℕ) → q < 2 ^ 31 → as_u32 (pos q) ≡ q
as_u32_lem q h = omega (arith, h)

module _ (o : Setting) where
  -- The answer of `Convert` with the rates of the service.
  abbrev pub conversion : Money → String → Exec CurrencyConversionRr
  conversion price code =
      convert o.doubles o.rate_map (record { from = price; to_code = code; res = zero_money })
        (get_currency_data o.doubles o.rate_map)

  quote_of_one :
      (id : String) (q : ℕ)
      → 1 ≤ q
      → q < 2 ^ 31
      → quote_of o blank_address 1 (record { product_id = id; quantity = pos q } ∷ []) ≡ shipping
  quote_of_one id q h k =
      let some_pieces : (q + 0 == 0) ≡ false = ground (arith, h) in
      ap (λ rr. rr.cost_usd)
        (get_quote_lem
          (record {
            address = blank_address;
            num_items = 1;
            items = record { product_id = id; quantity = pos q } ∷ [];
            conversion_flag = pos 0;
            cost_usd = zero_money;
          })
          (omega arith) (refl, tt) (omega (arith, k)))
      ∙ (rw (some_pieces) refl)

  -- For a user whose cart has one item, of 1 to 2 ^ 31 - 1 pieces, `viewCartHandler` computes the price of
  -- the product in the currency, multiplied by the number of pieces the way `MoneyMultiplySlow` does it,
  -- plus the shipping cost of 8.99 USD in that currency, if the two conversions succeed; and the carts
  -- stay.
  pub cart_total-one_item :
      (code id : String) (q n : ℕ) (carts : o.cart_map.Store) (cost price : CurrencyConversionRr)
      → HasCart o user_id (new_cart user_id id (pos q)) (carts, n)
      → 1 ≤ q
      → q < 2 ^ 31
      → conversion shipping code ≡ returns cost
      → conversion (product_of o id).price_usd code ≡ returns price
      → perform (backend o) (cart_total code) (carts, n)
        ≡ returns (
          money_sum (money_sum zero_money (money_multiply_slow price.res q)) cost.res,
          (carts, n + 1),
        )
  unfolding cart_total get_shipping_quote add_prices perform
  cart_total-one_item code id q n carts cost price has h k e f =
      rw
        (
          cart_of-HasCart o user_id (new_cart user_id id (pos q)) (carts, n) has,
          quote_of_one id q h k,
          e,
          f,
          as_u32_lem q k,
          perform,
        )
        refl
