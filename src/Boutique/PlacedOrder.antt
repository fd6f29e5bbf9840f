-- ===== src/Boutique/PlacedOrder.antt =====
-- The shop of apps/boutique/sure: an order of one item.
use Prim.Native.String.{String}
use sure.Prelude.{ℕ, ◌+◌, ◌^◌, ◌≤◌, ◌<◌, ◌≡◌, refl, ap, ◌∙◌, false, ◌==◌, set, arith}
use sure.Prelude.Int.{pos}
use sure.Money.{Money}
use sure.Cart.{new_cart}
use sure.Cart.History.{empty_cart_async_lem}
use sure.Payment.{default_uuid}
use sure.Shipping.{Address, ship_order}
use sure.Shipping.Costs.{get_quote_lem}
use sure.Currency.{CurrencyConversionRr}
use sure.Service.Process.{returns}
use sure.Checkout.{
  PlaceOrderRr, zero_money, prep_loop, prep_order_items, prepare_order, place_order,
}
use sure.Checkout.Services.{OrderResult}
use sure.Boutique.{Setting, product_of, quote_of, shop}
use sure.Boutique.Visits.{HasCart}
use sure.Boutique.FirstItem.{cart_of-HasCart}
use sure.Boutique.Total.{shipping, conversion}

module _ (o : Setting) where
  quote_of_cart :
      (address : Address) (id : String) (q : ℕ)
      → 1 ≤ q
      → q < 2 ^ 31
      → quote_of o address 1 (new_cart "" id (pos q)).items ≡ shipping
  quote_of_cart address id q h k =
      let some_pieces : (q + 0 == 0) ≡ false = ground (arith, h) in
      ap (λ rr. rr.cost_usd)
        (get_quote_lem
          (record {
            address = address;
            num_items = 1;
            items = (new_cart "" id (pos q)).items;
            conversion_flag = pos 0;
            cost_usd = zero_money;
          })
          (omega arith) (refl, tt) (omega (arith, k)))
      ∙ (rw (some_pieces) refl)

  -- The order of one item that is answered with.
  abbrev pub one_item_order : PlaceOrderRr → String → ℕ → Money → Money → OrderResult
  one_item_order rr id q price cost = record {
    order_id = default_uuid;
    shipping_tracking_id = default_uuid;
    shipping_cost = cost;
    shipping_address = rr.address;
    num_items = 1;
    items =
        set rr.order.items 0
          (record { item = record { product_id = id; quantity = pos q }; cost = price });
  }

  -- A user whose cart has one item, of 1 to 2 ^ 31 - 1 pieces, places an order, and the two conversions
  -- succeed: the order that is answered with has that item at the price of the catalog in the user's
  -- currency, and the shipping cost of 8.99 USD in it. It is the same order whatever the credit card is,
  -- also if the payment service refuses it; and the cart stays as it was.
  pub place_order-one_item :
      (rr : PlaceOrderRr) (id : String) (q n : ℕ) (carts : o.cart_map.Store)
      (cost price : CurrencyConversionRr)
      → HasCart o rr.user_id (new_cart rr.user_id id (pos q)) (carts, n)
      → 1 ≤ q
      → q < 2 ^ 31
      → conversion o shipping rr.user_currency ≡ returns cost
      → conversion o (product_of o id).price_usd rr.user_currency ≡ returns price
      → place_order (shop o) rr (carts, n)
        ≡ returns (record rr { order = one_item_order rr id q price.res cost.res }, (carts, n))
  unfolding place_order prepare_order prep_order_items prep_loop ship_order
  place_order-one_item rr id q n carts cost price has h k e f =
      rw
        (
          cart_of-HasCart o rr.user_id (new_cart rr.user_id id (pos q)) (carts, n) has,
          quote_of_cart rr.address id q h k,
          e,
          f,
          empty_cart_async_lem o.cart_map rr.user_id carts,
          place_order,
          prepare_order,
          prep_order_items,
          prep_loop,
        )
        refl
