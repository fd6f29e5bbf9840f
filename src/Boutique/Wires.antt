-- ===== src/Boutique/Wires.antt =====
-- The shop of apps/boutique/sure: the checkout service with its buffers, over the services' handlers.
pub mod Answers
pub mod Calls
pub mod Agree
mod Tests
use Prim.Native.String.{String}
use sure.Prelude.{
  ℕ, zero, suc, ◌+◌, ◌≤◌, ◌<◌, ◌≡◌, refl, sym, ap, subst, ◌∙◌, List, [], ◌∷◌, ◌++◌, get_or,
  get_or-append_left, get_or-take, length-take, length, take, drop, Option, none, some, arith, inl,
  inr, Option-cases,
}
use sure.Money.{Money}
use sure.Cart.{Cart, CartItem, CartRequest, zero_item, get_cart_async, empty_cart_async}
use sure.Cart as CartService
use sure.Catalog as CatalogService
use sure.Catalog.{CatalogRequest, GetProductRr, find_product, get_product}
use sure.Catalog.Table.{Product, products}
use sure.Currency as CurrencyService
use sure.Currency.{CurrencyRequest, CurrencyConversionRr, convert, get_currency_data}
use sure.Shipping as ShippingService
use sure.Shipping.{ShippingRequest, Address, get_quote, ship_order, count_items}
use sure.Shipping.Costs.{quoted, count_items-same}
use sure.Prelude.Int.{pos}
use sure.Payment.{CreditCardInfo, charge}
use sure.Service.Process.{Exec, returns, exits}
use sure.Checkout.{PlaceOrderRr, zero_money, place_order}
use sure.Checkout.Services.{OrderItem, OrderResult, Shop}
use sure.Checkout.Rpc.{
  Rpc, to_cart, to_catalog, to_currency, to_shipping, to_payment, to_email, Service,
  productcatalog_service, cart_service, shipping_service, currency_service, payment_service,
  email_service, Stale, as_payment, as_conversion, as_get_product, as_quote,
}
use sure.Checkout.Marshal.{
  answered, in_front, Net, Buffers, put, copy_items, shop_of, handle_request,
}
use sure.Checkout.Agrees.{Same, SameCart, Equal, Any, Agrees, place_order-Same}
use sure.Cart.History.{get_cart_async-answer, empty_cart_async_lem}
use sure.Boutique.{Setting, World, blank_cart, product_of, priced, shop}
use sure.Boutique.Wires.Answers.{
  copied_item, get_product-found, conversion_of, convert-res, converted, converted_lem,
}
use sure.Boutique.Total.{conversion}
use sure.Boutique.FirstItem.{cart_of-HasCart}

-- `fresh` is what a new buffer reads, which anybody may have used before.
module _ (o : Setting) (stale : Stale) (fresh : World o → Rpc) where
  abbrev at_cart : Rpc → World o → Rpc × World o
  at_cart (to_cart r) (carts, n) =
      let (r', carts') = CartService.handle_request o.cart_map r carts in (to_cart r', (carts', n))
  at_cart b w = (b, w)

  abbrev at_catalog : Rpc → Rpc
  at_catalog (to_catalog r) = to_catalog (CatalogService.handle_request r)
  at_catalog b = b

  abbrev at_shipping : Rpc → Rpc
  at_shipping (to_shipping r) = to_shipping (ShippingService.handle_request r)
  at_shipping b = b

  abbrev pub currency_answer : Exec CurrencyRequest → World o → Exec (Rpc × World o)
  currency_answer exits w = exits
  currency_answer (returns r) w = returns (to_currency r, w)

  abbrev at_currency : Rpc → World o → Exec (Rpc × World o)
  at_currency (to_currency r) w =
      currency_answer
        (CurrencyService.handle_request o.doubles o.rate_map r
          (get_currency_data o.doubles o.rate_map))
        w
  at_currency b w = returns (b, w)

  -- The handler of the service does its part with the buffer. The payment service does not look at the
  -- command, and the e-mail service not at anything.
  abbrev pub serve : Rpc → Service → World o → Exec (Rpc × World o)
  serve b productcatalog_service w = returns (at_catalog b, w)
  serve b cart_service w = returns (at_cart b w)
  serve b shipping_service w = returns (at_shipping b, w)
  serve b currency_service w = at_currency b w
  serve b payment_service w = returns (to_payment (charge o.floor_log10 (as_payment stale b)), w)
  serve b email_service w = returns (b, w)

  abbrev pub wires : Net
  wires = record {
    World = World o;
    buffer_get = λ w. some (fresh w, w);
    buffer_put = λ b w. w;
    do_rpc = serve;
  }
