-- ===== src/Checkout/Marshal.antt =====
-- apps/boutique/sure/checkoutservice/main.c: how its calls of other services use their buffers.
use Prim.Native.String.{String}
use sure.Prelude.{
  ℕ, zero, suc, ◌+◌, List, [], ◌∷◌, ◌++◌, take, drop, set, get_or, Option, none, some,
}
use sure.Money.{Money}
use sure.Cart as CartService
use sure.Cart.{CartItem, Cart}
use sure.Catalog as CatalogService
use sure.Currency as CurrencyService
use sure.Payment.{CreditCardInfo}
use sure.Shipping as ShippingService
use sure.Shipping.{Address}
use sure.Service.Process.{Exec, returns, exits}
use sure.Checkout.{PlaceOrderRr, zero_order_item, place_order}
use sure.Checkout.Services.{OrderItem, OrderResult, Shop}
use sure.Checkout.Rpc.{
  Rpc, to_cart, to_catalog, to_currency, to_shipping, to_payment, to_email, Service,
  productcatalog_service, cart_service, shipping_service, currency_service, payment_service,
  email_service, Stale, as_get_cart, as_get_product, as_conversion, as_quote, as_shipment,
  as_payment,
}

-- Buffers, with what stands in them, and `do_rpc`, with the buffer that it comes back with.
pub record Net : Type 1 where
  pub World : Type 0
  pub buffer_get : World → Option (Rpc × World)
  pub buffer_put : Rpc → World → World
  pub do_rpc : Rpc → Service → World → Exec (Rpc × World)

-- `memcpy` of the first items, over those that stand there.
abbrev pub copy_items : ℕ → List CartItem → List CartItem → List CartItem
copy_items n items out = take n items ++ drop n out

-- `rr->req.Items[i] = items[i].Item`, with the rounds that are left.
abbrev pub ship_items : ℕ → ℕ → List OrderItem → List CartItem → List CartItem
ship_items zero i items out = out
ship_items (suc left) i items out =
    ship_items left (i + 1) items (set out i (get_or items i zero_order_item).item)

module _ (net : Net) (stale : Stale) where
  -- What a call leaves: its answer, the buffer and the world.
  abbrev pub answered :
      {A : Type 0} → (Rpc → A) → Exec (Rpc × net.World) → Exec (A × Rpc × net.World)
  answered read exits = exits
  answered read (returns (b, w)) = returns (read b, b, w)

  -- `getUserCart`
  abbrev pub get_user_cart : String → Rpc → net.World → Exec (Cart × Rpc × net.World)
  get_user_cart user b w =
      answered (λ b'. (as_get_cart stale b').res)
        (net.do_rpc
          (to_cart (CartService.cart_get_cart (record (as_get_cart stale b) { req = user })))
          cart_service w)

  -- `getProduct`, of which the price is used
  abbrev pub get_product : String → Rpc → net.World → Exec (Money × Rpc × net.World)
  get_product id b w =
      answered (λ b'. (as_get_product stale b').res.price_usd)
        (net.do_rpc
          (to_catalog (
            CatalogService.productcatalog_get_product
              (record (as_get_product stale b) { req = id })))
          productcatalog_service w)

  -- `convertCurrency`
  abbrev pub convert_currency : Money → String → Rpc → net.World → Exec (Money × Rpc × net.World)
  convert_currency price code b w =
      answered (λ b'. (as_conversion stale b').res)
        (net.do_rpc
          (to_currency (
            CurrencyService.currency_convert
              (record (as_conversion stale b) { from = price; to_code = code })))
          currency_service w)

  -- `quoteShipping`
  abbrev pub quote_shipping : Address → Cart → Rpc → net.World → Exec (Money × Rpc × net.World)
  quote_shipping address cart b w =
      answered (λ b'. (as_quote stale b').cost_usd)
        (net.do_rpc
          (to_shipping (
            ShippingService.shipping_get_quote (record (as_quote stale b) {
              address = address;
              num_items = cart.num_items;
              items = copy_items cart.num_items cart.items (as_quote stale b).items;
            })))
          shipping_service w)

  -- `chargeCard`
  abbrev pub charge_card :
      Money → CreditCardInfo → Rpc → net.World → Exec (String × Rpc × net.World)
  charge_card amount card b w =
      answered (λ b'. (as_payment stale b').transaction_id)
        (net.do_rpc
          (to_payment (record (as_payment stale b) { amount = amount; credit_card = card }))
          payment_service w)

  -- `shipOrder`
  abbrev pub ship_order :
      Address → ℕ → List OrderItem → Rpc → net.World → Exec (String × Rpc × net.World)
  ship_order address n items b w =
      answered (λ b'. (as_shipment stale b').tracking_id)
        (net.do_rpc
          (to_shipping (
            ShippingService.shipping_ship_order (record (as_shipment stale b) {
              address = address;
              items = ship_items n 0 items (as_shipment stale b).items;
            })))
          shipping_service w)

  -- `emptyUserCart`
  abbrev pub empty_user_cart : String → Rpc → net.World → Exec (Unit {0} × Rpc × net.World)
  empty_user_cart user b w =
      answered (λ b'. tt) (net.do_rpc (to_cart (CartService.cart_empty_cart user)) cart_service w)

  -- `sendOrderConfirmation`
  abbrev pub send_order_confirmation :
      String → OrderResult → Rpc → net.World → Exec (Unit {0} × Rpc × net.World)
  send_order_confirmation email order b w =
      answered (λ b'. tt)
        (net.do_rpc (to_email (record { email = email; order = order })) email_service w)

  -- The buffer that was got last, those got before it, and the world. The buffers are put back in the
  -- opposite order.
  abbrev pub Buffers : Type 0
  Buffers = Rpc × List Rpc × net.World

  abbrev pub in_front : {A : Type 0} → List Rpc → Exec (A × Rpc × net.World) → Exec (A × Buffers)
  in_front bs exits = exits
  in_front bs (returns (a, b, w)) = returns (a, (b, bs, w))

  abbrev pub got : Rpc → List Rpc → Option (Rpc × net.World) → Option Buffers
  got b bs none = none
  got b bs (some (new, w)) = some (new, b ∷ bs, w)

  abbrev pub put : Buffers → Buffers
  put (b, [], w) = (b, [], w)
  put (b, b' ∷ bs, w) = (b', bs, net.buffer_put b w)

  -- The calls, each with the buffer that was got last.
  abbrev pub shop_of : Shop
  shop_of = record {
    World = Buffers;
    get_buffer = λ (b, bs, w). got b bs (net.buffer_get w);
    put_buffer = put;
    get_cart = λ user (b, bs, w). in_front bs (get_user_cart user b w);
    get_product = λ id (b, bs, w). in_front bs (get_product id b w);
    convert = λ price code (b, bs, w). in_front bs (convert_currency price code b w);
    get_quote = λ address cart (b, bs, w). in_front bs (quote_shipping address cart b w);
    charge_card = λ amount card (b, bs, w). in_front bs (charge_card amount card b w);
    ship_order = λ address n items (b, bs, w). in_front bs (ship_order address n items b w);
    empty_cart = λ user (b, bs, w). in_front bs (empty_user_cart user b w);
    confirm = λ email order (b, bs, w). in_front bs (send_order_confirmation email order b w);
  }

  -- `handle_request`, with what stands in the buffer of the request beside it.
  abbrev pub handle_request : PlaceOrderRr → Rpc → net.World → Exec (PlaceOrderRr × Buffers)
  handle_request rr b w = place_order shop_of rr (b, [], w)
