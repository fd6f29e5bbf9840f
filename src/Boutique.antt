-- ===== src/Boutique.antt =====
-- The shop of apps/boutique/sure as a whole: the frontend and the checkout service over the other
-- services, each call answered by the handler of the service that it is sent to.
pub mod Visits
pub mod FirstItem
pub mod Total
pub mod PlacedOrder
pub mod Home
pub mod Wires
mod Tests
use Prim.Native.String.{String}
use sure.Prelude.{ℕ, ◌+◌, ◌-◌, ◌^◌, min, List, [], ◌∷◌, map, length, replicate, Option, none, some}
use sure.Prelude.Int.{ℤ, pos}
use sure.Prelude.Bytes.{bytes_of}
use sure.Money.{Money}
use sure.Cart.{CartItem, Cart, zero_item, add_item_async, get_cart_async, empty_cart_async}
use sure.Cart.CMap.{CMap}
use sure.Catalog.{list_products, get_product}
use sure.Catalog.Table.{Product}
use sure.Payment.{CreditCardInfo, charge}
use sure.Shipping.{Address, get_quote, ship_order}
use sure.Ads.{blank_ad, get_ads}
use sure.Currency.{CurrencyConversionRr, convert, get_currency_data}
use sure.Currency.Floating.{Doubles}
use sure.Service.Process.{Exec, returns, exits}
use sure.Checkout.{PlaceOrderRr, zero_money, zero_order_item, place_order}
use sure.Checkout.Services.{OrderItem, OrderResult, Shop}
use sure.Frontend.Scan.{skip_spaces, decimal}
use sure.Frontend.Calls as Calls
use sure.Frontend.Calls.{Call, Answer, Backend, PlaceOrderRequest, Run, perform}
use sure.Frontend.Pages.{Response, zero_product}
use sure.Frontend.Routes.{handle_request}

-- What the services call and do not contain.
pub record Setting : Type 1 where
  pub doubles : Doubles
  pub rate_map : CMap doubles.D
  pub cart_map : CMap Cart
  -- `(int)floor(log10(num))`
  pub floor_log10 : ℕ → ℕ
  -- what the calls of `rand()` give, one after the other
  pub draw : ℕ → ℕ

-- `strtoll` of a card number, which has no sign.
abbrev pub strtoll : String → ℕ
strtoll s = min (decimal 0 (skip_spaces (bytes_of s))) (2 ^ 63 - 1)

abbrev pub blank_address : Address
blank_address = record {
  street_address = "";
  city = "";
  state = "";
  country = "";
  zip_code = pos 0;
}

abbrev pub blank_cart : Cart
blank_cart = record { user_id = ""; num_items = 0; items = replicate 10 zero_item }

abbrev pub blank_order : OrderResult
blank_order = record {
  order_id = "";
  shipping_tracking_id = "";
  shipping_cost = zero_money;
  shipping_address = blank_address;
  num_items = 0;
  items = replicate 10 zero_order_item;
}

-- What `placeOrderHandler` sends, as the checkout service gets it.
abbrev pub as_place_order : PlaceOrderRequest → PlaceOrderRr
as_place_order r = record {
  user_id = r.user_id;
  user_currency = r.user_currency;
  address = r.address;
  email = r.email;
  credit_card = record {
    credit_card_number = strtoll r.credit_card_number;
    credit_card_cvv = r.credit_card_cvv;
    credit_card_expiration_year = r.credit_card_expiration_year;
    credit_card_expiration_month = r.credit_card_expiration_month;
  };
  order = blank_order;
}

abbrev pub order_of : {W : Type 0} → Exec (PlaceOrderRr × W) → Exec (OrderResult × W)
order_of exits = exits
order_of (returns (rr, w)) = returns (rr.order, w)

module _ (o : Setting) where
  -- The carts, and the next number that `rand()` is to give: `get_ads` is given two of them, of which it
  -- may use fewer.
  abbrev pub World : Type 0
  World = o.cart_map.Store × ℕ

  abbrev pub cart_of : String → World → Cart
  cart_of user (carts, n) =
      (get_cart_async o.cart_map (record { req = user; res = blank_cart }) carts).res

  abbrev pub product_of : String → Product
  product_of id = (get_product (record { req = id; res = zero_product })).res

  abbrev pub priced : Exec CurrencyConversionRr → World → Exec (Money × World)
  priced exits w = exits
  priced (returns rr) w = returns (rr.res, w)

  abbrev pub convert_at : Money → String → World → Exec (Money × World)
  convert_at price code w =
      priced
        (convert o.doubles o.rate_map (record { from = price; to_code = code; res = zero_money })
          (get_currency_data o.doubles o.rate_map))
        w

  abbrev pub quote_of : Address → ℕ → List CartItem → Money
  quote_of address n items =
      (get_quote (record {
        address = address;
        num_items = n;
        items = items;
        conversion_flag = pos 0;
        cost_usd = zero_money;
      })).cost_usd

  abbrev pub transaction_of : Money → CreditCardInfo → String
  transaction_of amount card =
      (charge o.floor_log10
        (record { amount = amount; credit_card = card; transaction_id = "" })).transaction_id

  abbrev pub tracking_of : Address → List OrderItem → String
  tracking_of address items =
      (ship_order (record {
        address = address;
        items = map (λ i. i.item) items;
        tracking_id = "";
      })).tracking_id

  -- The services that the checkout service calls. There is always a buffer.
  abbrev pub shop : Shop
  shop = record {
    World = World;
    get_buffer = λ w. some w;
    put_buffer = λ w. w;
    get_cart = λ user w. returns (cart_of user w, w);
    get_product = λ id w. returns ((product_of id).price_usd, w);
    convert = convert_at;
    get_quote = λ address cart w. returns (quote_of address cart.num_items cart.items, w);
    charge_card = λ amount card w. returns (transaction_of amount card, w);
    ship_order = λ address n items w. returns (tracking_of address items, w);
    empty_cart = λ user (carts, n). returns (tt, (empty_cart_async o.cart_map user carts, n));
    confirm = λ email order w. returns (tt, w);
  }

  abbrev pub ads_for : List String → ℕ → ℕ
  ads_for keys n =
      (get_ads (o.draw n) (o.draw (n + 1)) (record {
        num_context_keys = length keys;
        context_keys = keys;
        num_ads = 0;
        ads = replicate 10 blank_ad;
      })).num_ads

  -- The services that the frontend calls.
  abbrev pub answer_call : (c : Call) → World → Exec (Answer c × World)
  answer_call Calls.get_supported_currencies w = returns (tt, w)
  answer_call Calls.list_products w =
      returns (list_products (record { num_products = 0; listed = replicate 9 zero_product }), w)
  answer_call (Calls.get_cart user) w = returns (cart_of user w, w)
  answer_call (Calls.convert price code) w = convert_at price code w
  answer_call (Calls.get_ads keys) (carts, n) = returns (ads_for keys n, (carts, n + 2))
  answer_call (Calls.get_product id) w = returns (product_of id, w)
  answer_call (Calls.list_recommendations user ids) (carts, n) = returns (tt, (carts, n + 1))
  answer_call (Calls.get_quote n items) w = returns (quote_of blank_address n items, w)
  answer_call (Calls.add_item r) (carts, n) =
      returns (tt, (add_item_async o.cart_map r.user_id r.item.product_id r.item.quantity carts, n))
  answer_call (Calls.empty_cart user) (carts, n) =
      returns (tt, (empty_cart_async o.cart_map user carts, n))
  answer_call (Calls.place_order r) w = order_of (place_order shop (as_place_order r) w)
  answer_call Calls.rand (carts, n) = returns (o.draw n, (carts, n + 1))
  answer_call Calls.buffer_get w = returns (tt, w)
  answer_call Calls.buffer_put w = returns (tt, w)

  abbrev pub backend : Backend
  backend = record { World = World; answer = answer_call }

  -- Requests to the frontend, one after the other, with the currency before the first of them: the
  -- responses, and the currency and the world behind them.
  unfoldable pub visit :
      List ℕ → List ℕ → List (List ℕ) → World → Exec ((List Response × List ℕ) × World)
  visit stale currency [] w = returns (([], currency), w)
  visit stale currency (bytes ∷ more) w =
      elim (perform backend (handle_request stale currency bytes) w) [
        | exits ↦ exits
        | returns ((response, currency'), w') ↦ elim (visit stale currency' more w') [
          | exits ↦ exits
          | returns ((responses, currency''), w'') ↦
              returns ((response ∷ responses, currency''), w'')
        ]
      ]
