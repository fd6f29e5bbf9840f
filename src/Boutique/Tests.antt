-- ===== src/Boutique/Tests.antt =====
-- The shop of apps/boutique/sure with whole numbers in place of doubles.
use Prim.Native.String.{String}
use sure.Prelude.{ℕ, ◌≡◌, refl, List, [], ◌∷◌, ◌++◌, some, arith}
use sure.Prelude.Int.{ℤ, pos, rem_ℤ, ◌+ℤ◌, ◌*ℤ◌, to_i32, to_i64}
use sure.Prelude.Bytes.{bytes_of, c_string}
use sure.Money.{Money, money_sum, money_multiply_slow}
use sure.Cart.{Cart, new_cart}
use sure.Cart.ListMap.{list_map}
use sure.Catalog.{get_product, find_product}
use sure.Service.Process.{returns}
use sure.Currency.{CurrencyConversionRr, carry, get_currency_data, convert}
use sure.Currency.Whole.{whole}
use sure.Checkout.{PlaceOrderRr, zero_money, place_order}
use sure.Checkout.Keeps.{Behind}
use sure.Frontend.{crlf, blank_line, strchr, strstr, parse_http_request}
use sure.Frontend.Scan.{decimal}
use sure.Frontend.Items.{item_body}
use sure.Frontend.Calls.{perform}
use sure.Frontend.Pages.{user_id, cart_total, home_handler}
use sure.Boutique.{Setting, blank_address, blank_order, cart_of, product_of, backend, shop, visit}
use sure.Boutique.PlacedOrder.{one_item_order, place_order-one_item}
use sure.Boutique.FirstItem.{visit-first_item}
use sure.Boutique.Home.{rate, shown_in, home_handler_lem}
use sure.Boutique.Total.{shipping, conversion, cart_total-one_item}

abbrev pub setting : Setting
setting = record {
  doubles = whole;
  rate_map = list_map ℤ;
  cart_map = list_map Cart;
  floor_log10 = λ n. 0;
  draw = λ n. n;
}

abbrev http : String → List ℕ → List ℕ
http line body = (bytes_of line ++ crlf) ++ (bytes_of "Host: a" ++ (blank_line ++ body))

abbrev post : List ℕ
post = http "POST /cart HTTP/1.1" (item_body (bytes_of "6E92ZMYYFZ") (bytes_of "2"))

post_parses :
    parse_http_request post
    ≡ some (bytes_of "POST", bytes_of "/cart", item_body (bytes_of "6E92ZMYYFZ") (bytes_of "2"))
unfolding parse_http_request strchr strstr
post_parses = refl

visit-first_item_example :
    Behind
      (λ w.
        cart_of setting user_id w
        ≡ new_cart user_id
            (c_string (bytes_of "6E92ZMYYFZ"))
            (to_i32 (pos (decimal 0 (bytes_of "2")))))
      (visit setting [] (bytes_of "CAD") (post ∷ http "POST /cart/empty HTTP/1.1" [] ∷ []) ([], 0))
visit-first_item_example =
    visit-first_item setting [] (bytes_of "CAD") post (bytes_of "6E92ZMYYFZ") (bytes_of "2")
      (http "POST /cart/empty HTTP/1.1" [] ∷ []) 0 post_parses
      (refl, (refl, (refl, (refl, (refl, (refl, (refl, (refl, (refl, (refl, tt)))))))))) refl
      (refl, tt)

abbrev answered : Money → Money → CurrencyConversionRr
answered price res = record { from = price; to_code = "EUR"; res = res }

abbrev mug_price : Money
mug_price = (product_of setting "6E92ZMYYFZ").price_usd

-- A mug costs 8.99 USD, as the shipping does.
shipping_in_euros :
    conversion setting shipping "EUR"
    ≡ returns
        (answered shipping (record { currency_code = "EUR"; units = pos 8; nanos = pos 990000000 }))
unfolding convert carry get_currency_data rem_ℤ ◌+ℤ◌ ◌*ℤ◌ to_i32 to_i64
shipping_in_euros = refl

abbrev euros : Money
euros = record { currency_code = "EUR"; units = pos 8; nanos = pos 990000000 }

mug_in_euros : conversion setting mug_price "EUR" ≡ returns (answered mug_price euros)
unfolding convert carry get_currency_data get_product find_product rem_ℤ ◌+ℤ◌ ◌*ℤ◌ to_i32 to_i64
mug_in_euros = refl

cart_total-one_item_example :
    perform
      (backend setting)
      (cart_total "EUR")
      (("federico", new_cart user_id "6E92ZMYYFZ" (pos 2)) ∷ [], 0)
    ≡ returns (
      money_sum (money_sum zero_money (money_multiply_slow euros 2)) euros,
      (("federico", new_cart user_id "6E92ZMYYFZ" (pos 2)) ∷ [], 1),
    )
cart_total-one_item_example =
    cart_total-one_item setting "EUR" "6E92ZMYYFZ" 2 0
      (("federico", new_cart user_id "6E92ZMYYFZ" (pos 2)) ∷ []) (answered shipping euros)
      (answered mug_price euros) refl (omega arith) (omega arith) shipping_in_euros mug_in_euros

-- A number that is no card's.
abbrev pub order_request : PlaceOrderRr
order_request = record {
  user_id = "ann";
  user_currency = "EUR";
  address = blank_address;
  email = "ann@example.com";
  credit_card = record {
    credit_card_number = 7;
    credit_card_cvv = pos 1;
    credit_card_expiration_year = pos 1999;
    credit_card_expiration_month = pos 1;
  };
  order = blank_order;
}

place_order-one_item_example :
    place_order (shop setting) order_request (("ann", new_cart "ann" "6E92ZMYYFZ" (pos 2)) ∷ [], 0)
    ≡ returns (
      record order_request {
        order = one_item_order setting order_request "6E92ZMYYFZ" 2 euros euros;
      },
      (("ann", new_cart "ann" "6E92ZMYYFZ" (pos 2)) ∷ [], 0),
    )
place_order-one_item_example =
    place_order-one_item setting order_request "6E92ZMYYFZ" 2 0
      (("ann", new_cart "ann" "6E92ZMYYFZ" (pos 2)) ∷ []) (answered shipping euros)
      (answered mug_price euros) refl (omega arith) (omega arith) shipping_in_euros mug_in_euros

home_handler_lem_example :
    perform (backend setting) (home_handler "EUR") ([], 0)
    ≡ shown_in setting (rate setting "EUR") [] 0
home_handler_lem_example = home_handler_lem setting "EUR" [] 0
