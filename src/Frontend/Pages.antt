-- ===== src/Frontend/Pages.antt =====
-- The handlers of apps/boutique/sure/frontend/main.c that show pages and change the cart.
use Prim.Native.String.{String}
use sure.Prelude.{
  ℕ, zero, suc, ◌+◌, ◌%◌, ltb, ◌==◌, if◌then◌else◌, Option, none, some, List, [], ◌∷◌, take, get_or,
}
use sure.Prelude.Bytes.{bytes_of, c_string}
use sure.Prelude.Int.{ℤ}
use sure.Money.{Money, money_sum, money_multiply_slow}
use sure.Cart.{CartItem, Cart, zero_item}
use sure.Catalog.{Products}
use sure.Catalog.Table.{Product}
use sure.Checkout.{as_u32, zero_money}
use sure.Frontend.Scan.{scan_literal, scan_word, scan_int}
use sure.Frontend.Calls.{
  get_supported_currencies, list_products, get_cart, convert, get_ads, get_product,
  list_recommendations, get_quote, add_item, empty_cart, rand, buffer_get, buffer_put, Run, done,
  undefined, call, then_run,
}

-- HTTP_OK, HTTP_BAD_REQUEST and HTTP_NOT_FOUND
pub data Response : Type 0 where
  http_ok http_bad_request http_not_found : Response

-- USER_ID
abbrev pub user_id : String
user_id = "federico"

abbrev pub zero_product : Product
zero_product = record {
  id = "";
  name = "";
  description = "";
  picture = "";
  price_usd = zero_money;
  num_categories = 0;
  categories = [];
}

-- `chooseAd`, with the call of `getAd`: the place of the ad. A remainder by 0 is not defined.
unfoldable pub choose_ad : List String → Run ℕ
choose_ad keys =
    call (get_ads keys)
      (λ num_ads. call rand (λ r. if num_ads == 0 then undefined else done (r % num_ads)))

-- The loop of `homeHandler`, with the rounds that are left.
unfoldable pub convert_prices : ℕ → ℕ → Products → String → Run (Unit {0})
convert_prices zero i products currency = done tt
convert_prices (suc left) i products currency =
    call (convert (get_or products.listed i zero_product).price_usd currency)
      (λ _. convert_prices left (i + 1) products currency)

-- `homeHandler`
unfoldable pub home_handler : String → Run Response
unfolding convert_prices choose_ad
home_handler currency = call get_supported_currencies (λ _. call (get_cart user_id) (λ _.
    call list_products (λ products. call buffer_get (λ _.
      then_run (convert_prices products.num_products 0 products currency)
        (λ _. call buffer_put (λ _. then_run (choose_ad []) (λ _. done http_ok)))))))

-- `productHandler`
unfoldable pub product_handler : String → String → Run Response
unfolding choose_ad
product_handler id currency = call (get_product id) (λ p. call get_supported_currencies (λ _.
    call (get_cart user_id) (λ _. call (convert p.price_usd currency) (λ _.
      call (list_recommendations user_id (p.id ∷ []))
        (λ _. then_run (choose_ad []) (λ _. done http_ok))))))

-- `getShippingQuote`
unfoldable pub get_shipping_quote : List CartItem → ℕ → String → Run Money
get_shipping_quote items num_items currency =
    call (get_quote num_items (take num_items items))
      (λ cost. call (convert cost currency) (λ localized. done localized))

-- `product_ids[i] = cart.Items[i].ProductId`, with the rounds that are left.
abbrev pub product_ids : ℕ → ℕ → Cart → List String
product_ids zero i cart = []
product_ids (suc left) i cart =
    (get_or cart.items i zero_item).product_id ∷ product_ids left (i + 1) cart

-- The loop of `viewCartHandler` over the items, with the rounds that are left.
unfoldable pub add_prices : ℕ → ℕ → Cart → String → Money → Run Money
add_prices zero i cart currency total = done total
add_prices (suc left) i cart currency total =
    let item = get_or cart.items i zero_item in
    call (get_product item.product_id) (λ p. call (convert p.price_usd currency) (λ price.
      add_prices left (i + 1) cart currency
        (money_sum total (money_multiply_slow price (as_u32 item.quantity)))))

-- `viewCartHandler` up to the total that it computes. The array `product_ids` has ten places.
unfoldable pub cart_total : String → Run Money
unfolding get_shipping_quote add_prices
cart_total currency = call get_supported_currencies (λ _. call (get_cart user_id) (λ cart.
    if ltb 10 cart.num_items
    then undefined
    else call (list_recommendations user_id (product_ids cart.num_items 0 cart)) (λ _.
      then_run (get_shipping_quote cart.items cart.num_items currency) (λ shipping_cost.
        then_run (add_prices cart.num_items 0 cart currency zero_money)
          (λ total. done (money_sum total shipping_cost))))))

-- `viewCartHandler`: the total is not part of the response.
unfoldable pub view_cart_handler : String → Run Response
unfolding cart_total
view_cart_handler currency = then_run (cart_total currency) (λ _. done http_ok)

-- The `sscanf` of `addToCartHandler`: "product_id=%10s&quantity=%d".
unfoldable pub scan_item : List ℕ → Option (List ℕ × ℤ)
unfolding scan_word scan_int
scan_item body = elim (scan_literal (bytes_of "product_id=") body) [
  | none ↦ none
  | some value ↦ elim (scan_word 10 value) [
    | none ↦ none
    | some (product_id, rest) ↦ elim (scan_literal (bytes_of "&quantity=") rest) [
      | none ↦ none
      | some digits ↦ elim (scan_int digits) [
        | none ↦ none
        | some quantity ↦ some (product_id, quantity)
      ]
    ]
  ]
]

-- `addToCartHandler`, with the call of `insertCart`.
unfoldable pub add_to_cart_handler : List ℕ → Run Response
unfolding scan_item
add_to_cart_handler body = elim (scan_item body) [
  | none ↦ done http_bad_request
  | some (id, quantity) ↦ call (get_product (c_string id)) (λ _.
      call
        (add_item (record {
          user_id = user_id;
          item = record { product_id = c_string id; quantity = quantity };
        }))
        (λ _. done http_ok))
]

-- `emptyCartHandler`, with the call of `emptyCart`.
abbrev pub empty_cart_handler : Run Response
empty_cart_handler = call (empty_cart user_id) (λ _. done http_ok)

-- `setCurrencyHandler`: the response, and the new `currency`.
unfoldable pub set_currency_handler : List ℕ → List ℕ → Run (Response × List ℕ)
unfolding scan_word
set_currency_handler body currency = elim (scan_literal (bytes_of "currency_code=") body) [
  | none ↦ done (http_bad_request, currency)
  | some value ↦ elim (scan_word 3 value) [
    | none ↦ done (http_bad_request, currency)
    | some (code, _) ↦ done (http_ok, code)
  ]
]

-- `logoutHandler`
abbrev pub logout_handler : Run Response
logout_handler = done http_ok
