-- ===== src/Cart/Tests.antt =====
-- apps/boutique/sure/cartservice/main.c over an association list.
use Prim.Native.String.{String}
use sure.Prelude.{◌≡◌, refl, List, [], ◌∷◌, replicate}
use sure.Prelude.Int.{pos}
use sure.Cart.{
  Cart, GetCartRr, CartRequest, cart_add_item, cart_empty_cart, zero_item, new_cart, get_cart_async,
  handle_request, handle_requests, add_item_async, empty_cart_async,
}
use sure.Cart.CMap.{CMap}
use sure.Cart.ListMap.{list_map}
use sure.Cart.History.{answer, first_cart, get_cart_async-handle_requests}

abbrev assoc : CMap Cart
assoc = list_map Cart

abbrev add : String → String → CartRequest
add user product =
    cart_add_item
      (record { user_id = user; item = record { product_id = product; quantity = pos 3 } })

abbrev requests : List CartRequest
requests = add "ann" "mug" ∷ add "bob" "watch" ∷ add "ann" "watch" ∷ cart_empty_cart "ann" ∷ []

abbrev get : GetCartRr
get = record {
  req = "ann";
  res = record { user_id = ""; num_items = 5; items = replicate 10 zero_item };
}

first_stays :
    (get_cart_async assoc get (handle_requests assoc requests [])).res
    ≡ new_cart "ann" "mug" (pos 3)
unfolding get_cart_async handle_requests handle_request add_item_async empty_cart_async
first_stays = refl

get_cart_async-handle_requests_example :
    get_cart_async assoc get (handle_requests assoc requests [])
    ≡ answer get (first_cart "ann" requests)
get_cart_async-handle_requests_example = get_cart_async-handle_requests assoc requests get
