-- ===== src/Message/Structs.antt =====
-- The structs of apps/boutique/sure/common/service/message.h, member by member. `unsigned`, `int`
-- and `enum` members are laid out as `int32_t`.
use sure.Message.Layout.{CType, char_t, int32_t, int64_t, array, struct_of, end, member}

abbrev pub cart_item : CType
cart_item = struct_of (member (array 11 char_t) (member int32_t end))

abbrev pub add_item_request : CType
add_item_request = struct_of (member (array 50 char_t) (member cart_item end))

abbrev pub empty_cart_request : CType
empty_cart_request = struct_of (member (array 50 char_t) end)

abbrev pub get_cart_request : CType
get_cart_request = struct_of (member (array 50 char_t) end)

abbrev pub cart : CType
cart = struct_of (member (array 50 char_t) (member int32_t (member (array 10 cart_item) end)))

abbrev pub get_cart_rr : CType
get_cart_rr = struct_of (member get_cart_request (member cart end))

abbrev pub list_recommendations_request : CType
list_recommendations_request =
    struct_of (member (array 50 char_t) (member int32_t (member (array 10 (array 11 char_t)) end)))

abbrev pub list_recommendations_response : CType
list_recommendations_response = struct_of (member int32_t (member (array 10 (array 11 char_t)) end))

abbrev pub list_recommendations_rr : CType
list_recommendations_rr =
    struct_of (member list_recommendations_request (member list_recommendations_response end))

abbrev pub money : CType
money = struct_of (member (array 4 char_t) (member int64_t (member int32_t end)))

abbrev pub get_supported_currencies_response : CType
get_supported_currencies_response =
    struct_of (member int32_t (member (array 6 (array 10 char_t)) end))

abbrev pub currency_conversion_request : CType
currency_conversion_request = struct_of (member money (member (array 10 char_t) end))

abbrev pub currency_conversion_rr : CType
currency_conversion_rr = struct_of (member currency_conversion_request (member money end))

abbrev pub product : CType
product = struct_of (
    member (array 11 char_t) (
      member (array 22 char_t) (
        member (array 83 char_t) (
          member (array 49 char_t)
            (member money (member int32_t (member (array 2 (array 12 char_t)) end)))))))

abbrev pub list_products_response : CType
list_products_response = struct_of (member int32_t (member (array 9 product) end))

abbrev pub get_product_request : CType
get_product_request = struct_of (member (array 11 char_t) end)

abbrev pub get_product_rr : CType
get_product_rr = struct_of (member get_product_request (member product end))

abbrev pub search_products_request : CType
search_products_request = struct_of (member (array 50 char_t) end)

abbrev pub search_products_response : CType
search_products_response = struct_of (member int32_t (member (array 9 product) end))

abbrev pub search_products_rr : CType
search_products_rr =
    struct_of (member search_products_request (member search_products_response end))

abbrev pub address : CType
address = struct_of (
    member (array 50 char_t) (
      member (array 15 char_t)
        (member (array 15 char_t) (member (array 15 char_t) (member int32_t end)))))

abbrev pub get_quote_request : CType
get_quote_request = struct_of (member address (member int32_t (member (array 10 cart_item) end)))

abbrev pub get_quote_response : CType
get_quote_response = struct_of (member int32_t (member money end))

abbrev pub get_quote_rr : CType
get_quote_rr = struct_of (member get_quote_request (member get_quote_response end))

abbrev pub ship_order_request : CType
ship_order_request = struct_of (member address (member (array 10 cart_item) end))

abbrev pub ship_order_response : CType
ship_order_response = struct_of (member (array 100 char_t) end)

abbrev pub ship_order_rr : CType
ship_order_rr = struct_of (member ship_order_request (member ship_order_response end))

abbrev pub credit_card_info : CType
credit_card_info =
    struct_of (member (array 30 char_t) (member int32_t (member int32_t (member int32_t end))))

abbrev pub charge_request : CType
charge_request = struct_of (member money (member credit_card_info end))

abbrev pub charge_response : CType
charge_response = struct_of (member (array 40 char_t) end)

abbrev pub charge_rr : CType
charge_rr = struct_of (member charge_request (member charge_response end))

abbrev pub order_item : CType
order_item = struct_of (member cart_item (member money end))

abbrev pub order_result : CType
order_result = struct_of (
    member (array 40 char_t) (
      member (array 100 char_t)
        (member money (member address (member int32_t (member (array 10 order_item) end))))))

abbrev pub send_order_confirmation_request : CType
send_order_confirmation_request = struct_of (member (array 50 char_t) (member order_result end))

abbrev pub send_order_confirmation_rr : CType
send_order_confirmation_rr = struct_of (member send_order_confirmation_request end)

abbrev pub place_order_request : CType
place_order_request = struct_of (
    member (array 50 char_t) (
      member (array 5 char_t)
        (member address (member (array 50 char_t) (member credit_card_info end)))))

abbrev pub place_order_response : CType
place_order_response = struct_of (member order_result end)

abbrev pub place_order_rr : CType
place_order_rr = struct_of (member place_order_request (member place_order_response end))

abbrev pub ad : CType
ad = struct_of (member (array 100 char_t) (member (array 100 char_t) end))

abbrev pub ad_request : CType
ad_request = struct_of (member int32_t (member (array 10 (array 100 char_t)) end))

abbrev pub ad_response : CType
ad_response = struct_of (member int32_t (member (array 10 ad) end))

abbrev pub ad_rr : CType
ad_rr = struct_of (member ad_request (member ad_response end))

abbrev pub rpc : CType
rpc = struct_of (member int32_t (member int32_t (member (array 0 char_t) end)))
