-- ===== src/Checkout/Tests.antt =====
-- apps/boutique/sure/checkoutservice/main.c in a shop where everything costs a dollar.
use sure.Prelude.{ℕ, ◌+◌, ◌≡◌, refl, List, [], length, replicate, some}
use sure.Prelude.Int.{pos}
use sure.Money.{Money}
use sure.Cart.{new_cart}
use sure.Shipping.{Address}
use sure.Service.Process.{Exec, returns, exits}
use sure.Checkout.Services.{Shop}
use sure.Checkout.{
  PlaceOrderRr, zero_order_item, zero_money, place_order, prepare_order, prep_order_items,
  prep_loop, add_items,
}
use sure.Checkout.Trace.{Call, logged}

abbrev dollar : Money
dollar = record { currency_code = "USD"; units = pos 1; nanos = pos 0 }

abbrev dollar_shop : Shop
dollar_shop = record {
  World = ℕ;
  get_buffer = λ w. some (w + 1);
  put_buffer = λ w. w;
  get_cart = λ user w. returns (new_cart user "6E92ZMYYFZ" (pos 1), w);
  get_product = λ id w. returns (dollar, w);
  convert = λ money code w. returns (money, w);
  get_quote = λ address cart w. returns (dollar, w);
  charge_card = λ amount card w. returns ("", w);
  ship_order = λ address n items w. returns ("tracking", w);
  empty_cart = λ user w. returns (tt, w);
  confirm = λ email order w. returns (tt, w);
}

abbrev home : Address
home = record {
  street_address = "1600 Amphitheatre Parkway";
  city = "Mountain View";
  state = "CA";
  country = "United States";
  zip_code = pos 94043;
}

abbrev request : PlaceOrderRr
request = record {
  user_id = "ann";
  user_currency = "USD";
  address = home;
  email = "ann@example.com";
  credit_card = record {
    credit_card_number = 4432801561520454;
    credit_card_cvv = pos 672;
    credit_card_expiration_year = pos 2022;
    credit_card_expiration_month = pos 5;
  };
  order = record {
    order_id = "";
    shipping_tracking_id = "";
    shipping_cost = zero_money;
    shipping_address = home;
    num_items = 0;
    items = replicate 10 zero_order_item;
  };
}

abbrev calls_made : Exec (PlaceOrderRr × (ℕ × List Call)) → ℕ
calls_made exits = 0
calls_made (returns (_, (_, log))) = length log

-- The shipping is charged although the payment service gives no transaction.
nine_calls : calls_made (place_order (logged dollar_shop) request (0, [])) ≡ 9
unfolding place_order prepare_order prep_order_items prep_loop add_items
nine_calls = refl
