-- ===== src/Checkout.antt =====
-- apps/boutique/sure/checkoutservice/main.c: how an order is placed.
pub mod Services
pub mod Trace
pub mod Order
pub mod Keeps
pub mod Rpc
pub mod Marshal
pub mod Agrees
mod Tests
use Prim.Native.String.{String}
use sure.Prelude.{ℕ, zero, suc, ◌+◌, ◌-◌, ◌%◌, ◌^◌, List, get_or, set, Option, none, some}
use sure.Prelude.Int.{ℤ, pos, pos_part, neg_part}
use sure.Money.{Money, money_sum, money_multiply_slow}
use sure.Cart.{CartItem, Cart, zero_item}
use sure.Payment.{CreditCardInfo, default_uuid}
use sure.Shipping.{Address}
use sure.Service.Process.{Exec, returns, exits}
use sure.Checkout.Services.{OrderItem, OrderResult, Shop}

-- `struct _placeOrderRR`
pub record PlaceOrderRr : Type 0 where
  pub user_id : String
  pub user_currency : String
  pub address : Address
  pub email : String
  pub credit_card : CreditCardInfo
  pub order : OrderResult

abbrev pub zero_money : Money
zero_money = record { currency_code = ""; units = pos 0; nanos = pos 0 }

abbrev pub zero_order_item : OrderItem
zero_order_item = record { item = zero_item; cost = zero_money }

-- An `int32_t` as the `uint32_t` argument of `MoneyMultiplySlow`.
abbrev pub as_u32 : ℤ → ℕ
as_u32 a = (pos_part a + (2 ^ 32 - neg_part a % 2 ^ 32)) % 2 ^ 32

-- The loop that adds the prices of the items to the total, with the rounds that are left.
unfoldable pub add_items : ℕ → ℕ → List OrderItem → Money → Money
add_items zero i items total = total
add_items (suc left) i items total =
    let item = get_or items i zero_order_item in
    let mult_price = money_multiply_slow item.cost (as_u32 item.item.quantity) in
    add_items left (i + 1) items (money_sum total mult_price)

-- What `PlaceOrder` charges: the shipping cost and the prices of the items.
abbrev pub order_total : String → Money → ℕ → List OrderItem → Money
order_total currency shipping_cost num_items items =
    add_items num_items 0 items
      (money_sum (record { currency_code = currency; units = pos 0; nanos = pos 0 }) shipping_cost)

module _ (shop : Shop) where
  open shop use {
    World, get_buffer, put_buffer, get_cart, get_product, convert, get_quote, charge_card,
    ship_order, empty_cart, confirm,
  }

  -- A call, and what follows if it returns.
  abbrev pub bind :
      {A : Type 0} {B : Type 0}
      → Exec (A × World)
      → (A → World → Exec (B × World))
      → Exec (B × World)
  bind exits k = exits
  bind (returns (a, w)) k = k a w

  -- `unimsg_buffer_get`, and `exit(1)` if it fails.
  abbrev pub with_buffer :
      {B : Type 0} → Option World → (World → Exec (B × World)) → Exec (B × World)
  with_buffer none k = exits
  with_buffer (some w) k = k w

  -- The loop of `prepOrderItems`, with the rounds that are left.
  unfoldable pub prep_loop :
      ℕ → ℕ → Cart → String → List OrderItem → World → Exec (List OrderItem × World)
  prep_loop zero i cart currency items w = returns (items, w)
  prep_loop (suc left) i cart currency items w =
      let item = get_or cart.items i zero_item in
      bind (get_product item.product_id w) (λ price w1. bind (convert price currency w1) (λ cost w2.
        prep_loop left (i + 1) cart currency (set items i (record { item = item; cost = cost }))
          w2))

  -- `prepOrderItems`
  unfoldable pub prep_order_items :
      Cart → String → List OrderItem → World → Exec (List OrderItem × World)
  unfolding prep_loop
  prep_order_items cart currency items w = with_buffer (get_buffer w) (λ w1.
      bind (prep_loop cart.num_items 0 cart currency items w1)
        (λ items' w2. returns (items', put_buffer w2)))

  -- `prepareOrderItemsAndShippingQuoteFromCart`: the items, their number and the shipping cost.
  unfoldable pub prepare_order : PlaceOrderRr → World → Exec ((List OrderItem × ℕ × Money) × World)
  unfolding prep_order_items
  prepare_order rr w = with_buffer (get_buffer w) (λ w1. bind (get_cart rr.user_id w1) (λ cart w2.
      bind (prep_order_items cart rr.user_currency rr.order.items w2) (λ items w3.
        with_buffer (get_buffer w3) (λ w4. bind (get_quote rr.address cart w4) (λ shipping_usd w5.
          bind (convert shipping_usd rr.user_currency w5) (λ shipping_cost w6.
            returns ((items, cart.num_items, shipping_cost), put_buffer (put_buffer w6))))))))

  -- `PlaceOrder`. The transaction id that `chargeCard` gives is not looked at.
  unfoldable pub place_order : PlaceOrderRr → World → Exec (PlaceOrderRr × World)
  unfolding prepare_order add_items
  place_order rr w = with_buffer (get_buffer w) (λ w1.
      bind (prepare_order rr w1) (λ (items, num_items, shipping_cost) w2.
        let total = order_total rr.user_currency shipping_cost num_items items in
        bind (charge_card total rr.credit_card w2) (λ transaction_id w3.
          bind (ship_order rr.address num_items items w3) (λ tracking_id w4.
            bind (empty_cart rr.user_id w4) (λ _ w5.
              let order : OrderResult = record {
                order_id = default_uuid;
                shipping_tracking_id = tracking_id;
                shipping_cost = shipping_cost;
                shipping_address = rr.address;
                num_items = num_items;
                items = items;
              } in
              bind (confirm rr.email order w5)
                (λ _ w6. returns (record rr { order = order }, put_buffer w6)))))))
