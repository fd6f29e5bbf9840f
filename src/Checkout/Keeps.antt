-- ===== src/Checkout/Keeps.antt =====
-- What the calls of other services keep, `PlaceOrder` of apps/boutique/sure/checkoutservice/main.c keeps.
use Prim.Native.String.{String}
use sure.Prelude.{ℕ, zero, suc, ◌+◌, List, get_or, Option, none, some}
use sure.Money.{Money}
use sure.Cart.{Cart, zero_item}
use sure.Payment.{CreditCardInfo}
use sure.Shipping.{Address}
use sure.Service.Process.{Exec, returns, exits}
use sure.Checkout.Services.{OrderItem, OrderResult, Shop}
use sure.Checkout.{
  PlaceOrderRr, bind, with_buffer, prep_loop, prep_order_items, prepare_order, place_order,
}

-- If the program is still there, the state behind it satisfies `P`.
abbrev pub Behind : {A W : Type 0} → (W → Type 0) → Exec (A × W) → Type 0
Behind P exits = Unit {0}
Behind P (returns (a, w)) = P w

abbrev pub BehindBuffer : {W : Type 0} → (W → Type 0) → Option W → Type 0
BehindBuffer P none = Unit {0}
BehindBuffer P (some w) = P w

-- Every call keeps `P`.
pub record KeptBy (shop : Shop) (P : shop.World → Type 0) : Type 0 where
  pub by_get_buffer : (w : shop.World) → P w → BehindBuffer P (shop.get_buffer w)
  pub by_put_buffer : (w : shop.World) → P w → P (shop.put_buffer w)
  pub by_get_cart : (user : String) (w : shop.World) → P w → Behind P (shop.get_cart user w)
  pub by_get_product : (id : String) (w : shop.World) → P w → Behind P (shop.get_product id w)
  pub by_convert :
      (m : Money) (code : String) (w : shop.World) → P w → Behind P (shop.convert m code w)
  pub by_get_quote :
      (a : Address) (cart : Cart) (w : shop.World) → P w → Behind P (shop.get_quote a cart w)
  pub by_charge_card :
      (m : Money) (card : CreditCardInfo) (w : shop.World)
      → P w
      → Behind P (shop.charge_card m card w)
  pub by_ship_order :
      (a : Address) (n : ℕ) (items : List OrderItem) (w : shop.World)
      → P w
      → Behind P (shop.ship_order a n items w)
  pub by_empty_cart : (user : String) (w : shop.World) → P w → Behind P (shop.empty_cart user w)
  pub by_confirm :
      (email : String) (order : OrderResult) (w : shop.World)
      → P w
      → Behind P (shop.confirm email order w)

module _ (shop : Shop) (P : shop.World → Type 0) (kept : KeptBy shop P) where
  open shop use {World}

  bind-Behind :
      {A B : Type 0} (m : Exec (A × World)) (k : A → World → Exec (B × World))
      → Behind P m
      → ((a : A) (w : World) → P w → Behind P (k a w))
      → Behind P (bind shop m k)
  bind-Behind exits k p next = tt
  bind-Behind (returns (a, w)) k p next = next a w p

  buffer-Behind :
      {B : Type 0} (o : Option World) (k : World → Exec (B × World))
      → BehindBuffer P o
      → ((w : World) → P w → Behind P (k w))
      → Behind P (with_buffer shop o k)
  buffer-Behind none k p next = tt
  buffer-Behind (some w) k p next = next w p

  prep_loop-Behind :
      (left i : ℕ) (cart : Cart) (currency : String) (items : List OrderItem) (w : World)
      → P w
      → Behind P (prep_loop shop left i cart currency items w)
  unfolding prep_loop
  prep_loop-Behind zero i cart currency items w p = p
  prep_loop-Behind (suc left) i cart currency items w p =
      let id : String = (get_or cart.items i zero_item).product_id in
      bind-Behind (shop.get_product id w) _ (kept.by_get_product id w p) (λ price w1 p1.
        bind-Behind (shop.convert price currency w1) _ (kept.by_convert price currency w1 p1)
          (λ cost w2 p2. prep_loop-Behind left (i + 1) cart currency _ w2 p2))

  prep_order_items-Behind :
      (cart : Cart) (currency : String) (items : List OrderItem) (w : World)
      → P w
      → Behind P (prep_order_items shop cart currency items w)
  unfolding prep_order_items
  prep_order_items-Behind cart currency items w p =
      buffer-Behind (shop.get_buffer w) _ (kept.by_get_buffer w p) (λ w1 p1.
        bind-Behind (prep_loop shop cart.num_items 0 cart currency items w1) _
          (prep_loop-Behind cart.num_items 0 cart currency items w1 p1)
          (λ _ w2 p2. kept.by_put_buffer w2 p2))

  prepare_order-Behind : (rr : PlaceOrderRr) (w : World) → P w → Behind P (prepare_order shop rr w)
  unfolding prepare_order
  prepare_order-Behind rr w p =
      buffer-Behind (shop.get_buffer w) _ (kept.by_get_buffer w p) (λ w1 p1.
        bind-Behind (shop.get_cart rr.user_id w1) _ (kept.by_get_cart rr.user_id w1 p1)
          (λ cart w2 p2.
            bind-Behind (prep_order_items shop cart rr.user_currency rr.order.items w2) _
              (prep_order_items-Behind cart rr.user_currency rr.order.items w2 p2)
              (λ items w3 p3.
                buffer-Behind (shop.get_buffer w3) _ (kept.by_get_buffer w3 p3) (λ w4 p4.
                  bind-Behind (shop.get_quote rr.address cart w4) _
                    (kept.by_get_quote rr.address cart w4 p4)
                    (λ usd w5 p5.
                      bind-Behind (shop.convert usd rr.user_currency w5) _
                        (kept.by_convert usd rr.user_currency w5 p5)
                        (λ _ w6 p6.
                          kept.by_put_buffer (shop.put_buffer w6) (kept.by_put_buffer w6 p6)))))))

  pub place_order-Behind : (rr : PlaceOrderRr) (w : World) → P w → Behind P (place_order shop rr w)
  unfolding place_order
  place_order-Behind rr w p = buffer-Behind (shop.get_buffer w) _ (kept.by_get_buffer w p) (λ w1 p1.
      bind-Behind (prepare_order shop rr w1) _ (prepare_order-Behind rr w1 p1)
        (λ (items, n, cost) w2 p2.
          bind-Behind (shop.charge_card _ rr.credit_card w2) _ (kept.by_charge_card _ _ w2 p2)
            (λ _ w3 p3.
              bind-Behind (shop.ship_order rr.address n items w3) _ (kept.by_ship_order _ _ _ w3 p3)
                (λ tracking w4 p4.
                  bind-Behind (shop.empty_cart rr.user_id w4) _ (kept.by_empty_cart _ w4 p4)
                    (λ _ w5 p5.
                      bind-Behind (shop.confirm rr.email _ w5) _ (kept.by_confirm _ _ w5 p5)
                        (λ _ w6 p6. kept.by_put_buffer w6 p6))))))
