-- ===== src/Checkout/Order.antt =====
-- The calls that `PlaceOrder` of apps/boutique/sure/checkoutservice/main.c makes, in their order.
use Prim.Native.String.{String}
use sure.Prelude.{ℕ, ◌≡◌, List, [], ◌∷◌, ◌++◌}
use sure.Money.{Money}
use sure.Cart.{Cart}
use sure.Checkout.Services.{OrderItem, Shop}
use sure.Checkout.{PlaceOrderRr, order_total}
use sure.Checkout.Trace.{
  Call, gets_cart, converts, quotes, charges, ships, empties, confirms, ItemCalls, W,
}

module _ (shop : Shop) where
  abbrev Prepared : ℕ → ℕ → Cart → String → List Call → List OrderItem → W shop → Type 0
  Prepared left i cart currency l items (w, l') =
      (log : List Call) × (l' ≡ l ++ log) × ItemCalls left i cart currency log

  -- The log behind the preparation of an order.
  abbrev Quoted : PlaceOrderRr → List OrderItem × ℕ × Money → W shop → Type 0
  Quoted rr (items, n, cost) (w, l) =
      (cart : Cart) × (usd : Money) × (log : List Call) × (l
        ≡ (gets_cart rr.user_id cart ∷ log)
          ++ (quotes rr.address cart usd ∷ converts usd rr.user_currency cost ∷ []))
      × ItemCalls n 0 cart rr.user_currency log
      × (n ≡ cart.num_items)

  -- The calls that place an order, in their order, and the order that is answered with.
  abbrev pub Placed : PlaceOrderRr → PlaceOrderRr → W shop → Type 0
  Placed rr rr' (w, log) =
      let o = rr'.order in
      (cart : Cart) × (usd : Money) × (items : List Call) × (log
        ≡ (gets_cart rr.user_id cart ∷ items)
          ++ (quotes rr.address cart usd
              ∷ converts usd rr.user_currency o.shipping_cost
              ∷ charges (order_total rr.user_currency o.shipping_cost o.num_items o.items)
                  rr.credit_card
              ∷ ships rr.address o.num_items o.items
              ∷ empties rr.user_id
              ∷ confirms rr.email o
              ∷ []))
      × ItemCalls o.num_items 0 cart rr.user_currency items
      × (o.num_items ≡ cart.num_items)
