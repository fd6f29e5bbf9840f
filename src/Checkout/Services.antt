-- ===== src/Checkout/Services.antt =====
-- The calls that apps/boutique/sure/checkoutservice/main.c makes of other services, each a `do_rpc`.
use Prim.Native.String.{String}
use sure.Prelude.{ℕ, List, Option}
use sure.Money.{Money}
use sure.Cart.{CartItem, Cart}
use sure.Payment.{CreditCardInfo}
use sure.Shipping.{Address}
use sure.Service.Process.{Exec}

-- `struct _orderItem` and `struct _orderResult`
pub record OrderItem : Type 0 where
  pub item : CartItem
  pub cost : Money

pub record OrderResult : Type 0 where
  pub order_id : String
  pub shipping_tracking_id : String
  pub shipping_cost : Money
  pub shipping_address : Address
  pub num_items : ℕ
  pub items : List OrderItem

-- What the code depends on: buffers, and the answers of the other services.
pub record Shop : Type 1 where
  pub World : Type 0
  pub get_buffer : World → Option World
  pub put_buffer : World → World
  -- `getUserCart`
  pub get_cart : String → World → Exec (Cart × World)
  -- `getProduct`, of which the price is used
  pub get_product : String → World → Exec (Money × World)
  -- `convertCurrency`
  pub convert : Money → String → World → Exec (Money × World)
  -- `quoteShipping`
  pub get_quote : Address → Cart → World → Exec (Money × World)
  -- `chargeCard`
  pub charge_card : Money → CreditCardInfo → World → Exec (String × World)
  -- `shipOrder`
  pub ship_order : Address → ℕ → List OrderItem → World → Exec (String × World)
  -- `emptyUserCart`
  pub empty_cart : String → World → Exec (Unit {0} × World)
  -- `sendOrderConfirmation`
  pub confirm : String → OrderResult → World → Exec (Unit {0} × World)
