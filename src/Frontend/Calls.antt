-- ===== src/Frontend/Calls.antt =====
-- The calls that the handlers of apps/boutique/sure/frontend/main.c make, and what they do between
-- them: each `do_rpc` is one call, and so are `rand` and the calls for buffers.
use Prim.Native.String.{String}
use sure.Prelude.{ℕ, List}
use sure.Prelude.Int.{ℤ}
use sure.Money.{Money}
use sure.Cart.{CartItem, Cart, AddItemRequest}
use sure.Catalog.{Products}
use sure.Catalog.Table.{Product}
use sure.Shipping.{Address}
use sure.Service.Process.{Exec, returns, exits}
use sure.Checkout.Services.{OrderResult}

-- What `placeOrderHandler` writes to `PlaceOrderRR`.
pub record PlaceOrderRequest : Type 0 where
  pub user_id : String
  pub user_currency : String
  pub email : String
  pub address : Address
  pub credit_card_number : String
  pub credit_card_expiration_month : ℤ
  pub credit_card_expiration_year : ℤ
  pub credit_card_cvv : ℤ

pub data Call : Type 0 where
  get_supported_currencies : Call
  list_products : Call
  get_cart : String → Call
  convert : Money → String → Call
  get_ads : List String → Call
  get_product : String → Call
  list_recommendations : String → List String → Call
  get_quote : ℕ → List CartItem → Call
  add_item : AddItemRequest → Call
  empty_cart : String → Call
  place_order : PlaceOrderRequest → Call
  rand : Call
  buffer_get : Call
  buffer_put : Call

-- What the frontend reads of the response; of the ads it is their number.
abbrev pub Answer : Call → Type 0
Answer get_supported_currencies = Unit {0}
Answer list_products = Products
Answer (get_cart user) = Cart
Answer (convert price code) = Money
Answer (get_ads keys) = ℕ
Answer (get_product id) = Product
Answer (list_recommendations user ids) = Unit {0}
Answer (get_quote n items) = Money
Answer (add_item request) = Unit {0}
Answer (empty_cart user) = Unit {0}
Answer (place_order request) = OrderResult
Answer rand = ℕ
Answer buffer_get = Unit {0}
Answer buffer_put = Unit {0}

-- A handler under way: it is done, it goes wrong in a way that C does not define, or it makes a call.
pub data Run (A : Type 0) : Type 0 where
  done : A → Run A
  undefined : Run A
  call : (c : Call) → (Answer c → Run A) → Run A

abbrev pub then_run : {A B : Type 0} → Run A → (A → Run B) → Run B
then_run (done a) k = k a
then_run undefined k = undefined
then_run (call c next) k = call c (λ a. then_run (next a) k)

-- The services behind the calls. A call does not return if the frontend or the service exits.
pub record Backend : Type 1 where
  pub World : Type 0
  pub answer : (c : Call) → World → Exec (Answer c × World)

-- What comes of a handler over these services.
unfoldable pub perform : (b : Backend) {A : Type 0} → Run A → b.World → Exec (A × b.World)
perform b (done a) w = returns (a, w)
perform b undefined w = exits
perform b (call c next) w = elim (b.answer c w) [
  | exits ↦ exits
  | returns (a, w') ↦ perform b (next a) w'
]
