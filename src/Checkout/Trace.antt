-- ===== src/Checkout/Trace.antt =====
-- Which calls apps/boutique/sure/checkoutservice/main.c makes to place an order, and in which order.
use Prim.Native.String.{String}
use sure.Prelude.{
  ℕ, zero, suc, ◌+◌, ◌≡◌, ap, ◌∙◌, List, [], ◌∷◌, ◌++◌, append_assoc, get_or, Option, none, some,
}
use sure.Money.{Money}
use sure.Cart.{Cart, zero_item}
use sure.Payment.{CreditCardInfo}
use sure.Shipping.{Address}
use sure.Service.Process.{Exec, returns, exits}
use sure.Checkout.Services.{OrderItem, OrderResult, Shop}
use sure.Checkout.{bind, with_buffer}

-- A call, with what was answered where the order depends on it.
pub data Call : Type 0 where
  gets_cart : String → Cart → Call
  gets_product : String → Money → Call
  converts : Money → String → Money → Call
  quotes : Address → Cart → Money → Call
  charges : Money → CreditCardInfo → Call
  ships : Address → ℕ → List OrderItem → Call
  empties : String → Call
  confirms : String → OrderResult → Call

abbrev pub log_call :
    {A W : Type 0} → (A → Call) → Exec (A × W) → List Call → Exec (A × (W × List Call))
log_call c exits l = exits
log_call c (returns (a, w)) l = returns (a, (w, l ++ c a ∷ []))

abbrev pub log_buffer : {W : Type 0} → Option W → List Call → Option (W × List Call)
log_buffer none l = none
log_buffer (some w) l = some (w, l)

-- The same services, which also keep a log of the calls.
abbrev pub logged : Shop → Shop
logged shop = record {
  World = shop.World × List Call;
  get_buffer = λ (w, l). log_buffer (shop.get_buffer w) l;
  put_buffer = λ (w, l). (shop.put_buffer w, l);
  get_cart = λ user (w, l). log_call (gets_cart user) (shop.get_cart user w) l;
  get_product = λ id (w, l). log_call (gets_product id) (shop.get_product id w) l;
  convert = λ money code (w, l). log_call (converts money code) (shop.convert money code w) l;
  get_quote =
      λ address cart (w, l). log_call (quotes address cart) (shop.get_quote address cart w) l;
  charge_card =
      λ amount card (w, l). log_call (λ _. charges amount card) (shop.charge_card amount card w) l;
  ship_order = λ address n items (w, l).
      log_call (λ _. ships address n items) (shop.ship_order address n items w) l;
  empty_cart = λ user (w, l). log_call (λ _. empties user) (shop.empty_cart user w) l;
  confirm =
      λ email order (w, l). log_call (λ _. confirms email order) (shop.confirm email order w) l;
}

-- The calls for the items from a place on: the product, and the price that was answered for it in the user's
-- currency.
abbrev pub ItemCalls : ℕ → ℕ → Cart → String → List Call → Type 0
ItemCalls zero i cart currency log = log ≡ []
ItemCalls (suc left) i cart currency log =
    (price : Money) × (cost : Money) × (rest : List Call) × (log
      ≡ gets_product (get_or cart.items i zero_item).product_id price
        ∷ converts price currency cost
        ∷ rest)
    × ItemCalls left (i + 1) cart currency rest

pub extend :
    (a b l l' : List Call) (c : Call) → l ≡ a ++ b → l' ≡ l ++ c ∷ [] → l' ≡ a ++ (b ++ c ∷ [])
extend a b l l' c e f = f ∙ ap (λ x. x ++ c ∷ []) e ∙ append_assoc a b (c ∷ [])

module _ (shop : Shop) where
  abbrev pub W : Type 0
  W = shop.World × List Call

  -- What holds if a call returns.
  abbrev pub After : {A : Type 0} → (A → W → Type 0) → Exec (A × W) → Type 0
  After P exits = Unit {0}
  After P (returns (a, w)) = P a w

  pub bind-After :
      {A B : Type 0} (P : A → W → Type 0) (Q : B → W → Type 0) (m : Exec (A × W))
      (k : A → W → Exec (B × W))
      → After P m
      → ((a : A) (w : W) → P a w → After Q (k a w))
      → After Q (bind (logged shop) m k)
  bind-After P Q exits k p next = tt
  bind-After P Q (returns (a, w)) k p next = next a w p

  pub call-After :
      {A B : Type 0} (Q : B → W → Type 0) (c : A → Call) (m : Exec (A × shop.World)) (l : List Call)
      (k : A → W → Exec (B × W))
      → ((a : A) (w : shop.World) → After Q (k a (w, l ++ c a ∷ [])))
      → After Q (bind (logged shop) (log_call c m l) k)
  call-After Q c exits l k next = tt
  call-After Q c (returns (a, w)) l k next = next a w

  pub buffer-After :
      {B : Type 0} (Q : B → W → Type 0) (o : Option shop.World) (l : List Call)
      (k : W → Exec (B × W))
      → ((w : shop.World) → After Q (k (w, l)))
      → After Q (with_buffer (logged shop) (log_buffer o l) k)
  buffer-After Q none l k next = tt
  buffer-After Q (some w) l k next = next w
