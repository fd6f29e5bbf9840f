-- ===== src/Message.antt =====
-- apps/boutique/sure/common/service/message.h: the commands, and the memory layout of the messages.
pub mod Layout
pub mod Structs
pub mod Size
mod Tests
use sure.Prelude.{
  ℕ, zero, suc, ◌≤◌, ◌<◌, ◌≡◌, ◌⊎◌, inl, inr, refl, List, [], ◌∷◌, length, Option, none, some,
  arith,
}

-- `enum command`
pub data Command : Type 0 where
  cart_add_item cart_get_cart cart_empty_cart : Command
  recommendation_list_recommendations : Command
  currency_get_supported_currencies currency_convert : Command
  productcatalog_list_products productcatalog_get_product productcatalog_search_products : Command
  shipping_get_quote shipping_ship_order : Command
  payment_charge : Command
  email_send_order_confirmation : Command
  checkout_place_order : Command
  ad_get_ads : Command

-- The number of each command, as C counts the constants of an `enum`.
unfoldable pub code : Command → ℕ
code cart_add_item = 0
code cart_get_cart = 1
code cart_empty_cart = 2
code recommendation_list_recommendations = 3
code currency_get_supported_currencies = 4
code currency_convert = 5
code productcatalog_list_products = 6
code productcatalog_get_product = 7
code productcatalog_search_products = 8
code shipping_get_quote = 9
code shipping_ship_order = 10
code payment_charge = 11
code email_send_order_confirmation = 12
code checkout_place_order = 13
code ad_get_ads = 14

from_list : List Command → ℕ → Option Command
from_list [] n = none
from_list (c ∷ cs) zero = some c
from_list (c ∷ cs) (suc n) = from_list cs n

-- The commands in the order of the `enum`.
abbrev pub commands : List Command
commands =
    cart_add_item ∷ cart_get_cart ∷ cart_empty_cart ∷ recommendation_list_recommendations
    ∷ currency_get_supported_currencies ∷ currency_convert ∷ productcatalog_list_products
    ∷ productcatalog_get_product ∷ productcatalog_search_products ∷ shipping_get_quote
    ∷ shipping_ship_order ∷ payment_charge ∷ email_send_order_confirmation ∷ checkout_place_order
    ∷ ad_get_ads ∷ []

-- The command that a number stands for, if any does.
unfoldable pub command_of : ℕ → Option Command
unfolding from_list
command_of n = from_list commands n

pub command_of-code : (c : Command) → command_of (code c) ≡ some c
unfolding command_of code
command_of-code cart_add_item = refl
command_of-code _ = refl

from_list_cases :
    (cs : List Command) (n : ℕ)
    → ((n < length cs) × ((c : Command) × (from_list cs n ≡ some c)))
      ⊎ ((length cs ≤ n) × (from_list cs n ≡ none))
unfolding from_list
from_list_cases [] n = inr (omega arith, refl)
from_list_cases (c ∷ cs) zero = inl (omega arith, (c, refl))
from_list_cases (c ∷ cs) (suc n) = elim (from_list_cases cs n) [
  | inl (l, r) ↦ inl (omega arith, r)
  | inr (l, r) ↦ inr (omega arith, r)
]

-- The numbers below fifteen, and no others, stand for a command.
pub command_of_cases :
    (n : ℕ)
    → ((n < 15) × ((c : Command) × (command_of n ≡ some c))) ⊎ ((15 ≤ n) × (command_of n ≡ none))
unfolding command_of
command_of_cases n = from_list_cases commands n
