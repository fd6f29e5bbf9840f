-- ===== src/Message/Size.antt =====
-- `get_rpc_size` of apps/boutique/sure/common/service/service.h.
use sure.Prelude.{
  ℕ, ◌+◌, ◌≤◌, ◌<◌, ◌≡◌, ◌↔◌, ◌⊎◌, refl, sym, ◌∙◌, inl, inr, Bool-cases, leb, leb→le, Option-cases,
  Option, none, some, none-ne-some, arith,
}
use sure.Message.{Command, code, command_of, command_of-code, command_of_cases}
use sure.Message.Layout.{sizeof}
use sure.Message.Structs

-- The body of a message of each command: the cases of the `switch`.
unfoldable pub body_size : Command → ℕ
body_size Command.cart_add_item = sizeof Structs.add_item_request
body_size Command.cart_get_cart = sizeof Structs.get_cart_rr
body_size Command.cart_empty_cart = sizeof Structs.empty_cart_request
body_size Command.recommendation_list_recommendations = sizeof Structs.list_recommendations_rr
body_size Command.currency_get_supported_currencies =
    sizeof Structs.get_supported_currencies_response
body_size Command.currency_convert = sizeof Structs.currency_conversion_rr
body_size Command.productcatalog_list_products = sizeof Structs.list_products_response
body_size Command.productcatalog_get_product = sizeof Structs.get_product_rr
body_size Command.productcatalog_search_products = sizeof Structs.search_products_rr
body_size Command.shipping_get_quote = sizeof Structs.get_quote_rr
body_size Command.shipping_ship_order = sizeof Structs.ship_order_rr
body_size Command.payment_charge = sizeof Structs.charge_rr
body_size Command.email_send_order_confirmation = sizeof Structs.send_order_confirmation_rr
body_size Command.checkout_place_order = sizeof Structs.place_order_rr
body_size Command.ad_get_ads = sizeof Structs.ad_rr

-- `get_rpc_size`, over the number read from a message: `none` is the exit on an unknown command.
unfoldable pub get_rpc_size : ℕ → Option ℕ
get_rpc_size command = elim (command_of command) [
  | none ↦ none
  | some c ↦ some (body_size c + sizeof Structs.rpc)
]

-- sizeof(struct rpc)
abbrev pub header_size : ℕ
header_size = 8

pub header_size_lem : header_size ≡ sizeof Structs.rpc
unfolding sizeof
header_size_lem = refl

body_bounds : (c : Command) → (0 < body_size c) × (body_size c ≤ 3008)
unfolding body_size sizeof
body_bounds Command.cart_add_item = omega arith
body_bounds _ = omega arith

pub get_rpc_size_bounds :
    (command size : ℕ) → get_rpc_size command ≡ some size → (header_size < size) × (size ≤ 3016)
unfolding get_rpc_size
get_rpc_size_bounds command size h = elim (Option-cases (command_of command)) [
  | inl e ↦ ground arith
  | inr (c, e) ↦ ground (arith, body_bounds c, header_size_lem)
]

size_of_command : (c : Command) → get_rpc_size (code c) ≡ some (body_size c + 8)
unfolding get_rpc_size sizeof
size_of_command c = rw (command_of-code c, get_rpc_size) refl

pub get_rpc_size-eq-none_iff : (command : ℕ) → (get_rpc_size command ≡ none) ↔ (15 ≤ command)
unfolding get_rpc_size
get_rpc_size-eq-none_iff command = elim (command_of_cases command) [
  | inl (small, (c, e)) ↦ rw (e, get_rpc_size) (λ h. cc, λ l. absurd (omega arith))
  | inr (large, e) ↦ rw (e, get_rpc_size) (λ _. large, λ _. refl)
]

-- A size is known exactly for the numbers of the 15 commands: a message of any of them is longer than its
-- header and takes 3016 bytes at most. For all other numbers the service exits.
pub get_rpc_size_cases :
    (command : ℕ)
    → ((15 ≤ command) × (get_rpc_size command ≡ none))
      ⊎ ((size : ℕ) × (command < 15)
          × (get_rpc_size command ≡ some size)
          × (header_size < size)
          × (size ≤ 3016))
get_rpc_size_cases command = elim (Option-cases (get_rpc_size command)) [
  | inl e ↦ inl ((get_rpc_size-eq-none_iff command).0 e, e)
  | inr (size, e) ↦
      let (low, high) = get_rpc_size_bounds command size e in
      elim (Bool-cases (leb 15 command)) [
        | inl l ↦
            absurd
              (none-ne-some (sym ((get_rpc_size-eq-none_iff command).1 (leb→le 15 command l)) ∙ e))
        | inr l ↦ inr (size, ground (arith, l), e, low, high)
      ]
]
