-- ===== src/Boutique/Wires/Tests.antt =====
-- The shop of apps/boutique/sure: an order through buffers that were used before.
use sure.Prelude.{
  ℕ, zero, suc, ◌<◌, get_or, ◌≡◌, refl, sym, subst, ◌∙◌, inl, inr, Bool-cases, [], ◌∷◌, some, none,
  some_inj, none-ne-some, arith,
}
use sure.Prelude.Int.{pos}
use sure.Prelude.Texts.{same_text}
use sure.Money.{Money}
use sure.Cart.{new_cart, zero_item}
use sure.Cart.ListMap.{lookup}
use sure.Catalog.{productcatalog_get_product, find_product, get_product}
use sure.Catalog.Table.{products}
use sure.Service.Process.{returns}
use sure.Checkout.{place_order}
use sure.Checkout.Rpc.{Rpc, to_catalog, Stale}
use sure.Checkout.Marshal.{handle_request, shop_of}
use sure.Checkout.Agrees.{Same, Equal}
use sure.Frontend.Pages.{zero_product}
use sure.Boutique.{World, blank_cart, blank_address, blank_order, shop}
use sure.Boutique.Tests.{setting, order_request}
use sure.Boutique.Wires.{wires}
use sure.Boutique.Wires.Calls.{InCatalog, IsStocked, IsStockedWorld, SameWorld}
use sure.Boutique.Wires.Agree.{handle_request-Same}

abbrev a_price : Money
a_price = record { currency_code = "USD"; units = pos 77; nanos = pos 0 }

-- Buffers in which a price of 77 USD stands.
abbrev stale : Stale
stale = record {
  get_cart = λ b. record { req = "bob"; res = blank_cart };
  get_product = λ b. record { req = "old"; res = record zero_product { price_usd = a_price } };
  conversion = λ b. record { from = a_price; to_code = "USD"; res = a_price };
  quote = λ b. record {
    address = blank_address;
    num_items = 3;
    items = [];
    conversion_flag = pos 0;
    cost_usd = a_price;
  };
  shipment = λ b. record { address = blank_address; items = []; tracking_id = "old" };
  payment = λ b. record {
    amount = a_price;
    credit_card = order_request.credit_card;
    transaction_id = "old";
  };
  confirmation = λ b. record { email = "bob@example.com"; order = blank_order };
}

abbrev used_buffer : Rpc
used_buffer = to_catalog (
    productcatalog_get_product
      (record { req = "old"; res = record zero_product { price_usd = a_price } }))

abbrev stocked_world : World setting
stocked_world = (("ann", new_cart "ann" "6E92ZMYYFZ" (pos 2)) ∷ [], 0)

in_catalog :
    (i : ℕ) → i < 1 → InCatalog (get_or (new_cart "ann" "6E92ZMYYFZ" (pos 2)).items i zero_item)
unfolding find_product
in_catalog zero h = (get_or products 8 zero_product, refl)
in_catalog (suc i) h = absurd (omega (arith, h))

new_cart-IsStocked : IsStocked (new_cart "ann" "6E92ZMYYFZ" (pos 2))
new_cart-IsStocked = (omega arith, in_catalog)

stocked_world-IsStocked : IsStockedWorld setting stale (λ w. used_buffer) stocked_world
stocked_world-IsStocked user cart e = elim (Bool-cases (same_text "ann" user)) [
  | inl f ↦
      let found : lookup user stocked_world.0 ≡ some (new_cart "ann" "6E92ZMYYFZ" (pos 2)) =
        rw (f) refl in
      subst IsStocked (some_inj (sym found ∙ e)) new_cart-IsStocked
  | inr f ↦
      let missing : lookup user stocked_world.0 ≡ none = rw (f) refl in
      absurd (none-ne-some (sym missing ∙ e))
]

handle_request-Same_example :
    Same Equal
      (SameWorld setting stale (λ w. used_buffer))
      (handle_request
        (wires setting stale (λ w. used_buffer))
        stale
        order_request
        used_buffer
        stocked_world)
      (place_order (shop setting) order_request stocked_world)
handle_request-Same_example =
    handle_request-Same setting stale (λ w. used_buffer) order_request used_buffer stocked_world
      stocked_world-IsStocked

-- The price of a product that the catalog does not have is the one that stood in the buffer.
unknown_product :
    (shop_of (wires setting stale (λ w. used_buffer)) stale).get_product "NO-PRODUCT"
      (used_buffer, [], stocked_world)
    ≡ returns (
      a_price,
      (
        to_catalog (
            productcatalog_get_product
              (record { req = "NO-PRODUCT"; res = record zero_product { price_usd = a_price } })),
        [],
        stocked_world,
      ),
    )
unfolding get_product find_product
unknown_product = refl
