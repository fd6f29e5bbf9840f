-- ===== src/Frontend/Session.antt =====
-- Whose cart the handlers of apps/boutique/sure/frontend/main.c work on, in which currency they ask for
-- prices, and which requests change something.
use Prim.Native.String.{String}
use sure.Prelude.{
  ℕ, zero, suc, ◌+◌, ◌%◌, ◌≡◌, refl, inl, inr, Bool, true, false, Bool-cases, ltb, ◌==◌,
  if◌then◌else◌, List, [],
}
use sure.Money.{Money}
use sure.Cart.{CartItem, Cart}
use sure.Catalog.{Products}
use sure.Checkout.{zero_money}
use sure.Frontend.Calls.{
  Call, get_supported_currencies, list_products, get_cart, convert, get_ads, get_product,
  list_recommendations, get_quote, add_item, empty_cart, place_order, rand, buffer_get, buffer_put,
  Run, done, undefined, then_run,
}
use sure.Frontend.Pages.{
  http_ok, user_id, choose_ad, convert_prices, home_handler, product_handler, get_shipping_quote,
  add_prices, cart_total, view_cart_handler,
}
use sure.Frontend.Does.{Does, then_run-Does}

-- A call that reads: it changes no cart and places no order.
abbrev pub Reads : Call → Type 0
Reads (add_item request) = ⊥
Reads (empty_cart user) = ⊥
Reads (place_order request) = ⊥
Reads get_supported_currencies = Unit {0}
Reads list_products = Unit {0}
Reads (get_cart user) = Unit {0}
Reads (convert price code) = Unit {0}
Reads (get_ads keys) = Unit {0}
Reads (get_product id) = Unit {0}
Reads (list_recommendations user ids) = Unit {0}
Reads (get_quote n items) = Unit {0}
Reads rand = Unit {0}
Reads buffer_get = Unit {0}
Reads buffer_put = Unit {0}

-- The user of a call is USER_ID, and its currency is this one.
abbrev pub Ours : String → Call → Type 0
Ours code (add_item request) = request.user_id ≡ user_id
Ours code (empty_cart user) = user ≡ user_id
Ours code (place_order request) = (request.user_id ≡ user_id) × (request.user_currency ≡ code)
Ours code get_supported_currencies = Unit {0}
Ours code list_products = Unit {0}
Ours code (get_cart user) = user ≡ user_id
Ours code (convert price to) = to ≡ code
Ours code (get_ads keys) = Unit {0}
Ours code (get_product id) = Unit {0}
Ours code (list_recommendations user ids) = user ≡ user_id
Ours code (get_quote n items) = Unit {0}
Ours code rand = Unit {0}
Ours code buffer_get = Unit {0}
Ours code buffer_put = Unit {0}

abbrev pub Any : {A : Type 0} → A → Type 0
Any a = Unit {0}

-- A call of a page that only shows something.
abbrev pub Shows : String → Call → Type 0
Shows code c = Reads c × Ours code c

abbrev Fine : String → {A : Type 0} → Run A → Type 0
Fine code r = Does (Shows code) Any r

module _ (code : String) where
  draw-Fine : (n r : ℕ) → Fine code (if n == 0 then undefined else done (r % n))
  draw-Fine n r = elim (Bool-cases (n == 0)) [ inl e ↦ rw (e) tt | inr e ↦ rw (e) tt ]

  choose_ad-Fine : Fine code (choose_ad [])
  unfolding choose_ad
  choose_ad-Fine = ((tt, tt), λ n. ((tt, tt), λ r. draw-Fine n r))

  then_ok : {A : Type 0} (r : Run A) → Fine code r → Fine code (then_run r (λ _. done http_ok))
  then_ok r d = then_run-Does (Shows code) Any Any r _ d (λ _ _. tt)

  convert_prices-Fine :
      (left i : ℕ) (products : Products) → Fine code (convert_prices left i products code)
  unfolding convert_prices
  convert_prices-Fine zero i products = tt
  convert_prices-Fine (suc left) i products =
      ((tt, refl), λ _. convert_prices-Fine left (i + 1) products)

  pub home_handler-Fine : Fine code (home_handler code)
  unfolding home_handler
  home_handler-Fine = (
    (tt, tt),
    λ _. (
      (tt, refl),
      λ _. (
        (tt, tt),
        λ products. (
          (tt, tt),
          λ _.
              then_run-Does (Shows code) Any Any
                (convert_prices products.num_products 0 products code) _
                (convert_prices-Fine products.num_products 0 products)
                (λ _ _. ((tt, tt), λ _. then_ok (choose_ad []) choose_ad-Fine)),
        ),
      ),
    ),
  )

  pub product_handler-Fine : (id : String) → Fine code (product_handler id code)
  unfolding product_handler
  product_handler-Fine id = (
    (tt, tt),
    λ p. (
      (tt, tt),
      λ _. (
        (tt, refl),
        λ _. ((tt, refl), λ _. ((tt, refl), λ _. then_ok (choose_ad []) choose_ad-Fine)),
      ),
    ),
  )

  add_prices-Fine :
      (left i : ℕ) (cart : Cart) (total : Money) → Fine code (add_prices left i cart code total)
  unfolding add_prices
  add_prices-Fine zero i cart total = tt
  add_prices-Fine (suc left) i cart total =
      ((tt, tt), λ p. ((tt, refl), λ price. add_prices-Fine left (i + 1) cart _))

  get_shipping_quote-Fine :
      (items : List CartItem) (n : ℕ) → Fine code (get_shipping_quote items n code)
  unfolding get_shipping_quote
  get_shipping_quote-Fine items n = ((tt, tt), λ cost. ((tt, refl), λ _. tt))

  few_items :
      (b : Bool) {A : Type 0} (r : Run A) → Fine code r → Fine code (if b then undefined else r)
  few_items true r d = tt
  few_items false r d = d

  cart_total-Fine : Fine code (cart_total code)
  unfolding cart_total
  cart_total-Fine = (
    (tt, tt),
    λ _. (
      (tt, refl),
      λ cart. few_items (ltb 10 cart.num_items) _ (
        (tt, refl),
        λ _.
            then_run-Does (Shows code) Any Any (get_shipping_quote cart.items cart.num_items code) _
              (get_shipping_quote-Fine cart.items cart.num_items)
              (λ shipping _.
                then_run-Does (Shows code) Any Any
                  (add_prices cart.num_items 0 cart code zero_money) _
                  (add_prices-Fine cart.num_items 0 cart zero_money) (λ _ _. tt)),
      ),
    ),
  )

  pub view_cart_handler-Fine : Fine code (view_cart_handler code)
  unfolding view_cart_handler
  view_cart_handler-Fine = then_ok (cart_total code) cart_total-Fine
