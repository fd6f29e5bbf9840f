-- ===== src/Frontend/Buffers.antt =====
-- The buffers that the handlers of apps/boutique/sure/frontend/main.c take beside the request's own.
use Prim.Native.String.{String}
use sure.Prelude.{
  ℕ, zero, suc, ◌+◌, ◌-◌, ◌%◌, ◌≡◌, refl, sym, subst, inl, inr, Bool, true, false, ltb, ◌==◌,
  if◌then◌else◌, Option, none, some, Option-cases, List, [],
}
use sure.Prelude.Bytes.{bytes_of}
use sure.Money.{Money}
use sure.Cart.{Cart}
use sure.Catalog.{Products}
use sure.Checkout.{zero_money}
use sure.Frontend.{parse_http_request}
use sure.Frontend.Scan.{scan_literal, scan_word}
use sure.Frontend.Calls.{Call, Answer, buffer_get, buffer_put, Run, done, undefined, call, then_run}
use sure.Frontend.Pages.{
  http_ok, http_bad_request, choose_ad, convert_prices, home_handler, product_handler,
  get_shipping_quote, add_prices, cart_total, view_cart_handler, scan_item, add_to_cart_handler,
  set_currency_handler,
}
use sure.Frontend.OrderForm.{
  OrderForm, Param, read_form, refused, overrun, value, submit_order, place_order_handler,
}
use sure.Frontend.Routes.{handle_request}
use sure.Frontend.Table.{
  Page, home, product, view_cart, add_to_cart, empty_cart, set_currency, logout, checkout, table,
  first_page, run_page, route_lem,
}

-- The number of buffers behind a call.
abbrev pub held : Call → ℕ → ℕ
held buffer_get n = n + 1
held buffer_put n = n - 1
held _ n = n

-- A buffer is taken while none is held, and given back while one is.
abbrev pub InOrder : Call → ℕ → Type 0
InOrder buffer_get n = n ≡ 0
InOrder buffer_put n = n ≡ 1
InOrder _ n = Unit {0}

-- From `n` buffers to `m`, one at a time.
abbrev pub Balanced : {A : Type 0} → ℕ → ℕ → Run A → Type 0
Balanced n m (done a) = n ≡ m
Balanced n m undefined = Unit {0}
Balanced n m (call c next) = InOrder c n × ((a : Answer c) → Balanced (held c n) m (next a))

then_run-Balanced :
    {A B : Type 0} (n m k : ℕ) (r : Run A) (f : A → Run B)
    → Balanced n m r
    → ((a : A) → Balanced m k (f a))
    → Balanced n k (then_run r f)
then_run-Balanced n m k (done a) f d g = subst (λ z. Balanced z k (f a)) (sym d) (g a)
then_run-Balanced n m k undefined f d g = tt
then_run-Balanced n m k (call c next) f (p, d) g =
    (p, λ a. then_run-Balanced (held c n) m k (next a) f (d a) g)

-- A run that begins and ends with no buffer, before something that makes no call.
then_done :
    {A B : Type 0} (r : Run A) (f : A → B)
    → Balanced 0 0 r
    → Balanced 0 0 (then_run r (λ a. done (f a)))
then_done r f d = then_run-Balanced 0 0 0 r _ d (λ _. refl)

guarded :
    (b : Bool) {A : Type 0} (n : ℕ) (r : Run A)
    → Balanced n n r
    → Balanced n n (if b then undefined else r)
guarded true n r d = tt
guarded false n r d = d

draw-Balanced : (b : Bool) (n : ℕ) → Balanced 0 0 (if b then undefined else done n)
draw-Balanced true n = tt
draw-Balanced false n = refl

choose_ad-Balanced : Balanced 0 0 (choose_ad [])
unfolding choose_ad
choose_ad-Balanced = (tt, λ n. (tt, λ r. draw-Balanced (n == 0) (r % n)))

module _ (code : String) where
  convert_prices-Balanced :
      (left i : ℕ) (products : Products) → Balanced 1 1 (convert_prices left i products code)
  unfolding convert_prices
  convert_prices-Balanced zero i products = refl
  convert_prices-Balanced (suc left) i products =
      (tt, λ _. convert_prices-Balanced left (i + 1) products)

  home_handler-Balanced : Balanced 0 0 (home_handler code)
  unfolding home_handler
  home_handler-Balanced = (
    tt,
    λ _. (
      tt,
      λ _. (
        tt,
        λ products. (
          refl,
          λ _.
              then_run-Balanced 1 1 0 (convert_prices products.num_products 0 products code) _
                (convert_prices-Balanced products.num_products 0 products)
                (λ _. (refl, λ _. then_done (choose_ad []) _ choose_ad-Balanced)),
        ),
      ),
    ),
  )

  product_handler-Balanced : (id : String) → Balanced 0 0 (product_handler id code)
  unfolding product_handler
  product_handler-Balanced id = (
    tt,
    λ p. (tt, λ _. (tt, λ _. (tt, λ _. (tt, λ _. then_done (choose_ad []) _ choose_ad-Balanced)))),
  )

  add_prices-Balanced :
      (left i : ℕ) (cart : Cart) (total : Money) → Balanced 0 0 (add_prices left i cart code total)
  unfolding add_prices
  add_prices-Balanced zero i cart total = refl
  add_prices-Balanced (suc left) i cart total =
      (tt, λ p. (tt, λ price. add_prices-Balanced left (i + 1) cart _))

  cart_total-Balanced : Balanced 0 0 (cart_total code)
  unfolding cart_total get_shipping_quote
  cart_total-Balanced = (
    tt,
    λ _. (
      tt,
      λ cart. guarded (ltb 10 cart.num_items) 0 _ (
        tt,
        λ _. (
          tt,
          λ _. (
            tt,
            λ _.
                then_done (add_prices cart.num_items 0 cart code zero_money) _
                  (add_prices-Balanced cart.num_items 0 cart zero_money),
          ),
        ),
      ),
    ),
  )

  view_cart_handler-Balanced : Balanced 0 0 (view_cart_handler code)
  unfolding view_cart_handler
  view_cart_handler-Balanced = then_done (cart_total code) _ cart_total-Balanced

  place_order_handler-Balanced : (body : List ℕ) → Balanced 0 0 (place_order_handler code body)
  unfolding place_order_handler submit_order
  place_order_handler-Balanced body = from (read_form body)
    where
      from :
          (p : Param OrderForm)
          → Balanced 0 0 (elim p [
            | refused ↦ done http_bad_request
            | overrun ↦ undefined
            | value form _ ↦ then_run (submit_order code form) (λ _. done http_ok)
          ])
      from refused = refl
      from overrun = tt
      from (value form _) = (tt, λ _. (refl, λ _. (tt, λ _. (refl, λ _. (tt, λ _. refl)))))

add_to_cart_handler-Balanced : (body : List ℕ) → Balanced 0 0 (add_to_cart_handler body)
unfolding add_to_cart_handler
add_to_cart_handler-Balanced body = elim (Option-cases (scan_item body)) [
  | inl e ↦ rw (e, add_to_cart_handler) refl
  | inr ((id, quantity), e) ↦ rw (e, add_to_cart_handler) (tt, λ _. (tt, λ _. refl))
]

set_currency_handler-Balanced :
    (body currency : List ℕ) → Balanced 0 0 (set_currency_handler body currency)
unfolding set_currency_handler
set_currency_handler-Balanced body currency =
    elim (Option-cases (scan_literal (bytes_of "currency_code=") body)) [
      | inl e ↦ rw (e, set_currency_handler) refl
      | inr (text, e) ↦ elim (Option-cases (scan_word 3 text)) [
        | inl f ↦ rw (e, f, set_currency_handler) refl
        | inr ((code, rest), f) ↦ rw (e, f, set_currency_handler) refl
      ]
    ]

run_page-Balanced :
    (stale currency url body : List ℕ) (o : Option Page)
    → Balanced 0 0 (run_page stale currency url body o)
run_page-Balanced stale currency url body none = refl
run_page-Balanced stale currency url body (some home) = then_done _ _ (home_handler-Balanced _)
run_page-Balanced stale currency url body (some product) =
    then_done _ _ (product_handler-Balanced _ _)
run_page-Balanced stale currency url body (some view_cart) =
    then_done _ _ (view_cart_handler-Balanced _)
run_page-Balanced stale currency url body (some add_to_cart) =
    then_done _ _ (add_to_cart_handler-Balanced body)
run_page-Balanced stale currency url body (some empty_cart) = (tt, λ _. refl)
run_page-Balanced stale currency url body (some set_currency) =
    set_currency_handler-Balanced body currency
run_page-Balanced stale currency url body (some logout) = refl
run_page-Balanced stale currency url body (some checkout) =
    then_done _ _ (place_order_handler-Balanced _ body)

-- Whatever the request and the answers of the services are, a handler takes a second buffer only while it
-- holds none beside that of the request, gives back only what it has taken, and when it responds it has
-- given back all.
pub handle_request-Balanced :
    (stale currency bytes : List ℕ) → Balanced 0 0 (handle_request stale currency bytes)
unfolding handle_request
handle_request-Balanced stale currency bytes = elim (Option-cases (parse_http_request bytes)) [
  | inl e ↦ rw (e, handle_request) refl
  | inr ((method, url, body), e) ↦
      rw (e, handle_request)
        (subst (Balanced 0 0) (sym (route_lem stale currency method body url))
          (run_page-Balanced stale currency url body (first_page table method url)))
]
