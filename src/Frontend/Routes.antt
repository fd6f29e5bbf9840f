-- ===== src/Frontend/Routes.antt =====
-- `handle_request` of apps/boutique/sure/frontend/main.c: which handler a request gets.
use sure.Prelude.{ℕ, ltb, if◌then◌else◌, none, some, List, ◌++◌, length, take, drop}
use sure.Prelude.Bytes.{bytes_of, same_bytes, c_string}
use sure.Frontend.{starts_with, parse_http_request}
use sure.Frontend.Calls.{Run, done, then_run}
use sure.Frontend.Pages.{
  Response, http_bad_request, http_not_found, home_handler, product_handler, view_cart_handler,
  add_to_cart_handler, empty_cart_handler, set_currency_handler, logout_handler,
}
use sure.Frontend.OrderForm.{place_order_handler}

-- `char id[20]` behind `strncpy(id, text, 19)`. A longer text leaves the last place as it was; `stale` is
-- the string that begins there.
abbrev pub copied_id : List ℕ → List ℕ → List ℕ
copied_id stale text = if ltb (length text) 19 then text else take 19 text ++ stale

-- A handler that leaves `currency` as it is.
abbrev pub keeping : List ℕ → Run Response → Run (Response × List ℕ)
keeping currency r = then_run r (λ response. done (response, currency))

-- The tests of `handle_request`. The result is the response and the new `currency`.
unfoldable pub route : List ℕ → List ℕ → List ℕ → List ℕ → List ℕ → Run (Response × List ℕ)
route stale currency method url body =
    let code = c_string currency in
    let get = same_bytes method (bytes_of "GET") in
    let post = same_bytes method (bytes_of "POST") in
    let not_handled : Run (Response × List ℕ) = done (http_not_found, currency) in
    if same_bytes url (bytes_of "/")
    then (if get then keeping currency (home_handler code) else not_handled)
    else if starts_with (bytes_of "/product/") url
    then (if get
        then keeping currency (product_handler (c_string (copied_id stale (drop 9 url))) code)
        else not_handled)
    else if same_bytes url (bytes_of "/cart")
    then (if get
        then keeping currency (view_cart_handler code)
        else if post
        then keeping currency (add_to_cart_handler body)
        else not_handled)
    else if same_bytes url (bytes_of "/cart/empty")
    then (if post then keeping currency empty_cart_handler else not_handled)
    else if same_bytes url (bytes_of "/setCurrency")
    then (if post then set_currency_handler body currency else not_handled)
    else if same_bytes url (bytes_of "/logout")
    then (if get then keeping currency logout_handler else not_handled)
    else if same_bytes url (bytes_of "/cart/checkout")
    then (if post then keeping currency (place_order_handler code body) else not_handled)
    else not_handled

-- `handle_request`. The code reads the global `currency` at each call; the model has its value at the
-- start of the request, that is, no other request sets it while this one waits for a service.
unfoldable pub handle_request : List ℕ → List ℕ → List ℕ → Run (Response × List ℕ)
unfolding route
handle_request stale currency bytes = elim (parse_http_request bytes) [
  | none ↦ done (http_bad_request, currency)
  | some (method, url, body) ↦ route stale currency method url body
]
