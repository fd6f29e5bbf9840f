-- ===== src/Frontend/Table.antt =====
-- apps/boutique/sure/frontend/main.c: the tests of `handle_request` as a table of methods and URLs.
use Prim.Native.String.{String}
use sure.Prelude.{
  ℕ, ◌≡◌, refl, sym, subst, inl, inr, Bool, true, ◌&&◌, Bool-cases, if◌then◌else◌, Option, none,
  some, List, [], ◌∷◌, ◌++◌, drop, length,
}
use sure.Prelude.Bytes.{bytes_of, same_bytes, same_bytes→eq, c_string}
use sure.Frontend.{starts_with}
use sure.Frontend.Parse.{starts_with-drop}
use sure.Frontend.Calls.{Run, done}
use sure.Frontend.Pages.{
  Response, http_not_found, home_handler, product_handler, view_cart_handler, add_to_cart_handler,
  empty_cart_handler, set_currency_handler, logout_handler,
}
use sure.Frontend.OrderForm.{place_order_handler}
use sure.Frontend.Routes.{copied_id, keeping, route}

pub data Page : Type 0 where
  home product view_cart add_to_cart empty_cart set_currency logout checkout : Page

-- A URL of the table: the one text, or all that begin with it.
pub data Pattern : Type 0 where
  exactly below : String → Pattern

pub record Entry : Type 0 where
  pub url : Pattern
  pub method : String
  pub page : Page

abbrev pub url_matches : Pattern → List ℕ → Bool
url_matches (exactly s) url = same_bytes url (bytes_of s)
url_matches (below s) url = starts_with (bytes_of s) url

abbrev pub table : List Entry
table =
    record { url = exactly "/"; method = "GET"; page = home }
    ∷ record { url = below "/product/"; method = "GET"; page = product }
    ∷ record { url = exactly "/cart"; method = "GET"; page = view_cart }
    ∷ record { url = exactly "/cart"; method = "POST"; page = add_to_cart }
    ∷ record { url = exactly "/cart/empty"; method = "POST"; page = empty_cart }
    ∷ record { url = exactly "/setCurrency"; method = "POST"; page = set_currency }
    ∷ record { url = exactly "/logout"; method = "GET"; page = logout }
    ∷ record { url = exactly "/cart/checkout"; method = "POST"; page = checkout }
    ∷ []

-- The first entry for a method and a URL.
abbrev pub first_page : List Entry → List ℕ → List ℕ → Option Page
first_page [] method url = none
first_page (e ∷ es) method url =
    let later = first_page es method url in
    if url_matches e.url url && same_bytes method (bytes_of e.method) then some e.page else later

abbrev pub run_page : List ℕ → List ℕ → List ℕ → List ℕ → Option Page → Run (Response × List ℕ)
run_page stale currency url body none = done (http_not_found, currency)
run_page stale currency url body (some home) = keeping currency (home_handler (c_string currency))
run_page stale currency url body (some product) =
    keeping currency (product_handler (c_string (copied_id stale (drop 9 url))) (c_string currency))
run_page stale currency url body (some view_cart) =
    keeping currency (view_cart_handler (c_string currency))
run_page stale currency url body (some add_to_cart) = keeping currency (add_to_cart_handler body)
run_page stale currency url body (some empty_cart) = keeping currency empty_cart_handler
run_page stale currency url body (some set_currency) = set_currency_handler body currency
run_page stale currency url body (some logout) = keeping currency logout_handler
run_page stale currency url body (some checkout) =
    keeping currency (place_order_handler (c_string currency) body)

module _ (stale currency method body : List ℕ) where
  abbrev pub Agrees : List ℕ → Type 0
  Agrees url =
      route stale currency method url body
      ≡ run_page stale currency url body (first_page table method url)

  at_exactly :
      (url : List ℕ) (s : String)
      → same_bytes url (bytes_of s) ≡ true
      → Agrees (bytes_of s)
      → Agrees url
  at_exactly url s e h = subst Agrees (sym (same_bytes→eq url (bytes_of s) e)) h

  at_root : Agrees (bytes_of "/")
  unfolding route
  at_root = elim (Bool-cases (same_bytes method (bytes_of "GET"))) [
    | inl e ↦ rw (e, route) refl
    | inr e ↦ rw (e, route) refl
  ]

  at_product : (rest : List ℕ) → Agrees (bytes_of "/product/" ++ rest)
  unfolding route
  at_product rest = elim (Bool-cases (same_bytes method (bytes_of "GET"))) [
    | inl e ↦ rw (e, route) refl
    | inr e ↦ rw (e, route) refl
  ]

  at_cart : Agrees (bytes_of "/cart")
  unfolding route
  at_cart = elim (Bool-cases (same_bytes method (bytes_of "GET"))) [
    | inl e ↦ rw (e, route) refl
    | inr e ↦ elim (Bool-cases (same_bytes method (bytes_of "POST"))) [
      | inl f ↦ rw (e, f, route) refl
      | inr f ↦ rw (e, f, route) refl
    ]
  ]

  at_empty : Agrees (bytes_of "/cart/empty")
  unfolding route
  at_empty = elim (Bool-cases (same_bytes method (bytes_of "POST"))) [
    | inl e ↦ rw (e, route) refl
    | inr e ↦ rw (e, route) refl
  ]

  at_set_currency : Agrees (bytes_of "/setCurrency")
  unfolding route
  at_set_currency = elim (Bool-cases (same_bytes method (bytes_of "POST"))) [
    | inl e ↦ rw (e, route) refl
    | inr e ↦ rw (e, route) refl
  ]

  at_logout : Agrees (bytes_of "/logout")
  unfolding route
  at_logout = elim (Bool-cases (same_bytes method (bytes_of "GET"))) [
    | inl e ↦ rw (e, route) refl
    | inr e ↦ rw (e, route) refl
  ]

  at_checkout : Agrees (bytes_of "/cart/checkout")
  unfolding route
  at_checkout = elim (Bool-cases (same_bytes method (bytes_of "POST"))) [
    | inl e ↦ rw (e, route) refl
    | inr e ↦ rw (e, route) refl
  ]

  -- The nested tests of `handle_request` choose the first entry of a table of eight methods and URLs, and
  -- do what the page of that entry does: `GET /`, `GET /product/...`, `GET /cart`, `POST /cart`,
  -- `POST /cart/empty`, `POST /setCurrency`, `GET /logout` and `POST /cart/checkout`. Every other method
  -- and URL is answered with 404, with no call, and leaves the currency.
  pub route_lem : (url : List ℕ) → Agrees url
  unfolding route
  route_lem url = elim (Bool-cases (same_bytes url (bytes_of "/"))) [
    | inl e1 ↦ at_exactly url "/" e1 at_root
    | inr e1 ↦ elim (Bool-cases (starts_with (bytes_of "/product/") url)) [
      | inl e2 ↦
          subst Agrees (sym (starts_with-drop (bytes_of "/product/") url e2))
            (at_product (drop (length (bytes_of "/product/")) url))
      | inr e2 ↦ elim (Bool-cases (same_bytes url (bytes_of "/cart"))) [
        | inl e3 ↦ at_exactly url "/cart" e3 at_cart
        | inr e3 ↦ elim (Bool-cases (same_bytes url (bytes_of "/cart/empty"))) [
          | inl e4 ↦ at_exactly url "/cart/empty" e4 at_empty
          | inr e4 ↦ elim (Bool-cases (same_bytes url (bytes_of "/setCurrency"))) [
            | inl e5 ↦ at_exactly url "/setCurrency" e5 at_set_currency
            | inr e5 ↦ elim (Bool-cases (same_bytes url (bytes_of "/logout"))) [
              | inl e6 ↦ at_exactly url "/logout" e6 at_logout
              | inr e6 ↦ elim (Bool-cases (same_bytes url (bytes_of "/cart/checkout"))) [
                | inl e7 ↦ at_exactly url "/cart/checkout" e7 at_checkout
                | inr e7 ↦ rw (e1, e2, e3, e4, e5, e6, e7, route) refl
              ]
            ]
          ]
        ]
      ]
    ]
  ]
