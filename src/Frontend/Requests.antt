-- ===== src/Frontend/Requests.antt =====
-- apps/boutique/sure/frontend/main.c: what any request, and what a GET request, may do.
use sure.Prelude.{
  ℕ, zero, suc, ◌≤◌, ◌≡◌, refl, sym, subst, inl, inr, Bool, true, ◌&&◌, Bool-cases, Option, none,
  some, Option-cases, some_inj, none-ne-some, List, [], ◌∷◌, length, arith, drop, All,
  true-ne-false,
}
use sure.Prelude.Bytes.{bytes_of, same_bytes, same_bytes→eq, both_true, c_string}
use sure.Frontend.{parse_http_request}
use sure.Frontend.Scan.{scan_literal, scan_word, split_word, skip_spaces, not_empty, is_space}
use sure.Frontend.Calls.{Call, Run, done, undefined, call, then_run}
use sure.Frontend.Pages.{
  Response, http_ok, http_bad_request, home_handler, product_handler, view_cart_handler, scan_item,
  add_to_cart_handler, set_currency_handler, logout_handler,
}
use sure.Frontend.OrderForm.{
  OrderForm, Param, read_form, refused, overrun, value, submit_order, place_order_handler,
}
use sure.Frontend.Routes.{keeping, copied_id, route, handle_request}
use sure.Frontend.Table.{
  Page, Entry, url_matches, home, product, view_cart, add_to_cart, empty_cart, set_currency, logout,
  checkout, table, first_page, run_page, route_lem,
}
use sure.Frontend.Does.{Does, then_run-Does}
use sure.Frontend.Session.{
  Ours, Shows, Any, home_handler-Fine, product_handler-Fine, view_cart_handler-Fine,
}

-- The response goes with the same currency.
abbrev pub Same : List ℕ → Response × List ℕ → Type 0
Same currency (response, currency') = currency' ≡ currency

-- The currency fits into `char currency[4]`, with the 0 behind it.
abbrev pub Fits : Response × List ℕ → Type 0
Fits (response, currency) = length currency ≤ 3

Does-weaker :
    {A : Type 0} (P P' : Call → Type 0) (Q Q' : A → Type 0) (r : Run A)
    → ((c : Call) → P c → P' c)
    → ((a : A) → Q a → Q' a)
    → Does P Q r
    → Does P' Q' r
Does-weaker P P' Q Q' (done a) f g d = g a d
Does-weaker P P' Q Q' undefined f g d = tt
Does-weaker P P' Q Q' (call c next) f g (p, d) =
    (f c p, λ a. Does-weaker P P' Q Q' (next a) f g (d a))

keeping-Same :
    (P : Call → Type 0) (currency : List ℕ) (r : Run Response)
    → Does P Any r
    → Does P (Same currency) (keeping currency r)
keeping-Same P currency r d = then_run-Does P Any (Same currency) r _ d (λ _ _. refl)

module _ (stale currency url body : List ℕ) where
  abbrev ShowsOnly : Run (Response × List ℕ) → Type 0
  ShowsOnly r = Does (Shows (c_string currency)) (Same currency) r

  abbrev ShowsPage : Option Page → Type 0
  ShowsPage o = ShowsOnly (run_page stale currency url body o)

  -- What holds of every page for a method holds of the page that is found.
  first_page-ShowsPage :
      (method : List ℕ) (es : List Entry)
      → ShowsPage none
      → All (λ e. same_bytes method (bytes_of e.method) ≡ true → ShowsPage (some e.page)) es
      → ShowsPage (first_page es method url)
  first_page-ShowsPage method [] d all = d
  first_page-ShowsPage method (e ∷ es) d (page, all) =
      let here : Bool = url_matches e.url url && same_bytes method (bytes_of e.method) in
      elim (Bool-cases here) [
        | inl h ↦
            let (_, same) =
              both_true (url_matches e.url url) (same_bytes method (bytes_of e.method)) h in
            rw (h) (page same)
        | inr h ↦ rw (h) (first_page-ShowsPage method es d all)
      ]

  not_get : {A : Type 0} → same_bytes (bytes_of "GET") (bytes_of "POST") ≡ true → A
  not_get e = absurd (true-ne-false (sym e))

  get_pages :
      All
        (λ e. same_bytes (bytes_of "GET") (bytes_of e.method) ≡ true → ShowsPage (some e.page))
        table
  get_pages =
      let code = c_string currency in
      let P : Call → Type 0 = Shows code in
      (
        λ _. keeping-Same P currency (home_handler code) (home_handler-Fine code),
        (
          λ _.
              keeping-Same P currency
                (product_handler (c_string (copied_id stale (drop 9 url))) code)
                (product_handler-Fine code _),
          (
            λ _. keeping-Same P currency (view_cart_handler code) (view_cart_handler-Fine code),
            (
              not_get,
              (not_get, (not_get, (λ _. keeping-Same P currency logout_handler tt, (not_get, tt)))),
            ),
          ),
        ),
      )

  -- A GET request only shows something: whatever its URL is and whatever the services answer, none of its
  -- calls adds to a cart, empties one or places an order; the calls are for the user of the frontend and
  -- ask for prices in its currency; and the currency stays.
  pub route-Shows :
      (method : List ℕ)
      → same_bytes method (bytes_of "GET") ≡ true
      → Does (Shows (c_string currency)) (Same currency) (route stale currency method url body)
  route-Shows method e =
      subst (λ m. ShowsOnly (route stale currency m url body))
        (sym (same_bytes→eq method (bytes_of "GET") e))
        (subst ShowsOnly (sym (route_lem stale currency (bytes_of "GET") body url))
          (first_page-ShowsPage (bytes_of "GET") table refl get_pages))

split_word-length : (n : ℕ) (cs : List ℕ) → length (split_word n cs).0 ≤ n
split_word-length zero cs = omega arith
split_word-length (suc n) [] = omega arith
split_word-length (suc n) (c ∷ cs) = elim (Bool-cases (is_space c)) [
  | inl e ↦ rw (e) (let z : 0 ≤ suc n = omega arith in z)
  | inr e ↦
      rw (e) (let h : length (split_word n cs).0 ≤ n = split_word-length n cs in omega (arith, h))
]

scan_word-length :
    (n : ℕ) (text word rest : List ℕ) → scan_word n text ≡ some (word, rest) → length word ≤ n
unfolding scan_word
scan_word-length n text word rest e =
    from (split_word n (skip_spaces text)) e (split_word-length n (skip_spaces text))
  where
    from :
        (s : List ℕ × List ℕ) → not_empty s ≡ some (word, rest) → length s.0 ≤ n → length word ≤ n
    from ([], r) e h = absurd (none-ne-some e)
    from (c ∷ cs, r) e h = subst (λ s. length s.0 ≤ n) (some_inj e) h

module _ (currency : List ℕ) where
  abbrev OursOnly : {A : Type 0} → (A → Type 0) → Run A → Type 0
  OursOnly Q r = Does (Ours (c_string currency)) Q r

  set_currency_handler-Fits :
      (body : List ℕ) → length currency ≤ 3 → OursOnly Fits (set_currency_handler body currency)
  unfolding set_currency_handler
  set_currency_handler-Fits body h =
      elim (Option-cases (scan_literal (bytes_of "currency_code=") body)) [
        | inl e ↦ rw (e, set_currency_handler) h
        | inr (text, e) ↦ elim (Option-cases (scan_word 3 text)) [
          | inl f ↦ rw (e, f, set_currency_handler) h
          | inr ((code, rest), f) ↦
              rw (e, f, set_currency_handler) (scan_word-length 3 text code rest f)
        ]
      ]

  add_to_cart_handler-Ours : (body : List ℕ) → OursOnly Any (add_to_cart_handler body)
  unfolding add_to_cart_handler
  add_to_cart_handler-Ours body = elim (Option-cases (scan_item body)) [
    | inl e ↦ rw (e, add_to_cart_handler) tt
    | inr ((id, quantity), e) ↦ rw (e, add_to_cart_handler) (tt, λ _. (refl, λ _. tt))
  ]

  place_order_handler-Ours :
      (body : List ℕ) → OursOnly Any (place_order_handler (c_string currency) body)
  unfolding place_order_handler submit_order
  place_order_handler-Ours body = from (read_form body)
    where
      from :
          (p : Param OrderForm)
          → OursOnly Any (elim p [
            | refused ↦ done http_bad_request
            | overrun ↦ undefined
            | value form _ ↦ then_run (submit_order (c_string currency) form) (λ _. done http_ok)
          ])
      from refused = tt
      from overrun = tt
      from (value form _) = ((refl, refl), λ _. (tt, λ _. (refl, λ _. (tt, λ _. (tt, λ _. tt)))))

  keeping-Fits :
      (r : Run Response) → length currency ≤ 3 → OursOnly Any r → OursOnly Fits (keeping currency r)
  keeping-Fits r h d = then_run-Does (Ours (c_string currency)) Any Fits r _ d (λ _ _. h)

  fine-Fits :
      (r : Run Response)
      → length currency ≤ 3
      → Does (Shows (c_string currency)) Any r
      → OursOnly Fits (keeping currency r)
  fine-Fits r h d = keeping-Fits r h (
      Does-weaker (Shows (c_string currency)) (Ours (c_string currency)) Any Any r (λ c p. p.1)
        (λ _ _. tt) d)

  run_page-Fits :
      (stale url body : List ℕ) (o : Option Page)
      → length currency ≤ 3
      → OursOnly Fits (run_page stale currency url body o)
  run_page-Fits stale url body none h = h
  run_page-Fits stale url body (some home) h = fine-Fits _ h (home_handler-Fine _)
  run_page-Fits stale url body (some product) h = fine-Fits _ h (product_handler-Fine _ _)
  run_page-Fits stale url body (some view_cart) h = fine-Fits _ h (view_cart_handler-Fine _)
  run_page-Fits stale url body (some add_to_cart) h =
      keeping-Fits _ h (add_to_cart_handler-Ours body)
  run_page-Fits stale url body (some empty_cart) h = (refl, λ _. h)
  run_page-Fits stale url body (some set_currency) h = set_currency_handler-Fits body h
  run_page-Fits stale url body (some logout) h = h
  run_page-Fits stale url body (some checkout) h = keeping-Fits _ h (place_order_handler-Ours body)

  -- As long as no other request sets the currency while this one waits for a service: while the currency
  -- has at most three characters, it has so behind any request, and fits into its array; and whatever the
  -- request and the answers of the services are, the carts, recommendations and orders that are asked for
  -- are those of the frontend's one user, and prices and orders are in the currency that was set before
  -- the request.
  pub handle_request-Ours :
      (stale bytes : List ℕ)
      → length currency ≤ 3
      → Does (Ours (c_string currency)) Fits (handle_request stale currency bytes)
  unfolding handle_request
  handle_request-Ours stale bytes h = elim (Option-cases (parse_http_request bytes)) [
    | inl e ↦ rw (e, handle_request) h
    | inr ((method, url, body), e) ↦
        rw (e, handle_request)
          (subst (OursOnly Fits) (sym (route_lem stale currency method body url))
            (run_page-Fits stale url body (first_page table method url) h))
  ]
