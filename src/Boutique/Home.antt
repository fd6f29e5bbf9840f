-- ===== src/Boutique/Home.antt =====
-- The shop of apps/boutique/sure: the home page, in the currencies that have a rate and in others.
use Prim.Native.String.{String}
use sure.Prelude.{
  ℕ, zero, suc, ◌+◌, ◌≤◌, ◌<◌, ◌≡◌, refl, sym, ap, subst, ◌∙◌, inl, inr, [], get_or, replicate,
  Option, none, some, arith, none-ne-some, Option-cases,
}
use sure.Money.{Money}
use sure.Catalog.{Products, list_products, copy_products}
use sure.Ads.{get_ads, get_random_ads}
use sure.Currency.{CurrencyConversionRr}
use sure.Currency.Rates.{rate_of, Converted, convert-Converted}
use sure.Service.Process.{Exec, returns, exits}
use sure.Checkout.{zero_money}
use sure.Frontend.Calls as Calls
use sure.Frontend.Calls.{call, done, buffer_put, perform, then_run, Run}
use sure.Frontend.Pages.{Response, http_ok, zero_product, choose_ad, convert_prices, home_handler}
use sure.Boutique.{Setting, World, answer_call, backend}
use sure.Boutique.Visits.{Exec-cases}
use sure.Boutique.Total.{conversion}

abbrev listed : Products
listed = list_products (record { num_products = 0; listed = replicate 9 zero_product })

-- The prices of the catalog are in dollars.
in_dollars : (i : ℕ) → i < 9 → (get_or listed.listed i zero_product).price_usd.currency_code ≡ "USD"
unfolding list_products copy_products
in_dollars zero h = refl
in_dollars (suc zero) h = refl
in_dollars (suc (suc zero)) h = refl
in_dollars (suc (suc (suc zero))) h = refl
in_dollars (suc (suc (suc (suc zero)))) h = refl
in_dollars (suc (suc (suc (suc (suc zero))))) h = refl
in_dollars (suc (suc (suc (suc (suc (suc zero)))))) h = refl
in_dollars (suc (suc (suc (suc (suc (suc (suc zero))))))) h = refl
in_dollars (suc (suc (suc (suc (suc (suc (suc (suc zero)))))))) h = refl
in_dollars (suc (suc (suc (suc (suc (suc (suc (suc (suc i))))))))) h = absurd (omega (arith, h))

module _ (o : Setting) where
  -- The rate of a currency, in the service's table.
  abbrev pub rate : String → Option o.doubles.D
  rate code = rate_of o.doubles o.rate_map code

  -- What `Convert` promises of a price in dollars.
  conversion-Converted :
      (price : Money) (code : String) (r : Exec CurrencyConversionRr)
      → conversion o price code ≡ r
      → Converted o.doubles o.rate_map (record { from = price; to_code = code; res = zero_money }) r
  conversion-Converted price code r e =
      subst
        (Converted o.doubles o.rate_map (record { from = price; to_code = code; res = zero_money }))
        e
        (convert-Converted o.doubles o.rate_map
          (record { from = price; to_code = code; res = zero_money }))

  conversion-known :
      (price : Money) (code : String) (r : o.doubles.D)
      → price.currency_code ≡ "USD"
      → rate code ≡ some r
      → (rr : CurrencyConversionRr) × (conversion o price code ≡ returns rr)
  conversion-known price code r usd known = elim (Exec-cases (conversion o price code)) [
    | inl e ↦ elim (conversion-Converted price code exits e) [
      | inl no_from ↦ absurd (none-ne-some (sym no_from ∙ ap rate usd))
      | inr no_to ↦ absurd (none-ne-some (sym no_to ∙ known))
    ]
    | inr (rr, e) ↦ (rr, e)
  ]

  conversion-unknown :
      (price : Money) (code : String) → rate code ≡ none → conversion o price code ≡ exits
  conversion-unknown price code unknown = elim (Exec-cases (conversion o price code)) [
    | inl e ↦ e
    | inr (rr, e) ↦
        let (r, r', _, known, _, _) = conversion-Converted price code (returns rr) e in
        absurd (none-ne-some (sym unknown ∙ known))
  ]

  convert_prices-known :
      (left i : ℕ) (code : String) (r : o.doubles.D) (w : World o)
      → i + left ≤ 9
      → rate code ≡ some r
      → perform (backend o) (convert_prices left i listed code) w ≡ returns (tt, w)
  unfolding convert_prices perform
  convert_prices-known zero i code r w h known = refl
  convert_prices-known (suc left) i code r w h known =
      let (rr, e) =
        conversion-known (get_or listed.listed i zero_product).price_usd code r
          (in_dollars i (omega (arith, h))) known in
      rw (e, perform) (convert_prices-known left (i + 1) code r w (omega (arith, h)) known)

  -- A run over what another run gives.
  abbrev then_exec :
      {A B : Type 0} → Exec (A × World o) → (A → World o → Exec (B × World o)) → Exec (B × World o)
  then_exec exits k = exits
  then_exec (returns (a, w)) k = k a w

  perform-then_run :
      {A B : Type 0} (r : Run A) (k : A → Run B) (w : World o)
      → perform (backend o) (then_run r k) w
        ≡ then_exec (perform (backend o) r w) (λ a w'. perform (backend o) (k a) w')
  unfolding perform
  perform-then_run (Calls.done a) k w = refl
  perform-then_run Calls.undefined k w = refl
  perform-then_run (Calls.call c next) k w = elim (Exec-cases (answer_call o c w)) [
    | inl e ↦ rw (e, perform) refl
    | inr ((a, w'), e) ↦ rw (e, perform) (perform-then_run (next a) k w')
  ]

  -- The home page, behind the prices.
  unfoldable behind_prices : Unit {0} → Run Response
  behind_prices _ = call buffer_put (λ _. then_run (choose_ad []) (λ _. done http_ok))

  behind_prices-returns :
      (n : ℕ) (carts : o.cart_map.Store)
      → perform (backend o) (behind_prices tt) (carts, n) ≡ returns (http_ok, (carts, n + 2 + 1))
  unfolding behind_prices choose_ad perform get_ads get_random_ads
  behind_prices-returns n carts = refl

  home_handler-known :
      (code : String) (r : o.doubles.D) (n : ℕ) (carts : o.cart_map.Store)
      → rate code ≡ some r
      → perform (backend o) (home_handler code) (carts, n) ≡ returns (http_ok, (carts, n + 2 + 1))
  unfolding home_handler perform list_products behind_prices
  home_handler-known code r n carts known =
      perform-then_run (convert_prices 9 0 listed code) behind_prices (carts, n)
      ∙ (rw (convert_prices-known 9 0 code r (carts, n) (omega arith) known)
          (behind_prices-returns n carts))

  home_handler-unknown :
      (code : String) (w : World o)
      → rate code ≡ none
      → perform (backend o) (home_handler code) w ≡ exits
  unfolding home_handler convert_prices perform list_products
  home_handler-unknown code w unknown =
      rw (conversion-unknown (get_or listed.listed 0 zero_product).price_usd code unknown, perform)
        refl

  -- The response and the world behind it, if the currency has a rate, and no response else.
  abbrev pub shown_in : Option o.doubles.D → o.cart_map.Store → ℕ → Exec (Response × World o)
  shown_in none carts n = exits
  shown_in (some r) carts n = returns (http_ok, (carts, n + 2 + 1))

  -- The home page in a currency that has a rate is answered with, whatever the carts are, and leaves
  -- them as they were; in any other currency the handler does not come to a response, since the currency
  -- service exits at the first price.
  pub home_handler_lem :
      (code : String) (carts : o.cart_map.Store) (n : ℕ)
      → perform (backend o) (home_handler code) (carts, n) ≡ shown_in (rate code) carts n
  home_handler_lem code carts n = elim (Option-cases (rate code)) [
    | inl unknown ↦
        home_handler-unknown code (carts, n) unknown ∙ sym (ap (λ r. shown_in r carts n) unknown)
    | inr (r, known) ↦
        home_handler-known code r n carts known ∙ sym (ap (λ r'. shown_in r' carts n) known)
  ]
