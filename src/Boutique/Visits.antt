-- ===== src/Boutique/Visits.antt =====
-- The shop of apps/boutique/sure: what any requests to the frontend leave of a cart.
use Prim.Native.String.{String}
use sure.Prelude.{ℕ, ◌≡◌, ◌⊎◌, inl, inr, refl, ap, subst, ◌∙◌, List, [], ◌∷◌, some}
use sure.Cart.{Cart, empty_cart_async}
use sure.Cart.History.{add_found, empty_cart_async_lem}
use sure.Service.Process.{Exec, returns, exits}
use sure.Currency.{CurrencyConversionRr}
use sure.Checkout.{PlaceOrderRr, place_order}
use sure.Checkout.Keeps.{Behind, KeptBy, place_order-Behind}
use sure.Frontend.Calls as Calls
use sure.Frontend.Calls.{Call, Answer, Run, done, undefined, call, perform}
use sure.Frontend.Pages.{Response}
use sure.Frontend.Routes.{handle_request}
use sure.Boutique.{
  Setting, World, priced, order_of, as_place_order, shop, answer_call, backend, visit,
}

pub Exec-cases : {A : Type 0} (x : Exec A) → (x ≡ exits) ⊎ ((a : A) × (x ≡ returns a))
Exec-cases exits = inl refl
Exec-cases (returns a) = inr (a, refl)

module _ (o : Setting) (user : String) (cart : Cart) where
  open o.cart_map use {find}

  -- The user has this cart.
  abbrev pub HasCart : World o → Type 0
  HasCart (carts, n) = find user carts ≡ some cart

  priced-HasCart :
      (r : Exec CurrencyConversionRr) (w : World o) → HasCart w → Behind HasCart (priced o r w)
  priced-HasCart exits w h = tt
  priced-HasCart (returns rr) w h = h

  empty-HasCart :
      (u : String) (carts : o.cart_map.Store)
      → find user carts ≡ some cart
      → find user (empty_cart_async o.cart_map u carts) ≡ some cart
  empty-HasCart u carts h = ap (find user) (empty_cart_async_lem o.cart_map u carts) ∙ h

  shop-KeptBy : KeptBy (shop o) HasCart
  shop-KeptBy = record {
    by_get_buffer = λ w h. h;
    by_put_buffer = λ w h. h;
    by_get_cart = λ u w h. h;
    by_get_product = λ id w h. h;
    by_convert = λ m code w h. priced-HasCart _ w h;
    by_get_quote = λ a c w h. h;
    by_charge_card = λ m c w h. h;
    by_ship_order = λ a n items w h. h;
    by_empty_cart = λ u (carts, n) h. empty-HasCart u carts h;
    by_confirm = λ email order w h. h;
  }

  order_of-HasCart :
      (r : Exec (PlaceOrderRr × World o)) → Behind HasCart r → Behind HasCart (order_of r)
  order_of-HasCart exits h = tt
  order_of-HasCart (returns (rr, w)) h = h

  answer_call-HasCart : (c : Call) (w : World o) → HasCart w → Behind HasCart (answer_call o c w)
  answer_call-HasCart Calls.get_supported_currencies w h = h
  answer_call-HasCart Calls.list_products w h = h
  answer_call-HasCart (Calls.get_cart u) w h = h
  answer_call-HasCart (Calls.convert price code) w h = priced-HasCart _ w h
  answer_call-HasCart (Calls.get_ads keys) w h = h
  answer_call-HasCart (Calls.get_product id) w h = h
  answer_call-HasCart (Calls.list_recommendations u ids) w h = h
  answer_call-HasCart (Calls.get_quote n items) w h = h
  answer_call-HasCart (Calls.add_item r) (carts, n) h =
      add_found o.cart_map user r.user_id r.item.product_id r.item.quantity carts cart h
  answer_call-HasCart (Calls.empty_cart u) (carts, n) h = empty-HasCart u carts h
  answer_call-HasCart (Calls.place_order r) w h =
      order_of-HasCart (place_order (shop o) (as_place_order r) w)
        (place_order-Behind (shop o) HasCart shop-KeptBy (as_place_order r) w h)
  answer_call-HasCart Calls.rand w h = h
  answer_call-HasCart Calls.buffer_get w h = h
  answer_call-HasCart Calls.buffer_put w h = h

  perform-HasCart :
      {A : Type 0} (r : Run A) (w : World o) → HasCart w → Behind HasCart (perform (backend o) r w)
  unfolding perform
  perform-HasCart (done a) w h = h
  perform-HasCart undefined w h = tt
  perform-HasCart (call c next) w h = elim (Exec-cases (answer_call o c w)) [
    | inl e ↦ rw (e, perform) tt
    | inr ((a, w'), e) ↦
        rw (e, perform)
          (perform-HasCart (next a) w' (subst (Behind HasCart) e (answer_call-HasCart c w h)))
  ]

  -- A user who has a cart has it, as it is, behind any requests to the frontend, if no service exits.
  pub visit-HasCart :
      (stale currency : List ℕ) (requests : List (List ℕ)) (w : World o)
      → HasCart w
      → Behind HasCart (visit o stale currency requests w)
  unfolding visit
  visit-HasCart stale currency [] w h = h
  visit-HasCart stale currency (bytes ∷ more) w h =
      let r : Run (Response × List ℕ) = handle_request stale currency bytes in
      elim (Exec-cases (perform (backend o) r w)) [
        | inl e ↦ rw (e, visit) tt
        | inr (((response, currency'), w'), e) ↦
            let next : Behind HasCart (visit o stale currency' more w') =
              visit-HasCart stale currency' more w'
                (subst (Behind HasCart) e (perform-HasCart r w h)) in
            elim (Exec-cases (visit o stale currency' more w')) [
              | inl f ↦ rw (e, f, visit) tt
              | inr (((responses, currency''), w''), f) ↦
                  rw (e, f, visit) (subst (Behind HasCart) f next)
            ]
      ]
