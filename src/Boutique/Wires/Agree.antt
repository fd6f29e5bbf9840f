-- ===== src/Boutique/Wires/Agree.antt =====
-- The shop of apps/boutique/sure: an order through the buffers of the checkout service and one without.
use sure.Prelude.{refl, subst, List, [], ◌∷◌}
use sure.Service.Process.{Exec}
use sure.Checkout.{PlaceOrderRr, place_order}
use sure.Checkout.Services.{Shop}
use sure.Checkout.Rpc.{Rpc, Stale}
use sure.Checkout.Marshal.{Net, Buffers, put, shop_of, handle_request}
use sure.Checkout.Agrees.{Same, SameCart, Equal, Any, Agrees, place_order-Same}
use sure.Boutique.{Setting, World, shop}
use sure.Boutique.Wires.{wires}
use sure.Boutique.Wires.Calls.{
  InCatalog, IsStockedWorld, SameWorld, get_cart-Same, get_product-Same, convert-Same,
  charge_card-Same, ship_order-Same, empty_cart-Same, confirm-Same, get_quote-Same,
}

module _ (o : Setting) (stale : Stale) (fresh : World o → Rpc) where
  abbrev net : Net
  net = wires o stale fresh

  -- The calls through the buffers, and those with fresh messages.
  abbrev through : Shop
  through = shop_of net stale

  abbrev direct : Shop
  direct = shop o

  at-Same :
      {A : Type 0} (Q : A → A → Type 0) (f : Buffers net stale → Exec (A × Buffers net stale))
      (g : World o → Exec (A × World o)) (st : Buffers net stale) (w : World o)
      → ((b : Rpc) (bs : List Rpc) (v : World o)
          → IsStockedWorld o stale fresh v
          → Same Q (SameWorld o stale fresh) (f (b, bs, v)) (g v))
      → SameWorld o stale fresh st w
      → Same Q (SameWorld o stale fresh) (f st) (g w)
  at-Same Q f g (b, bs, v) w h (e, stocked) =
      subst (λ x. Same Q (SameWorld o stale fresh) (f (b, bs, v)) (g x)) e (h b bs v stocked)

  put-SameWorld :
      (st : Buffers net stale) (w : World o)
      → SameWorld o stale fresh st w
      → SameWorld o stale fresh (put net stale st) w
  put-SameWorld (b, [], v) w h = h
  put-SameWorld (b, b' ∷ bs, v) w h = h

  net-Agrees : Agrees through direct (SameWorld o stale fresh) InCatalog
  net-Agrees = record {
    by_get_buffer = λ (b, bs, v) w h. h;
    by_put_buffer = put-SameWorld;
    by_get_cart = λ user st w h.
        at-Same (SameCart InCatalog) (through.get_cart user) (direct.get_cart user) st w
          (get_cart-Same o stale fresh user) h;
    by_get_product = λ item st w fine h.
        at-Same Equal (through.get_product item.product_id) (direct.get_product item.product_id) st
          w (λ b bs v. get_product-Same o stale fresh item b bs v fine) h;
    by_convert = λ price code st w h.
        at-Same Equal (through.convert price code) (direct.convert price code) st w
          (convert-Same o stale fresh price code) h;
    by_get_quote = λ a c d st w same h.
        at-Same Equal (through.get_quote a c) (direct.get_quote a d) st w
          (λ b bs v. get_quote-Same o stale fresh a c d b bs v same) h;
    by_charge_card = λ amount card st w h.
        at-Same Any (through.charge_card amount card) (direct.charge_card amount card) st w
          (charge_card-Same o stale fresh amount card) h;
    by_ship_order = λ a n items st w h.
        at-Same Equal (through.ship_order a n items) (direct.ship_order a n items) st w
          (ship_order-Same o stale fresh a n items) h;
    by_empty_cart = λ user st w h.
        at-Same Any (through.empty_cart user) (direct.empty_cart user) st w
          (empty_cart-Same o stale fresh user) h;
    by_confirm = λ email order st w h.
        at-Same Any (through.confirm email order) (direct.confirm email order) st w
          (confirm-Same o stale fresh email order) h;
  }

  -- Let every item of the carts be of the catalog. Then the checkout service, which writes each request
  -- over what stands in a buffer and reads the response out of it, answers an order as it would if it
  -- called the services with fresh messages, or exits where it would; and it leaves the same carts.
  -- What the buffers hold from before does not matter.
  pub handle_request-Same :
      (rr : PlaceOrderRr) (b : Rpc) (w : World o)
      → IsStockedWorld o stale fresh w
      → Same Equal
          (SameWorld o stale fresh)
          (handle_request net stale rr b w)
          (place_order (shop o) rr w)
  handle_request-Same rr b w stocked =
      place_order-Same through direct (SameWorld o stale fresh) InCatalog net-Agrees rr (b, [], w) w
        (refl, stocked)
