-- ===== src/Boutique/Wires/Calls.antt =====
-- The shop of apps/boutique/sure: each call through a buffer of the checkout service, and without one.
use Prim.Native.String.{String}
use sure.Prelude.{
  ℕ, ◌≤◌, ◌<◌, ◌≡◌, refl, sym, ap, subst, ◌∙◌, List, get_or, length, none, some, arith, inl, inr,
  Option-cases,
}
use sure.Money.{Money}
use sure.Cart.{Cart, CartItem, CartRequest, zero_item, get_cart_async, empty_cart_async}
use sure.Cart as CartService
use sure.Catalog.{find_product, get_product}
use sure.Catalog.Table.{Product, products}
use sure.Currency as CurrencyService
use sure.Currency.{CurrencyRequest, CurrencyConversionRr, convert, get_currency_data}
use sure.Shipping.{Address, get_quote, ship_order, count_items}
use sure.Shipping.Costs.{quoted, count_items-same}
use sure.Prelude.Int.{pos}
use sure.Payment.{CreditCardInfo}
use sure.Service.Process.{Exec, returns, exits}
use sure.Checkout.{zero_money}
use sure.Checkout.Services.{OrderItem, OrderResult, Shop}
use sure.Checkout.Rpc.{Rpc, Stale, as_conversion, as_get_product, as_quote}
use sure.Checkout.Marshal.{answered, in_front, Net, Buffers, copy_items, shop_of}
use sure.Checkout.Agrees.{Same, SameCart, Equal, Any}
use sure.Cart.History.{get_cart_async-answer, empty_cart_async_lem}
use sure.Boutique.{Setting, World, blank_cart, product_of, priced, shop}
use sure.Boutique.Wires.Answers.{
  copied_item, get_product-found, convert-res, converted, converted_lem,
}
use sure.Boutique.Total.{conversion}
use sure.Boutique.FirstItem.{cart_of-HasCart}
use sure.Boutique.Wires.{currency_answer, wires}

-- The service has such a product.
abbrev pub InCatalog : CartItem → Type 0
InCatalog item = (p : Product) × (find_product item.product_id products ≡ some p)

abbrev pub IsStocked : Cart → Type 0
IsStocked cart =
    (cart.num_items ≤ length cart.items)
    × ((i : ℕ) → i < cart.num_items → InCatalog (get_or cart.items i zero_item))

module _ (o : Setting) (stale : Stale) (fresh : World o → Rpc) where
  open o.cart_map use {find}

  abbrev net : Net
  net = wires o stale fresh

  -- The calls through the buffers, and those with fresh messages.
  abbrev through : Shop
  through = shop_of net stale

  abbrev direct : Shop
  direct = shop o

  -- The carts have products of the catalog.
  abbrev pub IsStockedWorld : World o → Type 0
  IsStockedWorld (carts, n) =
      (user : String) (cart : Cart) → find user carts ≡ some cart → IsStocked cart

  -- The same world, whatever stands in the buffers.
  abbrev pub SameWorld : Buffers net stale → World o → Type 0
  SameWorld (b, bs, v) w = (v ≡ w) × IsStockedWorld v

  pub get_cart-Same :
      (user : String) (b : Rpc) (bs : List Rpc) (w : World o)
      → IsStockedWorld w
      → Same
          (SameCart InCatalog)
          SameWorld
          (through.get_cart user (b, bs, w))
          (direct.get_cart user w)
  unfolding CartService.handle_request get_cart_async
  get_cart-Same user b bs (carts, n) stocked = elim (Option-cases (find user carts)) [
    | inl e ↦
        rw (e, get_cart_async)
          (
            (
              sym (
                  ap (λ rr. rr.res.num_items)
                    (get_cart_async-answer o.cart_map (record { req = user; res = blank_cart })
                      carts none e)),
              omega arith,
              λ i h. absurd (omega (arith, h)),
            ),
            (refl, stocked),
          )
    | inr (cart, e) ↦
        let f = sym (cart_of-HasCart o user cart (carts, n) e) in
        let (bound, known) = stocked user cart e in
        rw (e, get_cart_async)
          (
            (
              ap (λ c. c.num_items) f,
              bound,
              λ i h. (ap (λ c. get_or c.items i zero_item) f, known i h),
            ),
            (refl, stocked),
          )
  ]

  pub get_product-Same :
      (item : CartItem) (b : Rpc) (bs : List Rpc) (w : World o)
      → InCatalog item
      → IsStockedWorld w
      → Same Equal SameWorld
          (through.get_product item.product_id (b, bs, w))
          (direct.get_product item.product_id w)
  get_product-Same item b bs w (p, e) stocked =
      let there : (get_product
            (record { req = item.product_id; res = (as_get_product stale b).res })).res
          ≡ p =
        get_product-found _ p e in
      let here : (product_of o item.product_id) ≡ p = get_product-found _ p e in
      (ap (λ x. x.price_usd) (there ∙ sym here), (refl, stocked))

  pub converted-Same :
      (x : Exec CurrencyConversionRr) (bs : List Rpc) (w : World o)
      → IsStockedWorld w
      → Same Equal SameWorld
          (in_front net stale bs (
            answered net stale
              (λ b. (as_conversion stale b).res)
              (currency_answer o stale fresh (converted o x) w)))
          (priced o x w)
  converted-Same exits bs w stocked = tt
  converted-Same (returns rr) bs w stocked = (refl, (refl, stocked))

  pub convert-Same :
      (price : Money) (code : String) (b : Rpc) (bs : List Rpc) (w : World o)
      → IsStockedWorld w
      → Same Equal SameWorld (through.convert price code (b, bs, w)) (direct.convert price code w)
  convert-Same price code b bs w stocked =
      let stale_rr : CurrencyConversionRr = record {
        from = price;
        to_code = code;
        res = (as_conversion stale b).res;
      } in
      let e : CurrencyService.handle_request o.doubles o.rate_map
            (CurrencyService.currency_convert stale_rr) (get_currency_data o.doubles o.rate_map)
          ≡ converted o (conversion o price code) =
        converted_lem o stale_rr
        ∙ ap (converted o) (convert-res o price code stale_rr.res zero_money) in
      subst
        (λ x.
          Same Equal SameWorld
            (in_front net stale bs (
              answered net stale (λ b'. (as_conversion stale b').res)
                (currency_answer o stale fresh x w)))
            (priced o (conversion o price code) w))
        (sym e) (converted-Same (conversion o price code) bs w stocked)

  pub charge_card-Same :
      (amount : Money) (card : CreditCardInfo) (b : Rpc) (bs : List Rpc) (w : World o)
      → IsStockedWorld w
      → Same Any SameWorld
          (through.charge_card amount card (b, bs, w))
          (direct.charge_card amount card w)
  charge_card-Same amount card b bs w stocked = (tt, (refl, stocked))

  pub ship_order-Same :
      (a : Address) (n : ℕ) (items : List OrderItem) (b : Rpc) (bs : List Rpc) (w : World o)
      → IsStockedWorld w
      → Same Equal SameWorld
          (through.ship_order a n items (b, bs, w))
          (direct.ship_order a n items w)
  unfolding ship_order
  ship_order-Same a n items b bs w stocked = (refl, (refl, stocked))

  pub empty_cart-Same :
      (user : String) (b : Rpc) (bs : List Rpc) (w : World o)
      → IsStockedWorld w
      → Same Any SameWorld (through.empty_cart user (b, bs, w)) (direct.empty_cart user w)
  unfolding CartService.handle_request
  empty_cart-Same user b bs (carts, n) stocked = (
    tt,
    (
      refl,
      λ u cart h.
          stocked u cart (sym (ap (find u) (empty_cart_async_lem o.cart_map user carts)) ∙ h),
    ),
  )

  pub confirm-Same :
      (email : String) (order : OrderResult) (b : Rpc) (bs : List Rpc) (w : World o)
      → IsStockedWorld w
      → Same Any SameWorld (through.confirm email order (b, bs, w)) (direct.confirm email order w)
  confirm-Same email order b bs w stocked = (tt, (refl, stocked))

  pub get_quote-Same :
      (a : Address) (c d : Cart) (b : Rpc) (bs : List Rpc) (w : World o)
      → SameCart InCatalog c d
      → IsStockedWorld w
      → Same Equal SameWorld (through.get_quote a c (b, bs, w)) (direct.get_quote a d w)
  unfolding get_quote quoted
  get_quote-Same a c d b bs w (e, bound, same) stocked =
      let copied : List CartItem = copy_items c.num_items c.items (as_quote stale b).items in
      let count : count_items c.num_items 0 copied (pos 0)
          ≡ count_items d.num_items 0 d.items (pos 0) =
        count_items-same c.num_items 0 copied d.items (pos 0) (λ j h.
          copied_item c.num_items c.items (as_quote stale b).items j bound (omega (arith, h))
          ∙ (same j (omega (arith, h))).0)
        ∙ ap (λ n. count_items n 0 d.items (pos 0)) e in
      (ap quoted count, (refl, stocked))
