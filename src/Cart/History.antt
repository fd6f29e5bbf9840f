-- ===== src/Cart/History.antt =====
-- apps/boutique/sure/cartservice/main.c: what a cart holds behind any requests.
use Prim.Native.String.{String}
use sure.Prelude.{
  ◌≡◌, ◌≢◌, inl, inr, refl, sym, ap, subst, ◌∙◌, Bool-cases, if◌then◌else◌, List, [], ◌∷◌, Option,
  none, some, Option-cases, none-ne-some,
}
use sure.Prelude.Texts.{same_text, same_text→eq, different_text→ne}
use sure.Cart.{
  Cart, GetCartRr, CartRequest, cart_add_item, cart_get_cart, cart_empty_cart, unknown, new_cart,
  add_item_async, get_cart_async, empty_cart_async, handle_request, handle_requests,
}
use sure.Cart.CMap.{CMap}

-- The cart that the first of the requests to add an item for a user makes.
abbrev pub first_cart : String → List CartRequest → Option Cart
first_cart user [] = none
first_cart user (cart_add_item r ∷ rs) =
    let rest = first_cart user rs in
    if same_text r.user_id user
    then some (new_cart r.user_id r.item.product_id r.item.quantity)
    else rest
first_cart user (cart_get_cart rr ∷ rs) = first_cart user rs
first_cart user (cart_empty_cart u ∷ rs) = first_cart user rs
first_cart user (unknown ∷ rs) = first_cart user rs

-- The answer for a cart that may be there.
abbrev pub answer : GetCartRr → Option Cart → GetCartRr
answer rr none = record rr { res = record rr.res { num_items = 0 } }
answer rr (some cart) = record rr { res = cart }

module _ (m : CMap Cart) where
  open m use {Store, empty, insert, find, find-empty, find-insert, find-insert_other}

  pub add_found :
      (user u p : String) (q : _) (s : Store) (cart : Cart)
      → find user s ≡ some cart
      → find user (add_item_async m u p q s) ≡ some cart
  unfolding add_item_async
  add_found user u p q s cart h = elim (Option-cases (find u s)) [
    | inl e ↦
        rw (e, add_item_async)
          (find-insert_other user u (new_cart u p q) s
              (λ same. none-ne-some (sym e ∙ ap (λ k. find k s) (sym same) ∙ h))
            ∙ h)
    | inr (c, e) ↦ rw (e, add_item_async) h
  ]

  pub empty_cart_async_lem : (u : String) (s : Store) → empty_cart_async m u s ≡ s
  unfolding empty_cart_async
  empty_cart_async_lem u s = elim (Option-cases (find u s)) [
    | inl e ↦ rw (e, empty_cart_async) refl
    | inr (c, e) ↦ rw (e, empty_cart_async) refl
  ]

  add_other :
      (user u p : String) (q : _) (s : Store)
      → u ≢ user
      → find user s ≡ none
      → find user (add_item_async m u p q s) ≡ none
  unfolding add_item_async
  add_other user u p q s other h = elim (Option-cases (find u s)) [
    | inl e ↦
        rw (e, add_item_async)
          (find-insert_other user u (new_cart u p q) s (λ same. other (sym same)) ∙ h)
    | inr (c, e) ↦ rw (e, add_item_async) h
  ]

  pub add_first :
      (u p : String) (q : _) (s : Store)
      → find u s ≡ none
      → find u (add_item_async m u p q s) ≡ some (new_cart u p q)
  unfolding add_item_async
  add_first u p q s h = rw (h, add_item_async) (find-insert u (new_cart u p q) s h)

  handle_requests-found :
      (user : String) (rs : List CartRequest) (s : Store) (cart : Cart)
      → find user s ≡ some cart
      → find user (handle_requests m rs s) ≡ some cart
  unfolding handle_requests handle_request
  handle_requests-found user [] s cart h = h
  handle_requests-found user (cart_add_item r ∷ rs) s cart h =
      handle_requests-found user rs _ cart
        (add_found user r.user_id r.item.product_id r.item.quantity s cart h)
  handle_requests-found user (cart_get_cart rr ∷ rs) s cart h =
      handle_requests-found user rs s cart h
  handle_requests-found user (cart_empty_cart u ∷ rs) s cart h =
      handle_requests-found user rs _ cart (ap (find user) (empty_cart_async_lem u s) ∙ h)
  handle_requests-found user (unknown ∷ rs) s cart h = handle_requests-found user rs s cart h

  handle_requests-first :
      (user : String) (rs : List CartRequest) (s : Store)
      → find user s ≡ none
      → find user (handle_requests m rs s) ≡ first_cart user rs
  unfolding handle_requests handle_request
  handle_requests-first user [] s h = h
  handle_requests-first user (cart_add_item r ∷ rs) s h =
      elim (Bool-cases (same_text r.user_id user)) [
        | inl e ↦ rw (e) (
            handle_requests-found user rs _ _ (
              subst
                (λ k.
                  find k (add_item_async m r.user_id r.item.product_id r.item.quantity s)
                  ≡ some (new_cart r.user_id r.item.product_id r.item.quantity))
                (same_text→eq r.user_id user e)
                (add_first r.user_id r.item.product_id r.item.quantity s
                  (ap (λ k. find k s) (same_text→eq r.user_id user e) ∙ h))))
        | inr e ↦ rw (e) (
            handle_requests-first user rs _ (
              add_other user r.user_id r.item.product_id r.item.quantity s
                (different_text→ne r.user_id user e) h))
      ]
  handle_requests-first user (cart_get_cart rr ∷ rs) s h = handle_requests-first user rs s h
  handle_requests-first user (cart_empty_cart u ∷ rs) s h =
      handle_requests-first user rs _ (ap (find user) (empty_cart_async_lem u s) ∙ h)
  handle_requests-first user (unknown ∷ rs) s h = handle_requests-first user rs s h

  pub get_cart_async-answer :
      (rr : GetCartRr) (s : Store) (found : Option Cart)
      → find rr.req s ≡ found
      → get_cart_async m rr s ≡ answer rr found
  unfolding get_cart_async
  get_cart_async-answer rr s none e = rw (e, get_cart_async) refl
  get_cart_async-answer rr s (some cart) e = rw (e, get_cart_async) refl

  -- Behind any requests to a service that began with no carts, `GetCart` answers with the cart that the
  -- first `AddItem` for the user made: one item, in the quantity of that request. What was added later,
  -- and `EmptyCart`, do not show. A user for whom nothing was added has 0 items.
  pub get_cart_async-handle_requests :
      (rs : List CartRequest) (rr : GetCartRr)
      → get_cart_async m rr (handle_requests m rs empty) ≡ answer rr (first_cart rr.req rs)
  get_cart_async-handle_requests rs rr =
      get_cart_async-answer rr (handle_requests m rs empty) (first_cart rr.req rs)
        (handle_requests-first rr.req rs empty (find-empty rr.req))
