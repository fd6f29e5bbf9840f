-- ===== src/Boutique/FirstItem.antt =====
-- The shop of apps/boutique/sure: the first item that is added to a cart.
use Prim.Native.String.{String}
use sure.Prelude.{ℕ, ◌≡◌, refl, ap, subst, inl, inr, List, ◌∷◌, length, some}
use sure.Prelude.Int.{ℤ, pos, to_i32}
use sure.Prelude.Bytes.{bytes_of, c_string}
use sure.Cart.{Cart, new_cart, add_item_async}
use sure.Cart.History.{add_first, get_cart_async-answer}
use sure.Service.Process.{returns}
use sure.Checkout.Keeps.{Behind}
use sure.Frontend.{parse_http_request}
use sure.Frontend.Scan.{decimal}
use sure.Frontend.Words.{IsWord, IsNumber}
use sure.Frontend.Items.{item_body, scan_item_lem}
use sure.Frontend.Calls.{perform}
use sure.Frontend.Pages.{http_ok, user_id, add_to_cart_handler}
use sure.Frontend.Routes.{route, handle_request}
use sure.Boutique.{Setting, World, blank_cart, cart_of, backend, visit}
use sure.Boutique.Visits.{Exec-cases, HasCart, visit-HasCart}

module _ (o : Setting) where
  open o.cart_map use {Store, empty, insert, find, find-empty}

  pub cart_of-HasCart :
      (user : String) (cart : Cart) (w : World o) → HasCart o user cart w → cart_of o user w ≡ cart
  cart_of-HasCart user cart (carts, n) h =
      ap (λ r. r.res)
        (get_cart_async-answer o.cart_map (record { req = user; res = blank_cart }) carts
          (some cart) h)

  -- What `POST /cart` with such a body does.
  post_cart :
      (stale currency bytes id number : List ℕ) (carts : Store) (n : ℕ)
      → parse_http_request bytes ≡ some (bytes_of "POST", bytes_of "/cart", item_body id number)
      → IsWord id
      → length id ≡ 10
      → IsNumber number
      → perform (backend o) (handle_request stale currency bytes) (carts, n)
        ≡ returns (
          (http_ok, currency),
          (
            add_item_async o.cart_map user_id (c_string id) (to_i32 (pos (decimal 0 number))) carts,
            n,
          ),
        )
  unfolding handle_request route add_to_cart_handler perform
  post_cart stale currency bytes id number carts n parsed word ten digits =
      rw
        (
          parsed,
          scan_item_lem id number word ten digits,
          handle_request,
          add_to_cart_handler,
          perform,
        )
        refl

  -- In a shop with no carts, behind a `POST /cart` with a product id of ten characters and a number, and
  -- behind whatever requests follow it, further items and emptying the cart included, the cart holds that
  -- one item in that quantity, if no service exits.
  pub visit-first_item :
      (stale currency bytes id number : List ℕ) (more : List (List ℕ)) (n : ℕ)
      → parse_http_request bytes ≡ some (bytes_of "POST", bytes_of "/cart", item_body id number)
      → IsWord id
      → length id ≡ 10
      → IsNumber number
      → Behind
          (λ w.
            cart_of o user_id w ≡ new_cart user_id (c_string id) (to_i32 (pos (decimal 0 number))))
          (visit o stale currency (bytes ∷ more) (empty, n))
  unfolding visit
  visit-first_item stale currency bytes id number more n parsed word ten digits =
      let quantity : ℤ = to_i32 (pos (decimal 0 number)) in
      let cart : Cart = new_cart user_id (c_string id) quantity in
      let carts : Store = add_item_async o.cart_map user_id (c_string id) quantity empty in
      let has : HasCart o user_id cart (carts, n) =
        add_first o.cart_map user_id (c_string id) quantity empty (find-empty user_id) in
      let later : Behind (HasCart o user_id cart) (visit o stale currency more (carts, n)) =
        visit-HasCart o user_id cart stale currency more (carts, n) has in
      elim (Exec-cases (visit o stale currency more (carts, n))) [
        | inl f ↦
            rw (post_cart stale currency bytes id number empty n parsed word ten digits, f, visit)
              tt
        | inr (((responses, currency'), w), f) ↦
            rw (post_cart stale currency bytes id number empty n parsed word ten digits, f, visit)
              (cart_of-HasCart user_id cart w (subst (Behind (HasCart o user_id cart)) f later))
      ]
