-- ===== src/Cart.antt =====
-- apps/boutique/sure/cartservice/main.c: the carts of the users.
pub mod CMap
pub mod ListMap
pub mod History
mod Tests
use Prim.Native.String.{String}
use sure.Prelude.{
  ℕ, zero, suc, ◌+◌, Bool, ◌==◌, if◌then◌else◌, List, [], ◌∷◌, get_or, set, replicate, Option, none,
  some,
}
use sure.Prelude.Int.{ℤ, pos, ◌+ℤ◌, to_i32}
use sure.Prelude.Texts.{same_text}

-- `struct _cartItem`, `struct _cart` and the requests of `message.h`.
pub record CartItem : Type 0 where
  pub product_id : String
  pub quantity : ℤ

pub record Cart : Type 0 where
  pub user_id : String
  pub num_items : ℕ
  pub items : List CartItem

pub record AddItemRequest : Type 0 where
  pub user_id : String
  pub item : CartItem

pub record GetCartRr : Type 0 where
  pub req : String
  pub res : Cart

-- The commands that `handle_request` tells apart, with what `rpc->rr` holds.
pub data CartRequest : Type 0 where
  cart_add_item : AddItemRequest → CartRequest
  cart_get_cart : GetCartRr → CartRequest
  cart_empty_cart : String → CartRequest
  unknown : CartRequest

abbrev pub zero_item : CartItem
zero_item = record { product_id = ""; quantity = pos 0 }

-- `newCart`: what has no initialiser is zero.
abbrev pub new_cart : String → String → ℤ → Cart
new_cart user_id product_id quantity = record {
  user_id = user_id;
  num_items = 1;
  items = record { product_id = product_id; quantity = quantity } ∷ replicate 9 zero_item;
}

-- The loop over the items of a cart that was found: `Quantity++` or `cnt++`.
unfoldable pub count_others : String → ℕ → ℕ → List CartItem → ℕ → List CartItem × ℕ
count_others product_id zero i items cnt = (items, cnt)
count_others product_id (suc left) i items cnt =
    let item = get_or items i zero_item in
    if same_text item.product_id product_id
    then count_others product_id left (i + 1)
        (set items i (record item { quantity = to_i32 (item.quantity +ℤ pos 1) })) cnt
    else count_others product_id left (i + 1) items (cnt + 1)

-- What `AddItemAsync` writes to the cart that it found. The new item goes behind the new `num_items`.
unfoldable pub update_copy : Cart → String → ℤ → Cart
unfolding count_others
update_copy cart product_id quantity =
    let (items, cnt) = count_others product_id cart.num_items 0 cart.items 0 in
    if cnt == cart.num_items
    then record cart {
      num_items = cart.num_items + 1;
      items =
          set items (cart.num_items + 1) (record { product_id = product_id; quantity = quantity });
    }
    else record cart { items = items }

-- The loop of `EmptyCartAsync` over a cart that it found.
unfoldable pub clean_items : ℕ → ℕ → List CartItem → List CartItem
clean_items zero i items = items
clean_items (suc left) i items = clean_items left (i + 1) (set items i zero_item)

module _ (m : CMap.CMap Cart) where
  open m use {Store, empty, insert, find}

  -- `free(cart)`: the copy is gone and the map is as it was.
  abbrev pub free : Cart → Store → Store
  free copy s = s

  -- `AddItemAsync`
  unfoldable pub add_item_async : String → String → ℤ → Store → Store
  unfolding update_copy
  add_item_async user_id product_id quantity s = elim (find user_id s) [
    | none ↦ insert user_id (new_cart user_id product_id quantity) s
    | some cart ↦ free (update_copy cart product_id quantity) s
  ]

  -- `GetCartAsync`
  unfoldable pub get_cart_async : GetCartRr → Store → GetCartRr
  get_cart_async rr s = elim (find rr.req s) [
    | none ↦ record rr { res = record rr.res { num_items = 0 } }
    | some cart ↦ record rr { res = cart }
  ]

  -- `EmptyCartAsync`
  unfoldable pub empty_cart_async : String → Store → Store
  unfolding clean_items
  empty_cart_async user_id s = elim (find user_id s) [
    | none ↦ s
    | some cart ↦ free (record cart { items = clean_items cart.num_items 0 cart.items }) s
  ]

  -- `handle_request`: the request with its response, and the carts.
  unfoldable pub handle_request : CartRequest → Store → CartRequest × Store
  unfolding add_item_async get_cart_async empty_cart_async
  handle_request (cart_add_item r) s =
      (cart_add_item r, add_item_async r.user_id r.item.product_id r.item.quantity s)
  handle_request (cart_get_cart rr) s = (cart_get_cart (get_cart_async rr s), s)
  handle_request (cart_empty_cart user_id) s = (cart_empty_cart user_id, empty_cart_async user_id s)
  handle_request unknown s = (unknown, s)

  -- The requests that the service gets, in their order, and the carts behind them.
  unfoldable pub handle_requests : List CartRequest → Store → Store
  unfolding handle_request
  handle_requests [] s = s
  handle_requests (r ∷ rs) s = let (_, s') = handle_request r s in handle_requests rs s'
