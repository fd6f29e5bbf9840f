-- ===== src/Checkout/Agrees.antt =====
-- apps/boutique/sure/checkoutservice/main.c: what `PlaceOrder` comes to over services that answer the
-- same.
use Prim.Native.String.{String}
use sure.Prelude.{
  ℕ, zero, suc, ◌+◌, ◌≤◌, ◌<◌, ◌≡◌, refl, ap, subst, List, get_or, set, length, Option, none, some,
  arith,
}
use sure.Money.{Money}
use sure.Cart.{Cart, CartItem, zero_item}
use sure.Payment.{CreditCardInfo}
use sure.Shipping.{Address}
use sure.Service.Process.{Exec, returns, exits}
use sure.Checkout.Services.{OrderItem, OrderResult, Shop}
use sure.Checkout.{
  PlaceOrderRr, bind, with_buffer, order_total, prep_loop, prep_order_items, prepare_order,
  place_order,
}

-- Both exit, or both return, with related answers and in related worlds.
abbrev pub Same :
    {V W A B : Type 0} → (A → B → Type 0) → (V → W → Type 0) → Exec (A × V) → Exec (B × W) → Type 0
Same Q R exits exits = Unit
Same Q R exits (returns bw) = ⊥
Same Q R (returns av) exits = ⊥
Same Q R (returns (a, v)) (returns (b, w)) = Q a b × R v w

abbrev pub SameBuffer : {V W : Type 0} → (V → W → Type 0) → Option V → Option W → Type 0
SameBuffer R none none = Unit
SameBuffer R none (some w) = ⊥
SameBuffer R (some v) none = ⊥
SameBuffer R (some v) (some w) = R v w

abbrev pub Equal : {A : Type 0} → A → A → Type 0
Equal a b = a ≡ b

abbrev pub Any : {A : Type 0} → A → A → Type 0
Any a b = Unit {0}

-- The carts have the same items, which are as `Fine` says.
abbrev pub SameCart : (CartItem → Type 0) → Cart → Cart → Type 0
SameCart Fine c d =
    (c.num_items ≡ d.num_items)
    × (c.num_items ≤ length c.items)
    × ((i : ℕ)
        → i < c.num_items
        → (get_or c.items i zero_item ≡ get_or d.items i zero_item)
          × Fine (get_or c.items i zero_item))

module _ (s t : Shop) (R : s.World → t.World → Type 0) (Fine : CartItem → Type 0) where
  -- The services answer the same, but for the transaction id.
  pub record Agrees : Type 0 where
    pub by_get_buffer :
        (v : s.World) (w : t.World) → R v w → SameBuffer R (s.get_buffer v) (t.get_buffer w)
    pub by_put_buffer : (v : s.World) (w : t.World) → R v w → R (s.put_buffer v) (t.put_buffer w)
    pub by_get_cart :
        (user : String) (v : s.World) (w : t.World)
        → R v w
        → Same (SameCart Fine) R (s.get_cart user v) (t.get_cart user w)
    pub by_get_product :
        (item : CartItem) (v : s.World) (w : t.World)
        → Fine item
        → R v w
        → Same Equal R (s.get_product item.product_id v) (t.get_product item.product_id w)
    pub by_convert :
        (price : Money) (code : String) (v : s.World) (w : t.World)
        → R v w
        → Same Equal R (s.convert price code v) (t.convert price code w)
    pub by_get_quote :
        (a : Address) (c d : Cart) (v : s.World) (w : t.World)
        → SameCart Fine c d
        → R v w
        → Same Equal R (s.get_quote a c v) (t.get_quote a d w)
    pub by_charge_card :
        (amount : Money) (card : CreditCardInfo) (v : s.World) (w : t.World)
        → R v w
        → Same Any R (s.charge_card amount card v) (t.charge_card amount card w)
    pub by_ship_order :
        (a : Address) (n : ℕ) (items : List OrderItem) (v : s.World) (w : t.World)
        → R v w
        → Same Equal R (s.ship_order a n items v) (t.ship_order a n items w)
    pub by_empty_cart :
        (user : String) (v : s.World) (w : t.World)
        → R v w
        → Same Any R (s.empty_cart user v) (t.empty_cart user w)
    pub by_confirm :
        (email : String) (order : OrderResult) (v : s.World) (w : t.World)
        → R v w
        → Same Any R (s.confirm email order v) (t.confirm email order w)

  bind-Same :
      {A B : Type 0} (Q : A → A → Type 0) (P : B → B → Type 0) (m : Exec (A × s.World))
      (m' : Exec (A × t.World)) (k : A → s.World → Exec (B × s.World))
      (k' : A → t.World → Exec (B × t.World))
      → Same Q R m m'
      → ((a a' : A) (v : s.World) (w : t.World) → Q a a' → R v w → Same P R (k a v) (k' a' w))
      → Same P R (bind s m k) (bind t m' k')
  bind-Same Q P exits exits k k' h next = tt
  bind-Same Q P exits (returns bw) k k' h next = absurd h
  bind-Same Q P (returns av) exits k k' h next = absurd h
  bind-Same Q P (returns (a, v)) (returns (a', w)) k k' (q, r) next = next a a' v w q r

  bind-Equal :
      {A B : Type 0} (P : B → B → Type 0) (m : Exec (A × s.World)) (m' : Exec (A × t.World))
      (k : A → s.World → Exec (B × s.World)) (k' : A → t.World → Exec (B × t.World))
      → Same Equal R m m'
      → ((a : A) (v : s.World) (w : t.World) → R v w → Same P R (k a v) (k' a w))
      → Same P R (bind s m k) (bind t m' k')
  bind-Equal P m m' k k' h next =
      bind-Same Equal P m m' k k' h
        (λ a a' v w q r. subst (λ x. Same P R (k a v) (k' x w)) q (next a v w r))

  buffer-Same :
      {B : Type 0} (P : B → B → Type 0) (m : Option s.World) (m' : Option t.World)
      (k : s.World → Exec (B × s.World)) (k' : t.World → Exec (B × t.World))
      → SameBuffer R m m'
      → ((v : s.World) (w : t.World) → R v w → Same P R (k v) (k' w))
      → Same P R (with_buffer s m k) (with_buffer t m' k')
  buffer-Same P none none k k' h next = tt
  buffer-Same P none (some w) k k' h next = absurd h
  buffer-Same P (some v) none k k' h next = absurd h
  buffer-Same P (some v) (some w) k k' h next = next v w h

  module _ (agrees : Agrees) where
    prep_loop-Same :
        (left i : ℕ) (c d : Cart) (currency : String) (items : List OrderItem) (v : s.World)
        (w : t.World)
        → i + left ≤ c.num_items
        → SameCart Fine c d
        → R v w
        → Same Equal R
            (prep_loop s left i c currency items v)
            (prep_loop t left i d currency items w)
    unfolding prep_loop
    prep_loop-Same zero i c d currency items v w bound same r = (refl, r)
    prep_loop-Same (suc left) i c d currency items v w bound same r =
        let item : CartItem = get_or c.items i zero_item in
        let (e, fine) = same.2 i (omega (arith, bound)) in
        subst
          (λ x. Same Equal R (prep_loop s (suc left) i c currency items v) (
            bind t (t.get_product x.product_id w) (λ price w1.
              bind t (t.convert price currency w1) (λ cost w2.
                prep_loop t left (i + 1) d currency (set items i (record { item = x; cost = cost }))
                  w2))))
          e
          (bind-Equal Equal (s.get_product item.product_id v) (t.get_product item.product_id w) _ _
            (agrees.by_get_product item v w fine r)
            (λ price v1 w1 r1.
              bind-Equal Equal (s.convert price currency v1) (t.convert price currency w1) _ _
                (agrees.by_convert price currency v1 w1 r1)
                (λ cost v2 w2 r2.
                  prep_loop-Same left (i + 1) c d currency _ v2 w2 (omega (arith, bound)) same r2)))

    prep_order_items-Same :
        (c d : Cart) (currency : String) (items : List OrderItem) (v : s.World) (w : t.World)
        → SameCart Fine c d
        → R v w
        → Same Equal R
            (prep_order_items s c currency items v)
            (prep_order_items t d currency items w)
    unfolding prep_order_items
    prep_order_items-Same c d currency items v w same r =
        buffer-Same Equal (s.get_buffer v) (t.get_buffer w) _ _ (agrees.by_get_buffer v w r)
          (λ v1 w1 r1.
            bind-Equal Equal (prep_loop s c.num_items 0 c currency items v1)
              (prep_loop t d.num_items 0 d currency items w1) _ _
              (subst
                (λ n.
                  Same Equal R (prep_loop s c.num_items 0 c currency items v1)
                    (prep_loop t n 0 d currency items w1))
                same.0
                (prep_loop-Same c.num_items 0 c d currency items v1 w1 (omega arith) same r1))
              (λ items' v2 w2 r2. (refl, agrees.by_put_buffer v2 w2 r2)))

    prepare_order-Same :
        (rr : PlaceOrderRr) (v : s.World) (w : t.World)
        → R v w
        → Same Equal R (prepare_order s rr v) (prepare_order t rr w)
    unfolding prepare_order
    prepare_order-Same rr v w r =
        buffer-Same Equal (s.get_buffer v) (t.get_buffer w) _ _ (agrees.by_get_buffer v w r)
          (λ v1 w1 r1.
            bind-Same (SameCart Fine) Equal (s.get_cart rr.user_id v1) (t.get_cart rr.user_id w1) _
              _ (agrees.by_get_cart rr.user_id v1 w1 r1)
              (λ c d v2 w2 same r2.
                bind-Equal Equal (prep_order_items s c rr.user_currency rr.order.items v2)
                  (prep_order_items t d rr.user_currency rr.order.items w2) _ _
                  (prep_order_items-Same c d rr.user_currency rr.order.items v2 w2 same r2)
                  (λ items v3 w3 r3.
                    buffer-Same Equal (s.get_buffer v3) (t.get_buffer w3) _ _
                      (agrees.by_get_buffer v3 w3 r3)
                      (λ v4 w4 r4.
                        bind-Equal Equal (s.get_quote rr.address c v4) (t.get_quote rr.address d w4)
                          _ _ (agrees.by_get_quote rr.address c d v4 w4 same r4)
                          (λ usd v5 w5 r5.
                            bind-Equal Equal (s.convert usd rr.user_currency v5)
                              (t.convert usd rr.user_currency w5) _ _
                              (agrees.by_convert usd rr.user_currency v5 w5 r5)
                              (λ cost v6 w6 r6. (
                                ap (λ n. (items, n, cost)) same.0,
                                agrees.by_put_buffer (s.put_buffer v6) (t.put_buffer w6)
                                    (agrees.by_put_buffer v6 w6 r6),
                              )))))))

    -- Over services that answer the same, but for the transaction id, `PlaceOrder` exits in both or comes
    -- to the same response in both.
    pub place_order-Same :
        (rr : PlaceOrderRr) (v : s.World) (w : t.World)
        → R v w
        → Same Equal R (place_order s rr v) (place_order t rr w)
    unfolding place_order
    place_order-Same rr v w r =
        buffer-Same Equal (s.get_buffer v) (t.get_buffer w) _ _ (agrees.by_get_buffer v w r)
          (λ v1 w1 r1.
            bind-Equal Equal (prepare_order s rr v1) (prepare_order t rr w1) _ _
              (prepare_order-Same rr v1 w1 r1)
              (λ (items, n, cost) v2 w2 r2.
                let total = order_total rr.user_currency cost n items in
                bind-Same Any Equal (s.charge_card total rr.credit_card v2)
                  (t.charge_card total rr.credit_card w2) _ _
                  (agrees.by_charge_card total rr.credit_card v2 w2 r2)
                  (λ _ _ v3 w3 _ r3.
                    bind-Equal Equal (s.ship_order rr.address n items v3)
                      (t.ship_order rr.address n items w3) _ _
                      (agrees.by_ship_order rr.address n items v3 w3 r3)
                      (λ tracking v4 w4 r4.
                        bind-Same Any Equal (s.empty_cart rr.user_id v4)
                          (t.empty_cart rr.user_id w4) _ _
                          (agrees.by_empty_cart rr.user_id v4 w4 r4)
                          (λ _ _ v5 w5 _ r5.
                            bind-Same Any Equal (s.confirm rr.email _ v5) (t.confirm rr.email _ w5)
                              _ _ (agrees.by_confirm rr.email _ v5 w5 r5)
                              (λ _ _ v6 w6 _ r6. (refl, agrees.by_put_buffer v6 w6 r6)))))))
