-- ===== src/Shipping/Costs.antt =====
-- What a quote of apps/boutique/sure/shippingservice/main.c costs, and the buffer of an address.
use Prim.Native.String.{◌++◌, len}
use text.Mathlib.TextPositions.{len-append}
use sure.Prelude.{
  ℕ, zero, suc, ◌+◌, ◌*◌, ◌%◌, ◌^◌, ◌≡◌, ◌≤◌, ◌<◌, inl, inr, refl, sym, ap, subst, ◌∙◌, Bool-cases,
  ◌==◌, if◌then◌else◌, List, [], ◌∷◌, length, take, drop, drop-get_or, get_or, All, arith,
}
use sure.Prelude.Int.{ℤ, pos, ◌+ℤ◌, to_i32, to_i32_lem, pos_part, neg_part, +ℤ_parts, eq_of_parts}
use sure.Money.{Money}
use sure.Cart.{CartItem, zero_item}
use sure.Shipping.{
  Address, GetQuoteRr, count_items, create_quote_from_count, get_quote, base_address,
}

-- The number of pieces in a cart.
abbrev pub total_quantity : List CartItem → ℕ
total_quantity [] = 0
total_quantity (x ∷ xs) = pos_part x.quantity + total_quantity xs

-- No quantity is negative.
abbrev pub IsCounted : CartItem → Type 0
IsCounted x = neg_part x.quantity ≡ 0

add_quantity :
    (acc : ℕ) (q : ℤ)
    → neg_part q ≡ 0
    → acc + pos_part q < 2 ^ 31
    → to_i32 (pos acc +ℤ q) ≡ pos (acc + pos_part q)
add_quantity acc q h k =
    let e : pos acc +ℤ q ≡ pos (acc + pos_part q) =
      eq_of_parts (pos acc +ℤ q) (pos (acc + pos_part q)) (omega (arith, +ℤ_parts (pos acc) q)) in
    ap to_i32 e ∙ to_i32_lem (pos (acc + pos_part q)) k (omega arith)

count_items_lem :
    (left i acc : ℕ) (items : List CartItem)
    → i + left ≤ length items
    → All IsCounted (take left (drop i items))
    → acc + total_quantity (take left (drop i items)) < 2 ^ 31
    → count_items left i items (pos acc) ≡ pos (acc + total_quantity (take left (drop i items)))
unfolding count_items
count_items_lem zero i acc items h c k = ap pos (omega arith)
count_items_lem (suc left) i acc items h c k =
    let q : ℤ = (get_or items i zero_item).quantity in
    let next : drop i items ≡ get_or items i zero_item ∷ drop (suc i) items =
      drop-get_or items i zero_item (omega arith) in
    let rest : List CartItem = drop (suc i) items in
    let c' : IsCounted (get_or items i zero_item) × All IsCounted (take left rest) =
      subst (λ l. All IsCounted (take (suc left) l)) next c in
    let k' : acc + (pos_part q + total_quantity (take left rest)) < 2 ^ 31 =
      subst (λ l. acc + total_quantity (take (suc left) l) < 2 ^ 31) next k in
    ap (count_items left (i + 1) items) (add_quantity acc q c'.0 (omega arith))
    ∙ ap (λ j. count_items left j items (pos (acc + pos_part q))) (omega arith)
    ∙ count_items_lem left (suc i) (acc + pos_part q) items (omega arith) c'.1 (omega arith)
    ∙ ap pos (omega arith)
    ∙ ap (λ l. pos (acc + total_quantity (take (suc left) l))) (sym next)

-- What `GetQuote` writes for a number of pieces.
unfoldable pub quoted : ℤ → Money
quoted count =
    let quote = create_quote_from_count count in
    record {
      currency_code = "USD";
      units = pos quote.dollars;
      nanos = to_i32 (pos (quote.cents * 10000000 % 2 ^ 32));
    }

quoted_lem :
    (n : ℕ)
    → quoted (pos n) ≡ (
        if n == 0
        then record { currency_code = "USD"; units = pos 0; nanos = pos 0 }
        else record { currency_code = "USD"; units = pos 8; nanos = pos 990000000 })
unfolding quoted to_i32
quoted_lem n = elim (Bool-cases (n == 0)) [ inl e ↦ rw (e) refl | inr e ↦ rw (e) refl ]

-- Only the items that are counted matter.
pub count_items-same :
    (left i : ℕ) (xs ys : List CartItem) (count : ℤ)
    → ((j : ℕ) → j < i + left → get_or xs j zero_item ≡ get_or ys j zero_item)
    → count_items left i xs count ≡ count_items left i ys count
unfolding count_items
count_items-same zero i xs ys count same = refl
count_items-same (suc left) i xs ys count same =
    ap (λ item. count_items left (i + 1) xs (to_i32 (count +ℤ item.quantity)))
      (same i (omega arith))
    ∙ count_items-same left (i + 1) xs ys (to_i32 (count +ℤ (get_or ys i zero_item).quantity))
        (λ j h. same j (omega (arith, h)))

-- When the items stand within the array, have quantities that are not negative, and make less than 2 ^ 31
-- pieces together: a quote for at least one piece is 8.99 USD, and one for no piece is 0 USD, whatever
-- the address; nothing else of the message changes.
pub get_quote_lem :
    (rr : GetQuoteRr)
    → rr.num_items ≤ length rr.items
    → All IsCounted (take rr.num_items rr.items)
    → total_quantity (take rr.num_items rr.items) < 2 ^ 31
    → get_quote rr ≡ record rr {
      cost_usd =
          (if total_quantity (take rr.num_items rr.items) == 0
            then record { currency_code = "USD"; units = pos 0; nanos = pos 0 }
            else record { currency_code = "USD"; units = pos 8; nanos = pos 990000000 });
    }
unfolding get_quote quoted
get_quote_lem rr h c k =
    ap (λ count. record rr { cost_usd = quoted count })
      (count_items_lem rr.num_items 0 0 rr.items (omega arith) c (omega arith)
        ∙ ap pos (omega arith))
    ∙ ap (λ m. record rr { cost_usd = m })
        (quoted_lem (total_quantity (take rr.num_items rr.items)))

-- The buffer of 100 bytes in which `ShipOrder` puts the address together has room for it and its end.
pub base_address_bounds :
    (a : Address)
    → len a.street_address < 50
    → len a.city < 15
    → len a.state < 15
    → len (base_address a) < 100
base_address_bounds a h k l =
    let s = a.street_address in
    omega (
      arith,
      len-append ("" ++ s) ", ",
      len-append (("" ++ s) ++ ", ") a.city,
      len-append ((("" ++ s) ++ ", ") ++ a.city) ", ",
      len-append (((("" ++ s) ++ ", ") ++ a.city) ++ ", ") a.state,
      len-append "" s,
    )
