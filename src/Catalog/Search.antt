-- ===== src/Catalog/Search.antt =====
-- `SearchProducts` of apps/boutique/sure/productcatalogservice/main.c.
use Prim.Native.String.{String}
use sure.Prelude.{
  ◌≡◌, ◌≤◌, inl, inr, refl, sym, ap, ap₂, ◌∙◌, Bool-cases, if◌then◌else◌, List, [], ◌∷◌, ◌++◌,
  append_assoc, append-nil, length, length-append, set-append, take, drop, subst,
  take-length_append, drop-length_append, arith,
}
use sure.Catalog.Table.{Product, products}
use sure.Catalog.{Products, SearchProductsRr, is_hit, add_result, search_loop, search_products}

-- The products whose name or description has the query in it, in their order.
abbrev pub hits : String → List Product → List Product
hits query [] = []
hits query (p ∷ ps) = if is_hit query p then p ∷ hits query ps else hits query ps

length-hits : (query : String) (ps : List Product) → length (hits query ps) ≤ length ps
length-hits query [] = omega arith
length-hits query (p ∷ ps) = elim (Bool-cases (is_hit query p)) [
  | inl e ↦ rw (e) (omega (arith, length-hits query ps))
  | inr e ↦ rw (e) (omega (arith, length-hits query ps))
]

-- A response with `found` in front of places that are not used yet.
abbrev response : List Product → List Product → Products
response found rest = record { num_products = length found; listed = found ++ rest }

add_result_lem :
    (found : List Product) (x p : Product) (rest : List Product)
    → add_result (response found (x ∷ rest)) p ≡ response (found ++ p ∷ []) rest
add_result_lem found x p rest =
    ap₂ (λ n ps. record { num_products = n; listed = ps }) (sym (length-append found (p ∷ [])))
      (set-append found x p rest ∙ sym (append_assoc found (p ∷ []) rest))

search_loop_lem :
    (query : String) (ps found rest : List Product)
    → length ps ≤ length rest
    → search_loop query ps (response found rest)
      ≡ response (found ++ hits query ps) (drop (length (hits query ps)) rest)
unfolding search_loop
search_loop_lem query [] found rest h = ap (λ l. response l rest) (sym (append-nil found))
search_loop_lem query (p ∷ ps) found [] h = absurd (omega arith)
search_loop_lem query (p ∷ ps) found (x ∷ rest) h = elim (Bool-cases (is_hit query p)) [
  | inl e ↦
      rw (e, search_loop)
        (ap (search_loop query ps) (add_result_lem found x p rest)
          ∙ search_loop_lem query ps (found ++ p ∷ []) rest (omega arith)
          ∙ ap (λ l. response l (drop (length (hits query ps)) rest))
              (append_assoc found (p ∷ []) (hits query ps)))
  | inr e ↦ rw (e, search_loop) (search_loop_lem query ps found (x ∷ rest) (omega arith))
]

search_products_lem :
    (rr : SearchProductsRr)
    → length rr.results.listed ≡ 9
    → (search_products rr).results
      ≡ response (hits rr.query products) (drop (length (hits rr.query products)) rr.results.listed)
unfolding search_products
search_products_lem rr h = search_loop_lem rr.query products [] rr.results.listed (omega arith)

-- The response holds the hits, and behind them what it held before.
abbrev pub Reports : String → List Product → Products → Type 0
Reports query before out =
    (out.num_products ≡ length (hits query products))
    × (out.num_products ≤ 9)
    × (take out.num_products out.listed ≡ hits query products)
    × (drop out.num_products out.listed ≡ drop out.num_products before)

response-Reports :
    (query : String) (before : List Product)
    → Reports query before
        (response (hits query products) (drop (length (hits query products)) before))
response-Reports query before =
    let found = hits query products in
    let rest = drop (length found) before in
    (refl, length-hits query products, take-length_append found rest, drop-length_append found rest)

-- Into a response with room for nine products, `SearchProducts` writes the products of the table whose
-- name or description has the query in it, in their order, and their number; it writes no further.
pub search_products-Reports :
    (rr : SearchProductsRr)
    → length rr.results.listed ≡ 9
    → Reports rr.query rr.results.listed (search_products rr).results
search_products-Reports rr h =
    subst (Reports rr.query rr.results.listed) (sym (search_products_lem rr h))
      (response-Reports rr.query rr.results.listed)
