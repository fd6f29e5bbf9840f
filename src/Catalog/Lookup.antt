-- ===== src/Catalog/Lookup.antt =====
-- `GetProduct` and `ListProducts` of apps/boutique/sure/productcatalogservice/main.c.
use Prim.Native.String.{String}
use sure.Prelude.{
  ℕ, zero, suc, ◌<◌, ◌++◌, subst, ap₂, append_assoc, length-append, set-append, All, All-get_elem?,
  get_elem?-lt, ◌≡◌, ◌≢◌, ◌⊎◌, inl, inr, refl, sym, ap, ◌∙◌, Bool-cases, List, [], ◌∷◌, Option,
  none, some, length, get_elem?, some_inj, Option-cases, arith,
}
use sure.Prelude.Texts.{same_text, same_text→eq, different_text→ne}
use sure.Catalog.Table.{Product, products}
use sure.Catalog.{Products, GetProductRr, copy_products, list_products, find_product, get_product}

-- What a search for an id in a table gives: the first product with that id, or that there is none.
abbrev pub Finds : String → List Product → Option Product → Type 0
Finds id ps none = (i : ℕ) (p : Product) → get_elem? ps i ≡ some p → p.id ≢ id
Finds id ps (some p) = (p.id ≡ id) × (i : ℕ) × (get_elem? ps i ≡ some p)

none_before :
    (id : String) (q : Product) (ps : List Product)
    → q.id ≢ id
    → Finds id ps none
    → Finds id (q ∷ ps) none
none_before id q ps other h zero p e same = other (ap (λ r. r.id) (some_inj e) ∙ same)
none_before id q ps other h (suc i) p e same = h i p e same

later :
    (id : String) (q : Product) (ps : List Product) (found : Option Product)
    → q.id ≢ id
    → Finds id ps found
    → Finds id (q ∷ ps) found
later id q ps none other h = none_before id q ps other h
later id q ps (some p) other (e, i, at) = (e, suc i, at)

find_product-Finds : (id : String) (ps : List Product) → Finds id ps (find_product id ps)
unfolding find_product
find_product-Finds id [] = λ i p e _. ground arith
find_product-Finds id (q ∷ ps) = elim (Bool-cases (same_text id q.id)) [
  | inl same ↦ rw (same) (sym (same_text→eq id q.id same), 0, refl)
  | inr other ↦ rw (other) (
      later id q ps (find_product id ps) (λ e. different_text→ne id q.id other (sym e))
        (find_product-Finds id ps))
]

-- `GetProduct` answers with a product of the table that has the id, or leaves the request as it is when
-- no product of the table has it.
pub get_product_lem :
    (rr : GetProductRr)
    → ((i : ℕ) × (p : Product) × (get_elem? products i ≡ some p)
        × (p.id ≡ rr.req)
        × (get_product rr ≡ record rr { res = p }))
      ⊎ (((i : ℕ) (p : Product) → get_elem? products i ≡ some p → p.id ≢ rr.req)
          × (get_product rr ≡ rr))
unfolding get_product
get_product_lem rr = elim (Option-cases (find_product rr.req products)) [
  | inl e ↦ inr (
    subst (Finds rr.req products) e (find_product-Finds rr.req products),
    rw (e, get_product) refl,
  )
  | inr (p, e) ↦
      let (same, i, at) = subst (Finds rr.req products) e (find_product-Finds rr.req products) in
      inl (i, p, at, same, rw (e, get_product) refl)
]

copy_products_lem :
    (ps done rest : List Product)
    → length rest ≡ length ps
    → copy_products ps (length done) (done ++ rest) ≡ done ++ ps
unfolding copy_products
copy_products_lem [] done [] e = refl
copy_products_lem [] done (x ∷ rest) e = absurd (omega arith)
copy_products_lem (p ∷ ps) done [] e = absurd (omega arith)
copy_products_lem (p ∷ ps) done (x ∷ rest) e =
    ap₂ (copy_products ps) (sym (length-append done (p ∷ [])))
      (set-append done x p rest ∙ sym (append_assoc done (p ∷ []) rest))
    ∙ copy_products_lem ps (done ++ p ∷ []) rest (omega arith)
    ∙ append_assoc done (p ∷ []) ps

pub found_by_id : All (λ p. find_product p.id products ≡ some p) products
unfolding find_product
found_by_id = (refl, (refl, (refl, (refl, (refl, (refl, (refl, (refl, (refl, tt)))))))))

pub get_product-found :
    (rr : GetProductRr) (p : Product)
    → find_product rr.req products ≡ some p
    → get_product rr ≡ record rr { res = p }
unfolding get_product
get_product-found rr p e = rw (e, get_product) refl

-- `ListProducts` fills the places of the response with the products of the table, whatever stood
-- there, and `GetProduct` finds each of them by its id.
pub list_products-get_product :
    (out : Products) (rr : GetProductRr) (i : ℕ) (p : Product)
    → length out.listed ≡ 9
    → get_elem? (list_products out).listed i ≡ some p
    → rr.req ≡ p.id
    → (i < (list_products out).num_products) × (get_product rr ≡ record rr { res = p })
unfolding list_products get_product
list_products-get_product out rr i p h at e =
    let all = copy_products_lem products [] out.listed h in
    let here : get_elem? products i ≡ some p = subst (λ ps. get_elem? ps i ≡ some p) all at in
    (
      get_elem?-lt products i p here,
      get_product-found rr p (
          ap (λ id. find_product id products) e
          ∙ All-get_elem? (λ q. find_product q.id products ≡ some q) products i p found_by_id here),
    )
