-- ===== src/Catalog.antt =====
-- apps/boutique/sure/productcatalogservice/main.c: the products, one of them and those that a query
-- finds.
pub mod Table
pub mod Lookup
pub mod Search
mod Tests
use Prim.Native.String.{String}
use sure.Prelude.{
  ℕ, suc, ◌+◌, Bool, ◌||◌, if◌then◌else◌, List, [], ◌∷◌, length, set, Option, none, some,
}
use sure.Prelude.Texts.{same_text, has_text}
use sure.Catalog.Table.{Product, products}

-- `struct _listProductsResponse`, `struct _searchProductsResponse`: a count and an array.
pub record Products : Type 0 where
  pub num_products : ℕ
  pub listed : List Product

pub record GetProductRr : Type 0 where
  pub req : String
  pub res : Product

pub record SearchProductsRr : Type 0 where
  pub query : String
  pub results : Products

-- `out->Products[i] = products[i]`, from a place on.
unfoldable pub copy_products : List Product → ℕ → List Product → List Product
copy_products [] i out = out
copy_products (p ∷ ps) i out = copy_products ps (i + 1) (set out i p)

-- `ListProducts`
unfoldable pub list_products : Products → Products
unfolding copy_products
list_products out = record {
  num_products = length products;
  listed = copy_products products 0 out.listed;
}

-- The loop of `GetProduct`, which ends at the first product of that id.
unfoldable pub find_product : String → List Product → Option Product
find_product id [] = none
find_product id (p ∷ ps) =
    let rest = find_product id ps in if same_text id p.id then some p else rest

-- `GetProduct`: without such a product the response stays as it was.
unfoldable pub get_product : GetProductRr → GetProductRr
unfolding find_product
get_product rr = elim (find_product rr.req products) [ none ↦ rr | some p ↦ record rr { res = p } ]

-- `strstr(Name, Query) != NULL || strstr(Description, Query) != NULL`
abbrev pub is_hit : String → Product → Bool
is_hit query p = has_text p.name query || has_text p.description query

-- `out->Results[out->num_products] = products[i]; out->num_products++`
abbrev pub add_result : Products → Product → Products
add_result out p = record {
  num_products = out.num_products + 1;
  listed = set out.listed out.num_products p;
}

-- The loop of `SearchProducts`.
unfoldable pub search_loop : String → List Product → Products → Products
search_loop query [] out = out
search_loop query (p ∷ ps) out =
    search_loop query ps (if is_hit query p then add_result out p else out)

-- `SearchProducts`
unfoldable pub search_products : SearchProductsRr → SearchProductsRr
unfolding search_loop
search_products rr = record rr {
  results = search_loop rr.query products (record rr.results { num_products = 0 });
}

-- The commands that `handle_request` tells apart, with what `rpc->rr` holds.
pub data CatalogRequest : Type 0 where
  productcatalog_list_products : Products → CatalogRequest
  productcatalog_get_product : GetProductRr → CatalogRequest
  productcatalog_search_products : SearchProductsRr → CatalogRequest
  unknown : CatalogRequest

-- `handle_request`
abbrev pub handle_request : CatalogRequest → CatalogRequest
handle_request (productcatalog_list_products res) = productcatalog_list_products (list_products res)
handle_request (productcatalog_get_product rr) = productcatalog_get_product (get_product rr)
handle_request (productcatalog_search_products rr) =
    productcatalog_search_products (search_products rr)
handle_request unknown = unknown
