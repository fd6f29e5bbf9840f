-- ===== src/Catalog/Tests.antt =====
-- apps/boutique/sure/productcatalogservice/main.c at the products of the demo shop.
use sure.Prelude.{◌≡◌, refl, [], replicate}
use sure.Catalog.Table.{Product}
use sure.Catalog.{Products, GetProductRr, SearchProductsRr, search_loop, search_products}
use sure.Catalog.Search.{Reports, search_products-Reports}
use sure.Prelude.Int.{pos}

abbrev blank : Product
blank = record {
  id = "";
  name = "";
  description = "";
  picture = "";
  price_usd = record { currency_code = ""; units = pos 0; nanos = pos 0 };
  num_categories = 0;
  categories = [];
}

abbrev blank_products : Products
blank_products = record { num_products = 0; listed = replicate 9 blank }

abbrev mug_request : GetProductRr
mug_request = record { req = "6E92ZMYYFZ"; res = blank }

abbrev kitchen_query : SearchProductsRr
kitchen_query = record { query = "kitchen"; results = blank_products }

kitchen_finds_two : (search_products kitchen_query).results.num_products ≡ 2
unfolding search_products search_loop
kitchen_finds_two = refl

search_products-Reports_example :
    Reports "kitchen" blank_products.listed (search_products kitchen_query).results
search_products-Reports_example = search_products-Reports kitchen_query refl
