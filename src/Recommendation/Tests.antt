-- ===== src/Recommendation/Tests.antt =====
-- apps/boutique/sure/recommendationservice/main.c at one draw.
use sure.Prelude.{◌≡◌, refl, some, [], get_elem?, replicate, arith}
use sure.Prelude.Int.{pos}
use sure.Catalog.Table.{Product, products}
use sure.Catalog.{GetProductRr, get_product}
use sure.Recommendation.{ListRecommendationsRr, recommend}
use sure.Recommendation.Known.{recommend-get_product}

abbrev request : ListRecommendationsRr
request = record { user_id = "ann"; requested_ids = replicate 10 ""; product_ids = replicate 10 "" }

abbrev blank : Product
blank = record {
  id = "";
  name = "";
  description = "";
  picture = "";
  price_usd = record { currency_code = ""; units = pos 0; nanos = pos 0 };
  num_categories = 0;
  categories = [];
}

abbrev lookup : GetProductRr
lookup = record { req = "6E92ZMYYFZ"; res = blank }

recommend-get_product_example :
    (p : Product) × (get_elem? products 8 ≡ some p)
    × (get_product lookup ≡ record lookup { res = p })
unfolding recommend
recommend-get_product_example = recommend-get_product 17 request lookup (omega arith) refl
