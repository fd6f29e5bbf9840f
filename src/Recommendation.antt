-- ===== src/Recommendation.antt =====
-- apps/boutique/sure/recommendationservice/main.c: the table of products, and which one is recommended.
pub mod Known
mod Tests
use Prim.Native.String.{String}
use sure.Prelude.{ℕ, ◌%◌, List, [], ◌∷◌, map, length, get_or, set, Option, none, some}
use sure.Prelude.Int.{pos}
use sure.Money.{Money}
use sure.Catalog.{Products}
use sure.Catalog.Table.{Product}
use sure.Service.Process.{Exec, returns, exits}

-- `struct _listRecommendationsRR`, without the counts, which `ListRecommendations` does not touch.
pub record ListRecommendationsRr : Type 0 where
  pub user_id : String
  pub requested_ids : List String
  pub product_ids : List String

-- `products`
abbrev pub known_products : List Product
known_products =
    record {
      id = "OLJCESPC7Z";
      name = "Sunglasses";
      description = "Add a modern touch to your outfits with these sleek aviator sunglasses.";
      picture = "/static/img/products/sunglasses.jpg";
      price_usd = record { currency_code = "USD"; units = pos 19; nanos = pos 990000000 };
      num_categories = 1;
      categories = "accessories" ∷ [];
    }
    ∷ record {
      id = "66VCHSJNUP";
      name = "Tank Top";
      description = "Perfectly cropped cotton tank, with a scooped neckline.";
      picture = "/static/img/products/tank-top.jpg";
      price_usd = record { currency_code = "USD"; units = pos 18; nanos = pos 990000000 };
      num_categories = 2;
      categories = "clothing" ∷ "tops" ∷ [];
    }
    ∷ record {
      id = "1YMWWN1N4O";
      name = "Watch";
      description = "This gold-tone stainless steel watch will work with most of your outfits.";
      picture = "/static/img/products/watch.jpg";
      price_usd = record { currency_code = "USD"; units = pos 109; nanos = pos 990000000 };
      num_categories = 1;
      categories = "accessories" ∷ [];
    }
    ∷ record {
      id = "L9ECAV7KIM";
      name = "Loafers";
      description = "A neat addition to your summer wardrobe.";
      picture = "/static/img/products/loafers.jpg";
      price_usd = record { currency_code = "USD"; units = pos 89; nanos = pos 990000000 };
      num_categories = 1;
      categories = "footwear" ∷ [];
    }
    ∷ record {
      id = "2ZYFJ3GM2N";
      name = "Hairdryer";
      description =
          "This lightweight hairdryer has 3 heat and speed settings. It's perfect for travel.";
      picture = "/static/img/products/hairdryer.jpg";
      price_usd = record { currency_code = "USD"; units = pos 24; nanos = pos 990000000 };
      num_categories = 2;
      categories = "hair" ∷ "beauty" ∷ [];
    }
    ∷ record {
      id = "0PUK6V6EV0";
      name = "Candle Holder";
      description = "This small but intricate candle holder is an excellent gift.";
      picture = "/static/img/products/candle-holder.jpg";
      price_usd = record { currency_code = "USD"; units = pos 18; nanos = pos 990000000 };
      num_categories = 2;
      categories = "decor" ∷ "home" ∷ [];
    }
    ∷ record {
      id = "LS4PSXUNUM";
      name = "Salt & Pepper Shakers";
      description = "Add some flavor to your kitchen.";
      picture = "/static/img/products/salt-and-pepper-shakers.jpg";
      price_usd = record { currency_code = "USD"; units = pos 18; nanos = pos 490000000 };
      num_categories = 1;
      categories = "kitchen" ∷ [];
    }
    ∷ record {
      id = "9SIQT8TOJO";
      name = "Bamboo Glass Jar";
      description = "This bamboo glass jar can hold 57 oz (1.7 l) and is perfect for any kitchen.";
      picture = "/static/img/products/bamboo-glass-jar.jpg";
      price_usd = record { currency_code = "USD"; units = pos 5; nanos = pos 490000000 };
      num_categories = 1;
      categories = "kitchen" ∷ [];
    }
    ∷ record {
      id = "6E92ZMYYFZ";
      name = "Mug";
      description = "A simple mug with a mustard interior.";
      picture = "/static/img/products/mug.jpg";
      price_usd = record { currency_code = "USD"; units = pos 8; nanos = pos 990000000 };
      num_categories = 1;
      categories = "kitchen" ∷ [];
    }
    ∷ []

-- `products[i].Id`
abbrev pub id_at : ℕ → String
id_at i = get_or (map (λ p. p.id) known_products) i ""

-- What `ListRecommendations` writes between its `do_rpc` and its end; the argument is what `rand()`
-- gives. The response of the catalog gives the length of its array only, which is 9.
unfoldable pub recommend : ℕ → ListRecommendationsRr → ListRecommendationsRr
recommend rand rr =
    let out = set rr.product_ids 0 (get_or rr.requested_ids 0 "") in
    let product_list_size : ℕ = 9 in
    let recommended_product = rand % product_list_size in
    record rr { product_ids = set out 0 (id_at recommended_product) }

-- What `ListRecommendations` calls: buffers, and the catalog by `do_rpc`.
pub record Catalogue : Type 1 where
  pub World : Type 0
  pub get_buffer : World → Option World
  pub put_buffer : World → World
  pub list_products : World → Exec (Products × World)

-- `ListRecommendations`: of what the catalog answers, only the size of its array is used.
unfoldable pub list_recommendations :
    (c : Catalogue) → ℕ → ListRecommendationsRr → c.World → Exec (ListRecommendationsRr × c.World)
unfolding recommend
list_recommendations c rand rr w = elim (c.get_buffer w) [
  | none ↦ exits
  | some w1 ↦ elim (c.list_products w1) [
    | exits ↦ exits
    | returns (listed, w2) ↦ returns (recommend rand rr, c.put_buffer w2)
  ]
]
