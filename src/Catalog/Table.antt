-- ===== src/Catalog/Table.antt =====
-- `struct _product` of apps/boutique/sure/common/service/message.h and `products` of apps/boutique/sure/productcatalogservice/main.c.
use Prim.Native.String.{String}
use sure.Prelude.{ℕ, List, [], ◌∷◌}
use sure.Prelude.Int.{pos}
use sure.Money.{Money}

-- `struct _product`
pub record Product : Type 0 where
  pub id : String
  pub name : String
  pub description : String
  pub picture : String
  pub price_usd : Money
  pub num_categories : ℕ
  pub categories : List String

abbrev pub products : List Product
products =
    record {
      id = "OLJCESPC7Z";
      name = "Sunglasses";
      description = "Add a modern touch to your outfits with these sleek aviator sunglasses.";
      picture = "/static/img/products/sunglasses.jpg";
      price_usd = record { currency_code = "USD"; units = pos 19; nanos = pos 990000000 };
      num_categories = 1;
      categories = "accessories" ∷ [];
    }
    ∷ record {
      id = "66VCHSJNUP";
      name = "Tank Top";
      description = "Perfectly cropped cotton tank, with a scooped neckline.";
      picture = "/static/img/products/tank-top.jpg";
      price_usd = record { currency_code = "USD"; units = pos 18; nanos = pos 990000000 };
      num_categories = 2;
      categories = "clothing" ∷ "tops" ∷ [];
    }
    ∷ record {
      id = "1YMWWN1N4O";
      name = "Watch";
      description = "This gold-tone stainless steel watch will work with most of your outfits.";
      picture = "/static/img/products/watch.jpg";
      price_usd = record { currency_code = "USD"; units = pos 109; nanos = pos 990000000 };
      num_categories = 1;
      categories = "accessories" ∷ [];
    }
    ∷ record {
      id = "L9ECAV7KIM";
      name = "Loafers";
      description = "A neat addition to your summer wardrobe.";
      picture = "/static/img/products/loafers.jpg";
      price_usd = record { currency_code = "USD"; units = pos 89; nanos = pos 990000000 };
      num_categories = 1;
      categories = "footwear" ∷ [];
    }
    ∷ record {
      id = "2ZYFJ3GM2N";
      name = "Hairdryer";
      description =
          "This lightweight hairdryer has 3 heat and speed settings. It's perfect for travel.";
      picture = "/static/img/products/hairdryer.jpg";
      price_usd = record { currency_code = "USD"; units = pos 24; nanos = pos 990000000 };
      num_categories = 2;
      categories = "hair" ∷ "beauty" ∷ [];
    }
    ∷ record {
      id = "0PUK6V6EV0";
      name = "Candle Holder";
      description = "This small but intricate candle holder is an excellent gift.";
      picture = "/static/img/products/candle-holder.jpg";
      price_usd = record { currency_code = "USD"; units = pos 18; nanos = pos 990000000 };
      num_categories = 2;
      categories = "decor" ∷ "home" ∷ [];
    }
    ∷ record {
      id = "LS4PSXUNUM";
      name = "Salt & Pepper Shakers";
      description = "Add some flavor to your kitchen.";
      picture = "/static/img/products/salt-and-pepper-shakers.jpg";
      price_usd = record { currency_code = "USD"; units = pos 18; nanos = pos 490000000 };
      num_categories = 1;
      categories = "kitchen" ∷ [];
    }
    ∷ record {
      id = "9SIQT8TOJO";
      name = "Bamboo Glass Jar";
      description = "This bamboo glass jar can hold 57 oz (1.7 l) and is perfect for any kitchen.";
      picture = "/static/img/products/bamboo-glass-jar.jpg";
      price_usd = record { currency_code = "USD"; units = pos 5; nanos = pos 490000000 };
      num_categories = 1;
      categories = "kitchen" ∷ [];
    }
    ∷ record {
      id = "6E92ZMYYFZ";
      name = "Mug";
      description = "A simple mug with a mustard interior.";
      picture = "/static/img/products/mug.jpg";
      price_usd = record { currency_code = "USD"; units = pos 8; nanos = pos 990000000 };
      num_categories = 1;
      categories = "kitchen" ∷ [];
    }
    ∷ []
