-- ===== src/Shipping/Tests.antt =====
-- apps/boutique/sure/shippingservice/main.c at a small order.
use sure.Prelude.{[], ◌∷◌, ◌≡◌, ◌==◌, if◌then◌else◌, refl, arith}
use sure.Prelude.Int.{pos}
use sure.Shipping.{Address, GetQuoteRr, get_quote}
use sure.Shipping.Costs.{get_quote_lem}

abbrev home : Address
home = record {
  street_address = "1600 Amphitheatre Parkway";
  city = "Mountain View";
  state = "CA";
  country = "United States";
  zip_code = pos 94043;
}

abbrev order : GetQuoteRr
order = record {
  address = home;
  num_items = 1;
  items = record { product_id = "6E92ZMYYFZ"; quantity = pos 3 } ∷ [];
  conversion_flag = pos 0;
  cost_usd = record { currency_code = ""; units = pos 0; nanos = pos 0 };
}

get_quote_lem_example : get_quote order ≡ record order {
  cost_usd =
      (if 3 == 0
        then record { currency_code = "USD"; units = pos 0; nanos = pos 0 }
        else record { currency_code = "USD"; units = pos 8; nanos = pos 990000000 });
}
get_quote_lem_example = get_quote_lem order (omega arith) (refl, tt) (omega arith)
