-- ===== src/Ads/Tests.antt =====
-- apps/boutique/sure/adservice/main.c at a page about kitchens.
use sure.Prelude.{◌≡◌, refl, [], ◌∷◌, get_or, replicate}
use sure.Ads.{AdRr, blank_ad, get_ads_by_category, get_random_ads, put_ads, get_ads}

abbrev page : AdRr
page = record {
  num_context_keys = 2;
  context_keys = "kitchen" ∷ "boats" ∷ [];
  num_ads = 7;
  ads = replicate 10 blank_ad;
}

mug_ad : (get_or (get_ads 3 4 page).ads 0 blank_ad).redirect_url ≡ "/product/6E92ZMYYFZ"
unfolding get_ads put_ads get_random_ads get_ads_by_category
mug_ad = refl
