-- ===== src/Ads.antt =====
-- apps/boutique/sure/adservice/main.c: the ads for the words of a page.
pub mod Products
pub mod Response
mod Tests
use Prim.Native.String.{String}
use sure.Prelude.{ℕ, zero, suc, ◌+◌, ◌%◌, ltb, ◌==◌, if◌then◌else◌, List, [], ◌∷◌, get_or, set}
use sure.Prelude.Texts.{same_text}

-- `struct _ad`
pub record Ad : Type 0 where
  pub redirect_url : String
  pub text : String

-- `struct _adrequest` and `struct _adresponse`; the counts are not negative.
pub record AdRr : Type 0 where
  pub num_context_keys : ℕ
  pub context_keys : List String
  pub num_ads : ℕ
  pub ads : List Ad

abbrev pub blank_ad : Ad
blank_ad = record { redirect_url = ""; text = "" }

abbrev pub ad_name : List String
ad_name = "clothing" ∷ "accessories" ∷ "footwear" ∷ "hair" ∷ "decor" ∷ "kitchen" ∷ []

-- `getAdsByCategory`
unfoldable pub get_ads_by_category : String → Ad
get_ads_by_category key =
    if same_text key "clothing"
    then record { redirect_url = "/product/66VCHSJNUP"; text = "Tank top for sale. 20 off." }
    else if same_text key "accessories"
    then record {
      redirect_url = "/product/1YMWWN1N4O";
      text = "Watch for sale. Buy one, get second kit for free";
    }
    else if same_text key "footwear"
    then record {
      redirect_url = "/product/L9ECAV7KIM";
      text = "Loafers for sale. Buy one, get second one for free";
    }
    else if same_text key "hair"
    then record { redirect_url = "/product/2ZYFJ3GM2N"; text = "Hairdryer for sale. 50 off." }
    else if same_text key "decor"
    then record { redirect_url = "/product/0PUK6V6EV0"; text = "Candle holder for sale. 30 off." }
    else if same_text key "kitchen"
    then record {
      redirect_url = "/product/6E92ZMYYFZ";
      text = "Mug for sale. Buy two, get third one for free";
    }
    else blank_ad

-- `getRandomAds`, whose one round ends it; the argument is what `rand()` gives. It has the tests of
-- `getAdsByCategory` once more, on the name that is drawn.
unfoldable pub get_random_ads : ℕ → Ad
unfolding get_ads_by_category
get_random_ads rand = get_ads_by_category (get_or ad_name (rand % 6) "")

-- `strcpy` of an ad to `Ads[i]`, and `num_ads++`
abbrev pub put_ad : ℕ → Ad → AdRr → AdRr
put_ad i ad rr = record rr { ads = set rr.ads i ad; num_ads = rr.num_ads + 1 }

-- `for(i = 0; i < num_context_keys; i++)`, with the rounds that are left.
unfoldable pub put_ads : ℕ → ℕ → AdRr → AdRr
unfolding get_ads_by_category
put_ads zero i rr = rr
put_ads (suc left) i rr =
    put_ads left (i + 1) (put_ad i (get_ads_by_category (get_or rr.context_keys i "")) rr)

-- `GetAds`; the arguments are what its two calls of `rand()` would give.
unfoldable pub get_ads : ℕ → ℕ → AdRr → AdRr
unfolding put_ads get_random_ads
get_ads rand rand' rr =
    let rr' = record rr { num_ads = 0 } in
    let out =
      if ltb 0 rr.num_context_keys
      then put_ads rr.num_context_keys 0 rr'
      else put_ad 0 (get_random_ads rand) rr' in
    if out.num_ads == 0 then put_ad 0 (get_random_ads rand') out else out
