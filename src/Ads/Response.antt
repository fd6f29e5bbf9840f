-- ===== src/Ads/Response.antt =====
-- `GetAds` of apps/boutique/sure/adservice/main.c: which ads a response holds.
use sure.Prelude.{
  ℕ, zero, suc, ◌+◌, ◌%◌, ◌≡◌, ◌≤◌, ◌<◌, inl, inr, refl, sym, ap, subst, ◌∙◌, Bool-cases, ltb,
  lt→ltb, ◌==◌, if◌then◌else◌, length, length-set, get_or, set, get_or-set, get_or-set_other, arith,
}
use native.Mathlib.Decide.{dec_lt}
use sure.Ads.{
  AdRr, ad_name, blank_ad, get_ads_by_category, get_random_ads, put_ad, put_ads, get_ads,
}
use sure.Ads.Products.{Advertises}

put_ads-num_ads : (left i : ℕ) (rr : AdRr) → (put_ads left i rr).num_ads ≡ rr.num_ads + left
unfolding put_ads
put_ads-num_ads zero i rr = omega arith
put_ads-num_ads (suc left) i rr = put_ads-num_ads left (i + 1) _ ∙ omega arith

put_ads-before :
    (left i j : ℕ) (rr : AdRr)
    → j < i
    → get_or (put_ads left i rr).ads j blank_ad ≡ get_or rr.ads j blank_ad
unfolding put_ads
put_ads-before zero i j rr h = refl
put_ads-before (suc left) i j rr h =
    put_ads-before left (i + 1) j _ (omega arith)
    ∙ get_or-set_other rr.ads i j _ blank_ad (λ e. absurd (omega arith))

put_ads-within :
    (left i j : ℕ) (rr : AdRr)
    → i ≤ j
    → j < i + left
    → i + left ≤ length rr.ads
    → get_or (put_ads left i rr).ads j blank_ad ≡ get_ads_by_category (get_or rr.context_keys j "")
unfolding put_ads
put_ads-within zero i j rr h k l = absurd (omega arith)
put_ads-within (suc left) i j rr h k l = elim (dec_lt i j) [
  | yes later ↦
      put_ads-within left (i + 1) j
        (put_ad i (get_ads_by_category (get_or rr.context_keys i "")) rr) (omega arith)
        (omega arith)
        (omega (arith, length-set rr.ads i (get_ads_by_category (get_or rr.context_keys i ""))))
  | no now ↦
      let here : i ≡ j = omega arith in
      put_ads-before left (i + 1) j _ (omega arith)
      ∙ subst
          (λ k.
            get_or (set rr.ads i (get_ads_by_category (get_or rr.context_keys i ""))) k blank_ad
            ≡ get_ads_by_category (get_or rr.context_keys k ""))
          here (get_or-set rr.ads i _ blank_ad (omega arith))
]

-- A name that is drawn is one of a category with a product.
get_random_ads-Advertises :
    (k : ℕ) → k < 6 → Advertises (get_or ad_name k "") (get_ads_by_category (get_or ad_name k ""))
unfolding get_ads_by_category
get_random_ads-Advertises zero h = (1, _, 0, refl, refl, refl)
get_random_ads-Advertises (suc zero) h = (2, _, 0, refl, refl, refl)
get_random_ads-Advertises (suc (suc zero)) h = (3, _, 0, refl, refl, refl)
get_random_ads-Advertises (suc (suc (suc zero))) h = (4, _, 0, refl, refl, refl)
get_random_ads-Advertises (suc (suc (suc (suc zero)))) h = (5, _, 0, refl, refl, refl)
get_random_ads-Advertises (suc (suc (suc (suc (suc zero))))) h = (8, _, 0, refl, refl, refl)
get_random_ads-Advertises (suc (suc (suc (suc (suc (suc k)))))) h = absurd (omega arith)

-- The last test of `GetAds` never holds.
finish : ℕ → AdRr → AdRr
finish rand' out = if out.num_ads == 0 then put_ad 0 (get_random_ads rand') out else out

finish_lem : (rand' : ℕ) (out : AdRr) → 1 ≤ out.num_ads → finish rand' out ≡ out
unfolding finish
finish_lem rand' out h = elim (Bool-cases (out.num_ads == 0)) [
  | inl e ↦ absurd (ground (arith, e))
  | inr e ↦ rw (e) refl
]

get_ads-words :
    (rand rand' : ℕ) (rr : AdRr)
    → 1 ≤ rr.num_context_keys
    → get_ads rand rand' rr ≡ put_ads rr.num_context_keys 0 (record rr { num_ads = 0 })
unfolding get_ads finish
get_ads-words rand rand' rr h =
    let rr' : AdRr = record rr { num_ads = 0 } in
    let words : AdRr = put_ads rr.num_context_keys 0 rr' in
    ap (λ b. finish rand' (if b then words else put_ad 0 (get_random_ads rand) rr'))
      (lt→ltb 0 rr.num_context_keys h)
    ∙ finish_lem rand' words (omega (arith, put_ads-num_ads rr.num_context_keys 0 rr'))

get_ads-drawn :
    (rand rand' : ℕ) (rr : AdRr)
    → rr.num_context_keys ≡ 0
    → get_ads rand rand' rr ≡ put_ad 0 (get_random_ads rand) (record rr { num_ads = 0 })
unfolding get_ads finish
get_ads-drawn rand rand' rr h =
    let rr' : AdRr = record rr { num_ads = 0 } in
    let drawn : AdRr = put_ad 0 (get_random_ads rand) rr' in
    ap (λ n. finish rand' (if ltb 0 n then put_ads rr.num_context_keys 0 rr' else drawn)) h
    ∙ finish_lem rand' drawn (omega arith)

-- An ad for each word of the request.
abbrev pub Words : AdRr → AdRr → Type 0
Words rr out =
    (out.num_ads ≡ rr.num_context_keys)
    × ((j : ℕ)
        → j < rr.num_context_keys
        → get_or out.ads j blank_ad ≡ get_ads_by_category (get_or rr.context_keys j ""))

-- One ad of a category that is drawn.
abbrev pub Drawn : ℕ → AdRr → Type 0
Drawn rand out =
    (out.num_ads ≡ 1) × Advertises (get_or ad_name (rand % 6) "") (get_or out.ads 0 blank_ad)

-- For one to ten words `GetAds` answers with as many ads, the ad at each place being that for the word at
-- the same place. Without a word it answers with one ad, of a category that is drawn, which leads to a
-- product of the catalog in that category.
pub get_ads_lem :
    (rand rand' : ℕ) (rr : AdRr)
    → rr.num_context_keys ≤ 10
    → length rr.ads ≡ 10
    → (1 ≤ rr.num_context_keys → Words rr (get_ads rand rand' rr))
      × (rr.num_context_keys ≡ 0 → Drawn rand (get_ads rand rand' rr))
unfolding get_random_ads
get_ads_lem rand rand' rr h k = (
  (λ some_words. subst (Words rr) (sym (get_ads-words rand rand' rr some_words)) (
    omega (arith, put_ads-num_ads rr.num_context_keys 0 (record rr { num_ads = 0 })),
    (λ j within.
        put_ads-within rr.num_context_keys 0 j (record rr { num_ads = 0 }) (omega arith)
          (omega arith) (omega arith)),
  )),
  (λ none. subst (Drawn rand) (sym (get_ads-drawn rand rand' rr none)) (
    refl,
    subst (Advertises (get_or ad_name (rand % 6) ""))
        (sym (get_or-set rr.ads 0 (get_random_ads rand) blank_ad (omega arith)))
        (get_random_ads-Advertises (rand % 6) (omega arith)),
  )),
)
