-- ===== src/Ads/Products.antt =====
-- Where the ads of apps/boutique/sure/adservice/main.c lead.
use Prim.Native.String.{String, ◌++◌}
use sure.Prelude.{
  ℕ, ◌≡◌, ◌⊎◌, inl, inr, refl, subst, sym, Bool-cases, if◌then◌else◌, some, get_elem?,
}
use sure.Prelude.Texts.{same_text, same_text→eq}
use sure.Catalog.Table.{Product, products}
use sure.Ads.{Ad, blank_ad, get_ads_by_category}

-- The ad leads to the page of a product of the catalog, which is in the category.
abbrev pub Advertises : String → Ad → Type 0
Advertises key ad =
    (i : ℕ) × (p : Product) × (k : ℕ) × (get_elem? products i ≡ some p)
    × (ad.redirect_url ≡ "/product/" ++ p.id)
    × (get_elem? p.categories k ≡ some key)

-- One test of the chain.
chain :
    (key word : String) (ad rest : Ad)
    → Advertises word ad
    → Advertises key rest ⊎ (rest ≡ blank_ad)
    → Advertises key (if same_text key word then ad else rest)
      ⊎ ((if same_text key word then ad else rest) ≡ blank_ad)
chain key word ad rest here later = elim (Bool-cases (same_text key word)) [
  | inl e ↦ rw (e) (inl (subst (λ k. Advertises k ad) (sym (same_text→eq key word e)) here))
  | inr e ↦ rw (e) later
]

-- The ad for a category leads to the page of a product of the catalog that is in that category; for any
-- other word the ad is blank.
pub get_ads_by_category-Advertises :
    (key : String) → Advertises key (get_ads_by_category key) ⊎ (get_ads_by_category key ≡ blank_ad)
unfolding get_ads_by_category
get_ads_by_category-Advertises key =
    chain key "clothing" _ _ (1, _, 0, refl, refl, refl)
      (chain key "accessories" _ _ (2, _, 0, refl, refl, refl)
        (chain key "footwear" _ _ (3, _, 0, refl, refl, refl)
          (chain key "hair" _ _ (4, _, 0, refl, refl, refl)
            (chain key "decor" _ _ (5, _, 0, refl, refl, refl)
              (chain key "kitchen" _ _ (8, _, 0, refl, refl, refl) (inr refl))))))
