-- ===== src/Recommendation/Known.antt =====
-- What apps/boutique/sure/recommendationservice/main.c recommends.
use sure.Prelude.{
  ℕ, zero, suc, ◌%◌, ◌<◌, ◌≤◌, ◌≡◌, refl, ap, ◌∙◌, some, length, length-set, get_or, get_or-set,
  get_elem?, All-get_elem?, set, arith,
}
use sure.Catalog.Table.{Product, products}
use sure.Catalog.{GetProductRr, find_product, get_product}
use sure.Catalog.Lookup.{get_product-found, found_by_id}
use sure.Recommendation.{ListRecommendationsRr, id_at, recommend}

-- The table of this service lists the ids of the catalog in the same order.
id_at-listed : (k : ℕ) → k < 9 → (p : Product) × (get_elem? products k ≡ some p) × (id_at k ≡ p.id)
id_at-listed zero h = (_, refl, refl)
id_at-listed (suc zero) h = (_, refl, refl)
id_at-listed (suc (suc zero)) h = (_, refl, refl)
id_at-listed (suc (suc (suc zero))) h = (_, refl, refl)
id_at-listed (suc (suc (suc (suc zero)))) h = (_, refl, refl)
id_at-listed (suc (suc (suc (suc (suc zero))))) h = (_, refl, refl)
id_at-listed (suc (suc (suc (suc (suc (suc zero)))))) h = (_, refl, refl)
id_at-listed (suc (suc (suc (suc (suc (suc (suc zero))))))) h = (_, refl, refl)
id_at-listed (suc (suc (suc (suc (suc (suc (suc (suc zero)))))))) h = (_, refl, refl)
id_at-listed (suc (suc (suc (suc (suc (suc (suc (suc (suc k))))))))) h = absurd (omega arith)

-- The product that is recommended is one of the catalog: `GetProduct` answers a request for its id with
-- the product at the place that was drawn.
pub recommend-get_product :
    (rand : ℕ) (rr : ListRecommendationsRr) (q : GetProductRr)
    → 1 ≤ length rr.product_ids
    → q.req ≡ get_or (recommend rand rr).product_ids 0 ""
    → (p : Product) × (get_elem? products (rand % 9) ≡ some p)
      × (get_product q ≡ record q { res = p })
unfolding recommend
recommend-get_product rand rr q h e =
    let (p, at, same) = id_at-listed (rand % 9) (omega arith) in
    let asked : q.req ≡ p.id =
      e
      ∙ get_or-set (set rr.product_ids 0 (get_or rr.requested_ids 0 "")) 0 (id_at (rand % 9)) ""
          (omega (arith, length-set rr.product_ids 0 (get_or rr.requested_ids 0 "")))
      ∙ same in
    (
      p,
      at,
      get_product-found q p (
          ap (λ id. find_product id products) asked
          ∙ All-get_elem? (λ r. find_product r.id products ≡ some r) products (rand % 9) p
              found_by_id at),
    )
