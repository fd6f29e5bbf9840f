-- ===== src/Cart/ListMap.antt =====
-- A list of keys and values as a map for apps/boutique/sure/cartservice/main.c and
-- apps/boutique/sure/currencyservice/main.c: what is asked of the map of cstl can be had.
use Prim.Native.String.{String}
use sure.Prelude.{
  ◌≡◌, ◌≢◌, inl, inr, refl, sym, Bool-cases, if◌then◌else◌, List, [], ◌∷◌, Option, none, some,
}
use sure.Prelude.Texts.{same_text, same_text_refl, same_text→eq}
use sure.Cart.CMap.{CMap}

abbrev pub lookup : {V : Type 0} → String → List (String × V) → Option V
lookup k [] = none
lookup k ((l, v) ∷ s) = let rest = lookup k s in if same_text l k then some v else rest

pub lookup-insert :
    {V : Type 0} (k : String) (v : V) (s : List (String × V)) → lookup k ((k, v) ∷ s) ≡ some v
lookup-insert k v s = rw (same_text_refl k) refl

pub lookup-insert_other :
    {V : Type 0} (k l : String) (v : V) (s : List (String × V))
    → k ≢ l
    → lookup k ((l, v) ∷ s) ≡ lookup k s
lookup-insert_other k l v s other = elim (Bool-cases (same_text l k)) [
  | inl e ↦ absurd (other (sym (same_text→eq l k e)))
  | inr e ↦ rw (e) refl
]

abbrev pub list_map : (V : Type 0) → CMap V
list_map V = record {
  Store = List (String × V);
  empty = [];
  insert = λ k v s. (k, v) ∷ s;
  find = lookup;
  find-empty = λ k. refl;
  find-insert = λ k v s _. lookup-insert k v s;
  find-insert_other = lookup-insert_other;
}
