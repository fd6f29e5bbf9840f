-- ===== src/Cart/CMap.antt =====
-- The map of cstl, which apps/boutique/sure/cartservice/main.c keeps its carts in. `insert` stores a
-- copy of the object under a copy of the key; `find` allocates a copy of what is stored, so that a
-- write to what it found is no write to the map.
use Prim.Native.String.{String}
use sure.Prelude.{◌≡◌, ◌≢◌, Option, none, some}

pub record CMap (V : Type 0) : Type 1 where
  pub Store : Type 0
  pub empty : Store
  pub insert : String → V → Store → Store
  pub find : String → Store → Option V
  pub find-empty : (k : String) → find k empty ≡ none
  pub find-insert :
      (k : String) (v : V) (s : Store) → find k s ≡ none → find k (insert k v s) ≡ some v
  pub find-insert_other :
      (k l : String) (v : V) (s : Store) → k ≢ l → find k (insert l v s) ≡ find k s
