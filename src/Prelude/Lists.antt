-- ===== src/Prelude/Lists.antt =====
-- C arrays and byte ranges as lists, measured and indexed by native numbers.
use Prim.Native.Nat.{ℕ, zero, suc, ◌+◌, ◌-◌, ◌<◌, min}
use mathlib.Core.Path.{◌≡◌, refl, ap, subst}
use mathlib.Core.List.{List, [], ◌∷◌, ◌++◌}
use mathlib.Core.Option.{Option, none, some}
use mathlib.Core.Logic.{◌≢◌}
use native.Mathlib.Omega.{arith}
use sure.Prelude.Tests.{some_inj, none-ne-some}

module _ {ℓ} {A : Type ℓ} where
  abbrev pub length : List A → ℕ
  length [] = 0
  length (x ∷ xs) = suc (length xs)

  abbrev pub get_elem? : List A → ℕ → Option A
  get_elem? [] i = none
  get_elem? (x ∷ xs) zero = some x
  get_elem? (x ∷ xs) (suc i) = get_elem? xs i

  abbrev pub get_or : List A → ℕ → A → A
  get_or [] i d = d
  get_or (x ∷ xs) zero d = x
  get_or (x ∷ xs) (suc i) d = get_or xs i d

  -- A write out of bounds changes nothing.
  abbrev pub set : List A → ℕ → A → List A
  set [] i v = []
  set (x ∷ xs) zero v = v ∷ xs
  set (x ∷ xs) (suc i) v = x ∷ set xs i v

  abbrev pub take : ℕ → List A → List A
  take zero xs = []
  take (suc n) [] = []
  take (suc n) (x ∷ xs) = x ∷ take n xs

  abbrev pub drop : ℕ → List A → List A
  drop zero xs = xs
  drop (suc n) [] = []
  drop (suc n) (x ∷ xs) = drop n xs

  abbrev pub replicate : ℕ → A → List A
  replicate zero a = []
  replicate (suc n) a = a ∷ replicate n a

  pub length-append : (xs ys : List A) → length (xs ++ ys) ≡ length xs + length ys
  length-append [] ys = omega arith
  length-append (x ∷ xs) ys = omega (arith, length-append xs ys)

  pub length-set : (xs : List A) (i : ℕ) (v : A) → length (set xs i v) ≡ length xs
  length-set [] i v = refl
  length-set (x ∷ xs) zero v = refl
  length-set (x ∷ xs) (suc i) v = ap suc (length-set xs i v)

  pub take-append-drop : (n : ℕ) (xs : List A) → take n xs ++ drop n xs ≡ xs
  take-append-drop zero xs = refl
  take-append-drop (suc n) [] = refl
  take-append-drop (suc n) (x ∷ xs) = ap (◌∷◌ x) (take-append-drop n xs)

  pub length-take : (n : ℕ) (xs : List A) → length (take n xs) ≡ min n (length xs)
  length-take zero xs = omega arith
  length-take (suc n) [] = omega arith
  length-take (suc n) (x ∷ xs) = omega (arith, length-take n xs)

  pub length-drop : (n : ℕ) (xs : List A) → length (drop n xs) ≡ length xs - n
  length-drop zero xs = omega arith
  length-drop (suc n) [] = omega arith
  length-drop (suc n) (x ∷ xs) = omega (arith, length-drop n xs)

  pub length-replicate : (n : ℕ) (a : A) → length (replicate n a) ≡ n
  length-replicate zero a = refl
  length-replicate (suc n) a = ap suc (length-replicate n a)

  pub get_or-append_left :
      (xs ys : List A) (i : ℕ) (d : A) → i < length xs → get_or (xs ++ ys) i d ≡ get_or xs i d
  get_or-append_left [] ys i d h = absurd (omega arith)
  get_or-append_left (x ∷ xs) ys zero d h = refl
  get_or-append_left (x ∷ xs) ys (suc i) d h = get_or-append_left xs ys i d (omega arith)

  pub get_or-take :
      (n : ℕ) (xs : List A) (i : ℕ) (d : A) → i < n → get_or (take n xs) i d ≡ get_or xs i d
  get_or-take zero xs i d h = absurd (omega arith)
  get_or-take (suc n) [] i d h = refl
  get_or-take (suc n) (x ∷ xs) zero d h = refl
  get_or-take (suc n) (x ∷ xs) (suc i) d h = get_or-take n xs i d (omega arith)

  pub eq_nil_of_length : (xs : List A) → length xs ≡ 0 → xs ≡ []
  eq_nil_of_length [] h = refl
  eq_nil_of_length (x ∷ xs) h = absurd (omega arith)

module _ {ℓ} {A : Type ℓ} where
  pub set-append :
      (done : List A) (x y : A) (rest : List A)
      → set (done ++ x ∷ rest) (length done) y ≡ done ++ y ∷ rest
  set-append [] x y rest = refl
  set-append (d ∷ done) x y rest = ap (◌∷◌ d) (set-append done x y rest)

-- A predicate at every element.
abbrev pub All {ℓ} : {A : Type ℓ} → (A → Type 0) → List A → Type 0
All P [] = Unit
All P (x ∷ xs) = P x × All P xs

pub All-get_elem? {ℓ} :
    {A : Type ℓ} (P : A → Type 0) (xs : List A) (i : ℕ) (a : A)
    → All P xs
    → get_elem? xs i ≡ some a
    → P a
All-get_elem? P [] i a all e = absurd (none-ne-some e)
All-get_elem? P (x ∷ xs) zero a (p, _) e = subst P (some_inj e) p
All-get_elem? P (x ∷ xs) (suc i) a (_, all) e = All-get_elem? P xs i a all e

pub get_elem?-lt {ℓ} :
    {A : Type ℓ} (xs : List A) (i : ℕ) (a : A) → get_elem? xs i ≡ some a → i < length xs
get_elem?-lt [] i a e = absurd (none-ne-some e)
get_elem?-lt (x ∷ xs) zero a e = omega arith
get_elem?-lt (x ∷ xs) (suc i) a e = omega (arith, get_elem?-lt xs i a e)

module _ {ℓ} {A : Type ℓ} where
  pub take-length_append : (xs ys : List A) → take (length xs) (xs ++ ys) ≡ xs
  take-length_append [] ys = refl
  take-length_append (x ∷ xs) ys = ap (◌∷◌ x) (take-length_append xs ys)

  pub drop-length_append : (xs ys : List A) → drop (length xs) (xs ++ ys) ≡ ys
  drop-length_append [] ys = refl
  drop-length_append (x ∷ xs) ys = drop-length_append xs ys

  pub get_or-set : (xs : List A) (i : ℕ) (v d : A) → i < length xs → get_or (set xs i v) i d ≡ v
  get_or-set [] i v d h = absurd (omega arith)
  get_or-set (x ∷ xs) zero v d h = refl
  get_or-set (x ∷ xs) (suc i) v d h = get_or-set xs i v d (omega arith)

  pub get_or-set_other :
      (xs : List A) (i j : ℕ) (v d : A) → i ≢ j → get_or (set xs i v) j d ≡ get_or xs j d
  get_or-set_other [] i j v d h = refl
  get_or-set_other (x ∷ xs) zero zero v d h = absurd (h refl)
  get_or-set_other (x ∷ xs) zero (suc j) v d h = refl
  get_or-set_other (x ∷ xs) (suc i) zero v d h = refl
  get_or-set_other (x ∷ xs) (suc i) (suc j) v d h = get_or-set_other xs i j v d (λ e. h (ap suc e))

  pub drop-get_or :
      (xs : List A) (i : ℕ) (d : A) → i < length xs → drop i xs ≡ get_or xs i d ∷ drop (suc i) xs
  drop-get_or [] i d h = absurd (omega arith)
  drop-get_or (x ∷ xs) zero d h = refl
  drop-get_or (x ∷ xs) (suc i) d h = drop-get_or xs i d (omega arith)
