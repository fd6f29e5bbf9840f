-- ===== src/Latency/Sizes.antt =====
-- apps/rr-latency/sure/main.c: the sizes of the descriptors that carry a message.
use sure.Prelude.{
  ℕ, zero, suc, ◌+◌, ◌-◌, ◌*◌, ◌/◌, ◌%◌, ◌≤◌, ◌≡◌, refl, sym, ap, subst, ◌∙◌, false, List, [], ◌∷◌,
  length, set, map, replicate, All, arith,
}
use sure.Latency.{Options, count_descs, last_size, request_sizes}

-- The bytes of all descriptors.
abbrev pub total : List ℕ → ℕ
total [] = 0
total (n ∷ ns) = n + total ns

last_size_lem :
    (available size : ℕ)
    → 1 ≤ available
    → 1 ≤ size
    → last_size available size ≡ (size - 1) % available + 1
last_size_lem available size a b = grind arith

last_size_bounds :
    (available size : ℕ)
    → 1 ≤ available
    → (1 ≤ last_size available size) × (last_size available size ≤ available)
last_size_bounds available size a = grind arith

parts_total :
    (available size : ℕ)
    → 1 ≤ available
    → 1 ≤ size
    → (size - 1) / available * available + last_size available size ≡ size
parts_total available size a b =
    ap (λ l. (size - 1) / available * available + l) (last_size_lem available size a b)
    ∙ (grind arith)

-- The sizes of `n + 1` descriptors, the last of which is smaller.
abbrev pub sized : ℕ → ℕ → ℕ → List ℕ
sized available zero l = l ∷ []
sized available (suc n) l = available ∷ sized available n l

sized_lem :
    (available n l : ℕ)
    → set (map (λ (_ : ℕ). available) (replicate (suc n) zero)) n l ≡ sized available n l
sized_lem available zero l = refl
sized_lem available (suc n) l = ap (λ ns. available ∷ ns) (sized_lem available n l)

total-sized : (available n l : ℕ) → total (sized available n l) ≡ n * available + l
total-sized available zero l = omega arith
total-sized available (suc n) l =
    let h : total (sized available n l) ≡ n * available + l = total-sized available n l in
    grind arith

sized-bounds :
    (available n l : ℕ)
    → 1 ≤ l
    → l ≤ available
    → All (λ m. (1 ≤ m) × (m ≤ available)) (sized available n l)
sized-bounds available zero l h k = ((h, k), tt)
sized-bounds available (suc n) l h k =
    ((omega (arith, h, k), omega arith), sized-bounds available n l h k)

length-sized : (available n l : ℕ) → length (sized available n l) ≡ n + 1
length-sized available zero l = refl
length-sized available (suc n) l = omega (arith, length-sized available n l)

-- The descriptors that the client sends.
abbrev pub request : ℕ → Options → List ℕ
request available o = request_sizes available o (replicate (count_descs available o.size) zero)

request_lem :
    (available : ℕ) (o : Options)
    → o.http ≡ false
    → request available o ≡ sized available ((o.size - 1) / available) (last_size available o.size)
unfolding request_sizes
request_lem available o plain =
    let n : ℕ = (o.size - 1) / available in
    let e : n + 1 ≡ suc n = omega arith in
    let f : suc n - 1 ≡ n = omega arith in
    let l : ℕ = last_size available o.size in
    rw (plain) (
      ap (λ k. set (map (λ (_ : ℕ). available) (replicate k zero)) (k - 1) l) e
      ∙ ap (λ k. set (map (λ (_ : ℕ). available) (replicate (suc n) zero)) k l) f
      ∙ sized_lem available n l)

-- Without HTTP, a message of `size` bytes is sent in as many descriptors as it takes: each holds a byte at
-- least and as much as a buffer has room for at most, and together they hold `size` bytes.
pub request-total :
    (available : ℕ) (o : Options)
    → o.http ≡ false
    → 1 ≤ available
    → 1 ≤ o.size
    → (total (request available o) ≡ o.size)
      × All (λ m. (1 ≤ m) × (m ≤ available)) (request available o)
      × (length (request available o) ≡ count_descs available o.size)
request-total available o plain a b =
    let n : ℕ = (o.size - 1) / available in
    let l : ℕ = last_size available o.size in
    let (low, high) = last_size_bounds available o.size a in
    let e : request available o ≡ sized available n l = request_lem available o plain in
    (
      ap total e ∙ total-sized available n l ∙ parts_total available o.size a b,
      subst (All (λ m. (1 ≤ m) × (m ≤ available))) (sym e) (sized-bounds available n l low high),
      ap length e ∙ length-sized available n l,
    )
