-- ===== src/Money/Multiply.antt =====
-- What `MoneyMultiplySlow` of apps/boutique/sure/common/service/utilities.h computes.
use native.Mathlib.Nat.{pow-suc, one-le-pow, mul-le-mul_right}
use sure.Prelude.{ℕ, zero, suc, ◌+◌, ◌*◌, ◌^◌, ◌≤◌, ◌<◌, ◌≡◌, ◌≢◌, ◌↔◌, ◌∙◌, ap, sym, arith}
use sure.Prelude.Int.{ℤ, pos, negsuc, pos_part, neg_part, ◌+ℤ◌, ◌*ℤ◌, +ℤ_parts, eq_of_parts, sided}
use sure.Money.{Money, nanos_mod, money_sum, money_multiply_slow, value, IsValid, Fits}
use sure.Money.Sum.{money_sum-value, money_sum-IsValid_iff, sum_bounds, value_parts}

-- The whole units of an amount, without their sign.
abbrev pub magnitude : Money → ℕ
magnitude m = pos_part m.units + neg_part m.units

-- The absolute value of an amount lies between its whole units and one unit more.
value_bounds :
    (m : Money)
    → IsValid m
    → (magnitude m * nanos_mod ≤ pos_part (value m) + neg_part (value m))
      × (pos_part (value m) + neg_part (value m) < (magnitude m + 1) * nanos_mod)
value_bounds m v = grind (arith, value_parts m, sided m.units, sided m.nanos, sided (value m))

double_parts : (a : ℤ) → pos_part (a +ℤ a) + neg_part (a +ℤ a) ≡ 2 * (pos_part a + neg_part a)
unfolding ◌+ℤ◌
double_parts a = ground arith

-- A doubled amount: still valid, not zero, and with at most one unit more than twice as many.
doubled :
    (m : Money)
    → IsValid m
    → 0 < magnitude m
    → magnitude m < 2 ^ 61
    → (value (money_sum m m) ≡ value m +ℤ value m)
      × IsValid (money_sum m m)
      × (0 < magnitude (money_sum m m))
      × (magnitude (money_sum m m) + 1 ≤ 2 * (magnitude m + 1))
doubled m v h k = (
  same,
  valid,
  omega (arith, size, value_bounds m v, value_bounds (money_sum m m) valid),
  omega (arith, size, value_bounds m v, value_bounds (money_sum m m) valid),
)
  where
    fits : Fits (m.units +ℤ m.units)
    fits = omega (arith, sum_bounds m.units m.units)

    cancel : m.units +ℤ m.units ≢ pos 0
    cancel z = omega (arith, +ℤ_parts m.units m.units, ap pos_part z, ap neg_part z, sided m.units)

    same : value (money_sum m m) ≡ value m +ℤ value m
    same = money_sum-value m m v v fits (λ z. absurd (cancel z))

    valid : IsValid (money_sum m m)
    valid = (money_sum-IsValid_iff m m v v fits).1 (λ z. absurd (cancel z))

    size :
        pos_part (value (money_sum m m)) + neg_part (value (money_sum m m))
        ≡ 2 * (pos_part (value m) + neg_part (value m))
    size = ap (λ a. pos_part a + neg_part a) same ∙ double_parts (value m)

times_parts :
    (a : ℤ) (k : ℕ)
    → (pos_part (a *ℤ pos k) ≡ pos_part a * k) × (neg_part (a *ℤ pos k) ≡ neg_part a * k)
unfolding ◌*ℤ◌
times_parts (pos n) k = ground arith
times_parts (negsuc n) k = ground arith

double_each : (a : ℤ) → (pos_part (a +ℤ a) ≡ 2 * pos_part a) × (neg_part (a +ℤ a) ≡ 2 * neg_part a)
unfolding ◌+ℤ◌
double_each (pos n) = ground arith
double_each (negsuc n) = ground arith

double_times : (a : ℤ) (p : ℕ) → (a +ℤ a) *ℤ pos p ≡ a *ℤ pos (p * 2)
double_times a p = eq_of_parts _ _ (
    omega (
      arith,
      times_parts (a +ℤ a) p,
      times_parts a (p * 2),
      ap (λ (t : ℕ). t * p) (double_each a).0,
      ap (λ (t : ℕ). t * p) (double_each a).1,
    ))

room_step :
    (s m p : ℕ) {q k : ℕ} → s + 1 ≤ 2 * (m + 1) → q ≡ p * 2 → (m + 1) * q ≤ k → (s + 1) * p ≤ k
room_step s m p h e l = omega (arith, mul-le-mul_right p h, ap (λ (t : ℕ). (m + 1) * t) e)

room_small : {m p q k : ℕ} → 1 ≤ p → q ≡ p * 2 → (m + 1) * q ≤ 2 * k → m < k
room_small h e l = grind arith

suc-lt-pow : (n : ℕ) → suc (suc (suc n)) < 2 ^ suc (suc n)
suc-lt-pow zero = omega arith
suc-lt-pow (suc n) = omega (arith, suc-lt-pow n, pow-suc 2 (suc (suc n)))

-- A number that is not zero is told from the others by what it is multiplied by.
times_cancel : (x y a b : ℕ) → 0 < x + y → x * a ≡ x * b → y * a ≡ y * b → a < b → ⊥
times_cancel zero y a b h e f l = grind arith
times_cancel (suc x) y a b h e f l = grind arith

products_differ :
    (a : ℤ) (n : ℕ)
    → 0 < pos_part a + neg_part a
    → a *ℤ pos (2 ^ suc (suc n)) ≢ a *ℤ pos (suc (suc (suc n)))
products_differ a n h e =
    times_cancel (pos_part a) (neg_part a) (suc (suc (suc n))) (2 ^ suc (suc n)) h
      (sym (times_parts a _).0 ∙ ap pos_part (sym e) ∙ (times_parts a _).0)
      (sym (times_parts a _).1 ∙ ap neg_part (sym e) ∙ (times_parts a _).1) (suc-lt-pow n)

-- A valid amount of at least one unit is doubled once for each item after the first: `n + 1` items
-- come to `2 ^ n` times the amount, as long as the result fits. The result is valid.
pub money_multiply_slow-value :
    (n : ℕ) (m : Money)
    → IsValid m
    → 0 < magnitude m
    → (magnitude m + 1) * 2 ^ n ≤ 2 ^ 62
    → (value (money_multiply_slow m (suc n)) ≡ value m *ℤ pos (2 ^ n))
      × IsValid (money_multiply_slow m (suc n))
unfolding money_multiply_slow
money_multiply_slow-value zero m v h k =
    (eq_of_parts _ _ (omega (arith, times_parts (value m) 1)), v)
money_multiply_slow-value (suc n) m v h k =
    let d : _ =
      doubled m v h (room_small {p = 2 ^ n} (one-le-pow n 2 (omega arith)) (pow-suc 2 n) k) in
    let r : _ =
      money_multiply_slow-value n (money_sum m m) d.1 d.2
        (room_step (magnitude (money_sum m m)) (magnitude m) (2 ^ n) d.3 (pow-suc 2 n) k) in
    (r.0 ∙ rw (d.0, double_times (value m) (2 ^ n), pow-suc 2 n), r.1)

-- For a valid amount of at least one unit and `n + 1` items, as long as `2 ^ n` times the amount fits: the
-- result is `n + 1` times the amount exactly if there are one or two items.
pub money_multiply_slow-exact_iff :
    (n : ℕ) (m : Money)
    → IsValid m
    → 0 < magnitude m
    → (magnitude m + 1) * 2 ^ n ≤ 2 ^ 62
    → (value (money_multiply_slow m (suc n)) ≡ value m *ℤ pos (suc n)) ↔ (n ≤ 1)
money_multiply_slow-exact_iff zero m v h k =
    (λ _. omega arith, λ _. (money_multiply_slow-value 0 m v h k).0)
money_multiply_slow-exact_iff (suc zero) m v h k =
    (λ _. omega arith, λ _. (money_multiply_slow-value 1 m v h k).0)
money_multiply_slow-exact_iff (suc (suc n)) m v h k = (
  λ e. absurd (
      products_differ (value m) n (omega (arith, value_bounds m v))
        (sym (money_multiply_slow-value (suc (suc n)) m v h k).0 ∙ e)),
  λ l. absurd (omega arith),
)
