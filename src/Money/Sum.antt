-- ===== src/Money/Sum.antt =====
-- What `MoneySum` of apps/boutique/sure/common/service/utilities.h does to the value and to the form of an amount.
use sure.Prelude.{
  zero, suc, ◌+◌, ◌-◌, ◌*◌, ◌^◌, ◌≤◌, ◌<◌, ◌≡◌, refl, ◌≢◌, ◌⊎◌, ◌↔◌, inl, inr, subst, arith,
}
use sure.Prelude.Int.{
  ℤ, pos, negsuc, pos_part, neg_part, ◌+ℤ◌, ◌-ℤ◌, ◌*ℤ◌, quot_ℤ, rem_ℤ, to_i32, to_i64, to_i32_lem,
  to_i64_lem, +ℤ_parts, eq_of_parts,
}
use native.Mathlib.Decide.{dec_lt}
use sure.Money.{Money, nanos_mod, settle, money_sum, value, IsValid, Fits}

-- The carried amount, with the conversions to machine integers left out.
settle_parts :
    (t : Money) (u n : ℤ)
    → Fits u
    → pos_part n < 2 * nanos_mod
    → neg_part n < 2 * nanos_mod
    → (u ≡ pos 0 → neg_part n ≤ 2 ^ 31 - nanos_mod)
    → pos_part (settle t u n).units * nanos_mod
        + pos_part (settle t u n).nanos
        + neg_part u * nanos_mod
        + neg_part n
      ≡ neg_part (settle t u n).units * nanos_mod
        + neg_part (settle t u n).nanos
        + pos_part u * nanos_mod
        + pos_part n
unfolding settle quot_ℤ rem_ℤ ◌+ℤ◌ ◌-ℤ◌
settle_parts t (pos zero) (pos n) f h k z = ground (
  arith,
  to_i64_lem (pos 0 +ℤ quot_ℤ (pos n) nanos_mod),
  to_i64_lem (pos 0 +ℤ pos 1),
  to_i32_lem (pos n -ℤ pos nanos_mod),
)
settle_parts t (pos (suc u)) (pos n) f h k z = ground (
  arith,
  to_i64_lem (pos (suc u) +ℤ quot_ℤ (pos n) nanos_mod),
  to_i64_lem (pos (suc u) +ℤ pos 1),
  to_i32_lem (pos n -ℤ pos nanos_mod),
)
settle_parts t (pos zero) (negsuc n) f h k z = ground (
  arith,
  z refl,
  to_i64_lem (pos 0 +ℤ quot_ℤ (negsuc n) nanos_mod),
  to_i64_lem (pos 0 +ℤ pos 1),
  to_i32_lem (negsuc n -ℤ pos nanos_mod),
)
settle_parts t (pos (suc u)) (negsuc n) f h k z = ground (
  arith,
  to_i64_lem (pos (suc u) +ℤ quot_ℤ (negsuc n) nanos_mod),
  to_i64_lem (pos (suc u) +ℤ pos 1),
  to_i64_lem (pos (suc u) -ℤ pos 1),
  to_i32_lem (negsuc n -ℤ pos nanos_mod),
  to_i32_lem (negsuc n +ℤ pos nanos_mod),
)
settle_parts t (negsuc u) (pos n) f h k z = ground (
  arith,
  to_i64_lem (negsuc u +ℤ pos 1),
  to_i32_lem (pos n -ℤ pos nanos_mod),
  to_i64_lem (negsuc u +ℤ quot_ℤ (pos n) nanos_mod),
)
settle_parts t (negsuc u) (negsuc n) f h k z =
    ground (arith, to_i64_lem (negsuc u +ℤ quot_ℤ (negsuc n) nanos_mod))

pub value_parts :
    (m : Money)
    → pos_part (value m) + neg_part m.units * nanos_mod + neg_part m.nanos
      ≡ neg_part (value m) + pos_part m.units * nanos_mod + pos_part m.nanos
unfolding ◌+ℤ◌ ◌*ℤ◌
value_parts m = by_sign m.units m.nanos
  where
    by_sign :
        (u n : ℤ)
        → pos_part (u *ℤ pos nanos_mod +ℤ n) + neg_part u * nanos_mod + neg_part n
          ≡ neg_part (u *ℤ pos nanos_mod +ℤ n) + pos_part u * nanos_mod + pos_part n
    by_sign (pos u) (pos n) = ground arith
    by_sign (pos u) (negsuc n) = ground arith
    by_sign (negsuc u) (pos n) = ground arith
    by_sign (negsuc u) (negsuc n) = ground arith

pub sum_bounds :
    (a b : ℤ)
    → (pos_part (a +ℤ b) ≤ pos_part a + pos_part b) × (neg_part (a +ℤ b) ≤ neg_part a + neg_part b)
unfolding ◌+ℤ◌
sum_bounds a b = ground arith

-- The two sums that `MoneySum` makes first do not wrap.
pub sums_fit :
    (t a : Money)
    → IsValid t
    → IsValid a
    → Fits (t.units +ℤ a.units)
    → (to_i64 (t.units +ℤ a.units) ≡ t.units +ℤ a.units)
      × (to_i32 (t.nanos +ℤ a.nanos) ≡ t.nanos +ℤ a.nanos)
sums_fit t a v w f = (
  to_i64_lem (t.units +ℤ a.units) (omega arith) (omega arith),
  to_i32_lem (t.nanos +ℤ a.nanos) (omega (arith, sum_bounds t.nanos a.nanos))
      (omega (arith, sum_bounds t.nanos a.nanos)),
)

-- Summing two valid amounts adds their values exactly, if the units do not overflow and a sum of
-- units of zero does not come with a sum of nanos below -1147483648.
pub money_sum-value :
    (t a : Money)
    → IsValid t
    → IsValid a
    → Fits (t.units +ℤ a.units)
    → (t.units +ℤ a.units ≡ pos 0 → neg_part (t.nanos +ℤ a.nanos) ≤ 2 ^ 31 - nanos_mod)
    → value (money_sum t a) ≡ value t +ℤ value a
unfolding money_sum
money_sum-value t a v w f z =
    rw ((sums_fit t a v w f).0, (sums_fit t a v w f).1)
      (eq_of_parts _ _ (
        omega (
          arith,
          +ℤ_parts (value t) (value a),
          +ℤ_parts t.units a.units,
          +ℤ_parts t.nanos a.nanos,
          value_parts t,
          value_parts a,
          value_parts (settle t (t.units +ℤ a.units) (t.nanos +ℤ a.nanos)),
          settle_parts t (t.units +ℤ a.units) (t.nanos +ℤ a.nanos) f
              (omega (arith, sum_bounds t.nanos a.nanos))
              (omega (arith, sum_bounds t.nanos a.nanos)) z,
        )))

-- The sum of no units is right if there is nothing to carry or a whole unit to carry.
abbrev pub Carries : ℤ → ℤ → Type 0
Carries u n = u ≡ pos 0 → (n ≡ pos 0) ⊎ (nanos_mod ≤ pos_part n)

settle-IsValid :
    (t : Money) (u n : ℤ)
    → Fits u
    → pos_part n < 2 * nanos_mod
    → neg_part n < 2 * nanos_mod
    → (0 < pos_part u → neg_part n < nanos_mod)
    → (0 < neg_part u → pos_part n < nanos_mod)
    → Carries u n
    → IsValid (settle t u n)
unfolding settle quot_ℤ rem_ℤ ◌+ℤ◌ ◌-ℤ◌
settle-IsValid t (pos zero) (pos n) f h k p q c = ground (
  arith,
  c refl,
  to_i64_lem (pos 0 +ℤ quot_ℤ (pos n) nanos_mod),
  to_i64_lem (pos 0 +ℤ pos 1),
  to_i32_lem (pos n -ℤ pos nanos_mod),
)
settle-IsValid t (pos zero) (negsuc n) f h k p q c = ground (arith, c refl)
settle-IsValid t (pos (suc u)) (pos n) f h k p q c =
    ground (arith, to_i64_lem (pos (suc u) +ℤ quot_ℤ (pos n) nanos_mod))
settle-IsValid t (pos (suc u)) (negsuc n) f h k p q c =
    ground (arith, to_i64_lem (pos (suc u) -ℤ pos 1), to_i32_lem (negsuc n +ℤ pos nanos_mod))
settle-IsValid t (negsuc u) (pos n) f h k p q c = ground (
  arith,
  to_i64_lem (negsuc u +ℤ pos 1),
  to_i32_lem (pos n -ℤ pos nanos_mod),
  to_i64_lem (negsuc u +ℤ quot_ℤ (pos n) nanos_mod),
)
settle-IsValid t (negsuc u) (negsuc n) f h k p q c =
    ground (arith, to_i64_lem (negsuc u +ℤ quot_ℤ (negsuc n) nanos_mod))

-- With no units, fewer nanos than a unit are carried the wrong way.
settle-not-IsValid :
    (t : Money) (n : ℤ)
    → n ≢ pos 0
    → pos_part n < nanos_mod
    → neg_part n < 2 * nanos_mod
    → ¬ IsValid (settle t (pos 0) n)
unfolding settle ◌+ℤ◌ ◌-ℤ◌ to_i32 to_i64
settle-not-IsValid t (pos zero) ne h k v = ne refl
settle-not-IsValid t (pos (suc n)) ne h k v = ground arith
settle-not-IsValid t (negsuc n) ne h k v = ground arith

carry_cases :
    (n : ℤ) → ((n ≡ pos 0) ⊎ (nanos_mod ≤ pos_part n)) ⊎ ((n ≢ pos 0) × (pos_part n < nanos_mod))
carry_cases (pos zero) = inl (inl refl)
carry_cases (pos (suc n)) = elim (dec_lt (suc n) nanos_mod) [
  | yes p ↦ inr (λ e. cc, p)
  | no p ↦ inl (inr (omega arith))
]
carry_cases (negsuc n) = inr (λ e. cc, omega arith)

settle-IsValid_iff :
    (t : Money) (u n : ℤ)
    → Fits u
    → pos_part n < 2 * nanos_mod
    → neg_part n < 2 * nanos_mod
    → (0 < pos_part u → neg_part n < nanos_mod)
    → (0 < neg_part u → pos_part n < nanos_mod)
    → IsValid (settle t u n) ↔ Carries u n
settle-IsValid_iff t u n f h k p q = (needed, settle-IsValid t u n f h k p q)
  where
    needed : IsValid (settle t u n) → Carries u n
    needed v z = elim (carry_cases n) [
      | inl c ↦ c
      | inr (ne, lt) ↦
          absurd (settle-not-IsValid t n ne lt k (subst (λ x. IsValid (settle t x n)) z v))
    ]

-- Summing two valid amounts, whose units do not overflow, gives a valid amount exactly if the units
-- do not cancel, or nothing is left of the nanos, or the nanos make up a whole positive unit.
pub money_sum-IsValid_iff :
    (t a : Money)
    → IsValid t
    → IsValid a
    → Fits (t.units +ℤ a.units)
    → IsValid (money_sum t a) ↔ Carries (t.units +ℤ a.units) (t.nanos +ℤ a.nanos)
unfolding money_sum
money_sum-IsValid_iff t a v w f =
    rw ((sums_fit t a v w f).0, (sums_fit t a v w f).1)
      (settle-IsValid_iff t (t.units +ℤ a.units) (t.nanos +ℤ a.nanos) f (omega (arith, bounds))
        (omega (arith, bounds)) (λ h. grind (arith, bounds, sum_bounds t.units a.units))
        (λ h. grind (arith, bounds, sum_bounds t.units a.units)))
  where
    bounds :
        (pos_part (t.nanos +ℤ a.nanos) ≤ pos_part t.nanos + pos_part a.nanos)
        × (neg_part (t.nanos +ℤ a.nanos) ≤ neg_part t.nanos + neg_part a.nanos)
    bounds = sum_bounds t.nanos a.nanos
