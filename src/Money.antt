-- ===== src/Money.antt =====
-- apps/boutique/sure/common/service/utilities.h: sums and multiples of amounts of money. The struct
-- `Money` is that of message.h. Signed sums wrap in two's complement.
pub mod Sum
pub mod Multiply
mod Tests
use Prim.Native.String.{String}
use sure.Prelude.{
  ℕ, zero, suc, ◌-◌, ◌^◌, ◌≤◌, ◌<◌, ◌≡◌, Bool, ◌&&◌, ◌||◌, ltb, leb, if◌then◌else◌, arith,
}
use sure.Prelude.Int.{
  ℤ, pos, negsuc, pos_part, neg_part, ◌+ℤ◌, ◌-ℤ◌, ◌*ℤ◌, eqz, gtz, ltz, gez, lez, quot_ℤ, rem_ℤ,
  to_i32, to_i64,
}

-- `struct _money`
pub record Money : Type 0 where
  pub currency_code : String
  pub units : ℤ
  pub nanos : ℤ

-- NANOSMOD
abbrev pub nanos_mod : ℕ
nanos_mod = 1_000_000_000

-- The condition of `MoneySum`: units and nanos have the same sign.
abbrev pub same_sign : ℤ → ℤ → Bool
same_sign units nanos =
    (eqz units && eqz nanos) || (gtz units && gez nanos) || (ltz units && lez nanos)

-- The carry of `MoneySum`, after both fields have been added.
pub settle : Money → ℤ → ℤ → Money
settle total units nanos =
    if same_sign units nanos
    then record total {
      units = to_i64 (units +ℤ quot_ℤ nanos nanos_mod);
      nanos = rem_ℤ nanos nanos_mod;
    }
    else if gtz units
    then record total { units = to_i64 (units -ℤ pos 1); nanos = to_i32 (nanos +ℤ pos nanos_mod) }
    else record total { units = to_i64 (units +ℤ pos 1); nanos = to_i32 (nanos -ℤ pos nanos_mod) }

-- `MoneySum`: the new `*total`. The two arguments may be one object: each field of `add` is read
-- before the field of `total` is written, and none after.
unfoldable pub money_sum : Money → Money → Money
unfolding settle
money_sum total add =
    settle total (to_i64 (total.units +ℤ add.units)) (to_i32 (total.nanos +ℤ add.nanos))

-- `MoneyMultiplySlow`: the loop runs while `n > 1`.
unfoldable pub money_multiply_slow : Money → ℕ → Money
money_multiply_slow total zero = total
money_multiply_slow total (suc zero) = total
money_multiply_slow total (suc (suc n)) = money_multiply_slow (money_sum total total) (suc n)

-- An amount in nanos.
abbrev pub value : Money → ℤ
value m = m.units *ℤ pos nanos_mod +ℤ m.nanos

-- What message.h asks of an amount: the nanos stay within a unit, and do not have the other sign.
pub record IsValid (m : Money) : Type 0 where
  pub below : pos_part m.nanos < nanos_mod
  pub above : neg_part m.nanos < nanos_mod
  pub of_pos : 0 < pos_part m.units → neg_part m.nanos ≡ 0
  pub of_neg : 0 < neg_part m.units → pos_part m.nanos ≡ 0

-- A number of units to which one may be added, or from which one may be taken, within an `int64_t`.
abbrev pub Fits : ℤ → Type 0
Fits a = (pos_part a < 2 ^ 63 - 1) × (neg_part a < 2 ^ 63)
