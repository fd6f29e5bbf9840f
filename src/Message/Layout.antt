-- ===== src/Message/Layout.antt =====
-- How C lays out the types of message.h in memory, on x86-64 Linux: each member stands at a multiple
-- of its alignment, and a struct is padded to a multiple of the largest alignment in it.
use sure.Prelude.{ℕ, ◌+◌, ◌-◌, ◌*◌, ◌/◌}
use Prim.Native.Nat.{max}

mutual
  pub data CType : Type 0 where
    char_t int32_t int64_t : CType
    array : ℕ → CType → CType
    struct_of : Members → CType

  pub data Members : Type 0 where
    end : Members
    member : CType → Members → Members

unfoldable mutual
  pub alignof : CType → ℕ
  alignof char_t = 1
  alignof int32_t = 4
  alignof int64_t = 8
  alignof (array n t) = alignof t
  alignof (struct_of ms) = alignof_members ms

  pub alignof_members : Members → ℕ
  alignof_members end = 1
  alignof_members (member t ms) = max (alignof t) (alignof_members ms)

-- The least multiple of `k` that is not below `n`.
abbrev pub round_up : ℕ → ℕ → ℕ
round_up n k = (n + k - 1) / k * k

unfoldable mutual
  unfolding alignof alignof_members

  pub sizeof : CType → ℕ
  sizeof char_t = 1
  sizeof int32_t = 4
  sizeof int64_t = 8
  sizeof (array n t) = n * sizeof t
  sizeof (struct_of ms) = round_up (end_of 0 ms) (alignof_members ms)

  -- The offset behind the last member, where the first stands at or after `offset`.
  pub end_of : ℕ → Members → ℕ
  end_of offset end = offset
  end_of offset (member t ms) = end_of (round_up offset (alignof t) + sizeof t) ms
