-- ===== src/Service/Process.antt =====
-- `struct pending_buffer`, `move_data` and `process_desc` of apps/boutique/sure/common/service/service.h.
pub mod Framing
pub mod Stuck
use sure.Prelude.{
  ℕ, ◌+◌, ◌-◌, ◌*◌, ◌%◌, ◌^◌, min, Bool, true, false, ◌&&◌, none, some, List, [], ◌∷◌, ◌++◌, take,
  drop, get_or, ltb, leb, ◌==◌, if◌then◌else◌,
}
use sure.Message.Size.{get_rpc_size, header_size}
use sure.Service.Unimsg.{Desc, size, Unimsg}

-- `exits` is a call of `exit(1)`.
pub data Exec {ℓ} (A : Type ℓ) : Type ℓ where
  returns : A → Exec A
  exits : Exec A

pub record PendingBuffer : Type 0 where
  pub desc : Desc
  pub expected_sz : ℕ

-- `unsigned` addition and subtraction
abbrev pub add_u32 : ℕ → ℕ → ℕ
add_u32 a b = (a + b) % 2 ^ 32

abbrev pub sub_u32 : ℕ → ℕ → ℕ
sub_u32 a b = (a + 2 ^ 32 - b) % 2 ^ 32

-- `rpc->command` of a message: the second word of the header.
unfoldable pub command_at : List ℕ → ℕ
command_at bs = get_or bs 4 0 + 256 * (get_or bs 5 0 + 256 * (get_or bs 6 0 + 256 * get_or bs 7 0))

-- `move_data`: the new `*dst` and `*src`. A `memcpy` behind the bytes of `dst` makes them more.
abbrev pub move_data : Desc → Desc → ℕ → Desc × Desc
move_data dst src n = (
  record dst { bytes = dst.bytes ++ take n src.bytes },
  record src { off = add_u32 src.off n; bytes = drop n src.bytes },
)

-- `desc->size = 0`
abbrev pub emptied : Desc → Desc
emptied d = record d { bytes = [] }

module _ (u : Unimsg) where
  open u use {World, buffer_size, buffer_get, buffer_put}

  -- What `process_desc` returns, beside the new `*pending` and `*desc`.
  abbrev pub Processed : Type 0
  Processed = Exec (Bool × PendingBuffer × Desc × World)

  -- Moves the first bytes of a descriptor to a new buffer.
  unfoldable pub move_to_new : Bool → ℕ → Desc → ℕ → World → Processed
  move_to_new complete expected desc n w = elim (buffer_get w) [
    | none ↦ exits
    | some (fresh, w') ↦
        let (dst, src) = move_data (emptied fresh) desc n in
        returns (complete, record { desc = dst; expected_sz = expected }, src, w')
  ]

  -- Nothing is pending, and the header says how many bytes to expect.
  unfoldable pub begin_message : ℕ → Desc → World → Processed
  begin_message expected desc w =
      if size desc == expected
      then returns (true, record { desc = desc; expected_sz = expected }, emptied desc, w)
      else if ltb (size desc) expected
      then (if leb expected (sub_u32 (sub_u32 buffer_size 68) desc.off)
          then returns (false, record { desc = desc; expected_sz = expected }, emptied desc, w)
          else move_to_new false expected desc (size desc) w)
      else move_to_new true expected desc expected w

  -- Nothing is pending.
  unfoldable pub first_part : PendingBuffer → Desc → World → Processed
  first_part pending desc w =
      if ltb (size desc) header_size
      then returns (false, record pending { desc = desc }, emptied desc, w)
      else elim (get_rpc_size (command_at desc.bytes)) [
        | none ↦ exits
        | some expected ↦ begin_message expected desc w
      ]

  -- The bytes that a pending message wants next.
  unfoldable pub needed : PendingBuffer → ℕ
  needed pending =
      if pending.expected_sz == 0
      then sub_u32 header_size (size pending.desc)
      else sub_u32 pending.expected_sz (size pending.desc)

  -- The end of `process_desc`, with `expected_sz` known.
  unfoldable pub finish_part : ℕ → Desc → Desc → World → Processed
  finish_part expected dst src w = returns (
    size dst == expected,
    record { desc = dst; expected_sz = expected },
    src,
    (if size src == 0 then buffer_put (src ∷ []) w else w),
  )

  -- Something is pending.
  unfoldable pub next_part : PendingBuffer → Desc → World → Processed
  next_part pending desc w =
      let (dst, src) = move_data pending.desc desc (min (needed pending) (size desc)) in
      if pending.expected_sz == 0 && ltb header_size (size dst)
      then (elim (get_rpc_size (command_at dst.bytes)) [
        | none ↦ exits
        | some expected ↦ finish_part expected dst src w
      ])
      else finish_part pending.expected_sz dst src w

  -- `process_desc`: whether a message is complete.
  unfoldable pub process_desc : PendingBuffer → Desc → World → Processed
  process_desc pending desc w =
      if pending.desc.addr then next_part pending desc w else first_part pending desc w
