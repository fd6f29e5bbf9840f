-- ===== src/Service/Process/Framing.antt =====
-- What one call of `process_desc` (apps/boutique/sure/common/service/service.h) does to the bytes of a stream: the
-- states that it may be called in, and what is true behind it.
pub mod First
pub mod Next
pub mod Whole
use sure.Prelude.{
  ℕ, ◌+◌, ◌-◌, ◌≤◌, ◌<◌, min, ◌≡◌, refl, sym, ap, subst, ◌∙◌, ◌⊎◌, inl, inr, Bool, true, false,
  ◌&&◌, none, some, List, [], ◌++◌, append-nil, append_assoc, length, take, drop, length-append,
  length-take, length-drop, take-append-drop, get_or-take, get_or-append_left, ltb, leb, ◌==◌,
  if◌then◌else◌, Bool-cases, Option-cases, ==_iff, ltb→lt, arith,
}
use native.Mathlib.Decide.{dec_lt}
use sure.Message.Size.{get_rpc_size, header_size, get_rpc_size_bounds}
use sure.Service.Unimsg.{Desc, size, Unimsg}
use sure.Service.Process.{
  returns, exits, PendingBuffer, command_at, sub_u32, move_data, emptied, move_to_new,
  begin_message, first_part, next_part, needed, finish_part, process_desc, Processed,
}

-- The bytes are one whole message.
abbrev pub IsMessage : List ℕ → Type 0
IsMessage bs = get_rpc_size (command_at bs) ≡ some (length bs)

-- Between messages.
abbrev pub IsIdle : PendingBuffer → Type 0
IsIdle p = (p.desc.addr ≡ false) × (p.desc.bytes ≡ []) × (p.expected_sz ≡ 0)

-- Within a message whose header is there.
abbrev pub IsPartial : PendingBuffer → Type 0
IsPartial p =
    (p.desc.addr ≡ true)
    × (get_rpc_size (command_at p.desc.bytes) ≡ some p.expected_sz)
    × (header_size ≤ size p.desc)
    × (size p.desc < p.expected_sz)

-- Within a message that came with less than its header.
abbrev pub IsSplit : PendingBuffer → Type 0
IsSplit p =
    (p.desc.addr ≡ true) × (p.expected_sz ≡ 0) × (1 ≤ size p.desc) × (size p.desc ≤ header_size)

-- The states in which `process_desc` may be called.
abbrev pub IsPending : PendingBuffer → Type 0
IsPending p = IsIdle p ⊎ (IsPartial p ⊎ IsSplit p)

-- A whole header has been put together from its parts.
abbrev pub IsStuck : PendingBuffer → Type 0
IsStuck p = (p.desc.addr ≡ true) × (p.expected_sz ≡ 0) × (size p.desc ≡ header_size)

module _ (u : Unimsg) where
  open u use {World, buffer_size, buffer_get}

  -- No byte is lost, doubled or moved; a message is reported exactly when it is whole; and the
  -- descriptor is used up, or gets shorter, or a split header has just been put together.
  abbrev pub Accounts : PendingBuffer → Desc → Processed u → Type 0
  Accounts p d exits = Unit {0}
  Accounts p d (returns (done, p', d', _)) =
      (p.desc.bytes ++ d.bytes ≡ p'.desc.bytes ++ d'.bytes)
      × (if done then IsMessage p'.desc.bytes else (IsPartial p' ⊎ IsSplit p'))
      × ((size d' ≡ 0) ⊎ ((size d' < size d) ⊎ ((done ≡ false) × IsStuck p')))
      × (d'.addr ≡ d.addr)

  pub subst-Accounts :
      (p : PendingBuffer) (d : Desc) {r r' : Processed u}
      → r ≡ r'
      → Accounts p d r'
      → Accounts p d r
  subst-Accounts p d e = subst (Accounts p d) (sym e)
