-- ===== src/Service/Process/Framing/First.antt =====
-- The first part of a message in `process_desc` (apps/boutique/sure/common/service/service.h).
use sure.Prelude.{
  ℕ, ◌≤◌, ◌<◌, ◌≡◌, refl, sym, ap, ◌∙◌, inl, inr, Bool, true, false, none, some, List, [], ◌++◌,
  append-nil, length, take, length-take, length-drop, take-append-drop, get_or-take,
  get_or-append_left, ltb, leb, ◌==◌, Bool-cases, Option-cases, ==_iff, ltb→lt, arith,
}
use sure.Message.Size.{get_rpc_size, header_size, get_rpc_size_bounds}
use sure.Service.Unimsg.{Desc, size, Unimsg}
use sure.Service.Process.{
  returns, exits, PendingBuffer, command_at, sub_u32, move_data, emptied, move_to_new,
  begin_message, first_part,
}
use sure.Service.Process.Framing.{IsIdle, Accounts, subst-Accounts}

command_at-take : (n : ℕ) (bs : List ℕ) → 8 ≤ n → command_at (take n bs) ≡ command_at bs
unfolding command_at
command_at-take n bs h = omega (
  arith,
  get_or-take n bs 4 0 (omega arith),
  get_or-take n bs 5 0 (omega arith),
  get_or-take n bs 6 0 (omega arith),
  get_or-take n bs 7 0 (omega arith),
)

pub command_at-append : (xs ys : List ℕ) → 8 ≤ length xs → command_at (xs ++ ys) ≡ command_at xs
unfolding command_at
command_at-append xs ys h = omega (
  arith,
  get_or-append_left xs ys 4 0 (omega arith),
  get_or-append_left xs ys 5 0 (omega arith),
  get_or-append_left xs ys 6 0 (omega arith),
  get_or-append_left xs ys 7 0 (omega arith),
)

module _ (u : Unimsg) where
  open u use {World, buffer_size, buffer_get}

  move_to_new-none :
      (done : Bool) (expected n : ℕ) (d : Desc) (w : World)
      → buffer_get w ≡ none
      → move_to_new u done expected d n w ≡ exits
  unfolding move_to_new
  move_to_new-none done expected n d w e = rw (e, move_to_new)

  move_to_new-some :
      (done : Bool) (expected n : ℕ) (d fresh : Desc) (w w' : World)
      → buffer_get w ≡ some (fresh, w')
      → move_to_new u done expected d n w ≡ (
          let (dst, src) = move_data (emptied fresh) d n in
          returns (done, record { desc = dst; expected_sz = expected }, src, w'))
  unfolding move_to_new
  move_to_new-some done expected n d fresh w w' e = rw (e, move_to_new)

  module _
      (get_addr : (w w' : World) (d : Desc) → buffer_get w ≡ some (d, w') → d.addr ≡ true) where
    -- A message begins in a buffer without room for the rest.
    move_part-Accounts :
        (expected : ℕ) (p : PendingBuffer) (d : Desc) (w : World)
        → p.desc.bytes ≡ []
        → get_rpc_size (command_at d.bytes) ≡ some expected
        → 8 ≤ size d
        → size d < expected
        → Accounts u p d (move_to_new u false expected d (size d) w)
    move_part-Accounts expected p d w e g k c = elim (Option-cases (buffer_get w)) [
      | inl refused ↦ subst-Accounts u p d (move_to_new-none false expected (size d) d w refused) tt
      | inr ((fresh, w'), got) ↦
          subst-Accounts u p d (move_to_new-some false expected (size d) d fresh w w' got) (
            rw e (sym (take-append-drop (size d) d.bytes)),
            inl (
              get_addr w w' fresh got,
              rw (command_at-take (size d) d.bytes k) g,
              omega (arith, length-take (size d) d.bytes),
              omega (arith, length-take (size d) d.bytes),
            ),
            inl (omega (arith, length-drop (size d) d.bytes)),
            refl,
          )
    ]

    -- More than a message stands in a buffer.
    move_whole-Accounts :
        (expected : ℕ) (p : PendingBuffer) (d : Desc) (w : World)
        → p.desc.bytes ≡ []
        → get_rpc_size (command_at d.bytes) ≡ some expected
        → header_size < expected
        → expected < size d
        → Accounts u p d (move_to_new u true expected d expected w)
    move_whole-Accounts expected p d w e g h c = elim (Option-cases (buffer_get w)) [
      | inl refused ↦ subst-Accounts u p d (move_to_new-none true expected expected d w refused) tt
      | inr ((fresh, w'), got) ↦
          subst-Accounts u p d (move_to_new-some true expected expected d fresh w w' got) (
            rw e (sym (take-append-drop expected d.bytes)),
            rw (command_at-take expected d.bytes (omega arith))
                (g ∙ ap some (omega (arith, length-take expected d.bytes))),
            inr (inl (omega (arith, length-drop expected d.bytes))),
            refl,
          )
    ]

    -- The first part of a message.
    begin_message-Accounts :
        (expected : ℕ) (p : PendingBuffer) (d : Desc) (w : World)
        → p.desc.bytes ≡ []
        → d.addr ≡ true
        → get_rpc_size (command_at d.bytes) ≡ some expected
        → header_size < expected
        → 8 ≤ size d
        → Accounts u p d (begin_message u expected d w)
    unfolding begin_message
    begin_message-Accounts expected p d w e a g h k = elim (Bool-cases (size d == expected)) [
      | inl whole ↦
          rw (whole, begin_message, Accounts)
            (rw (e, append-nil), g ∙ ap some (sym ((==_iff _ _).0 whole)), inl refl, refl)
      | inr other ↦ elim (Bool-cases (ltb (size d) expected)) [
        | inr more ↦
            rw (other, more, begin_message, Accounts)
              (move_whole-Accounts expected p d w e g h (ground arith))
        | inl less ↦ elim (Bool-cases (leb expected (sub_u32 (sub_u32 buffer_size 68) d.off))) [
          | inl fits ↦
              rw (other, less, fits, begin_message, Accounts)
                (rw (e, append-nil), inl (a, g, k, ltb→lt _ _ less), inl refl, refl)
          | inr full ↦
              rw (other, less, full, begin_message, Accounts)
                (move_part-Accounts expected p d w e g k (ltb→lt _ _ less))
        ]
      ]
    ]

    -- A part that comes between messages.
    pub first_part-Accounts :
        (p : PendingBuffer) (d : Desc) (w : World)
        → IsIdle p
        → d.addr ≡ true
        → 1 ≤ size d
        → Accounts u p d (first_part u p d w)
    unfolding first_part
    first_part-Accounts p d w (_, e, z) a k = elim (Bool-cases (ltb (size d) header_size)) [
      | inl short ↦
          rw (short, first_part, Accounts)
            (rw (e, append-nil), inr (a, z, k, ground arith), inl refl, refl)
      | inr long ↦ elim (Option-cases (get_rpc_size (command_at d.bytes))) [
        | inl unknown ↦ rw (long, unknown, first_part, Accounts) tt
        | inr (expected, g) ↦
            rw (long, g, first_part, Accounts)
              (begin_message-Accounts expected p d w e a g
                (get_rpc_size_bounds (command_at d.bytes) expected g).0 (ground arith))
      ]
    ]
