-- ===== src/Service/Process/Stuck.antt =====
-- `process_desc` (apps/boutique/sure/common/service/service.h) on a message whose header came in parts.
use sure.Prelude.{
  ◌+◌, ◌-◌, ◌≤◌, ◌<◌, min, ◌≡◌, ap, ◌∙◌, false, ◌++◌, append-nil, length, take, drop, ◌==◌,
  if◌then◌else◌, lt→ltb, arith,
}
use sure.Message.Size.{header_size}
use sure.Service.Unimsg.{Desc, size, Unimsg}
use sure.Service.Process.{
  returns, PendingBuffer, add_u32, emptied, first_part, next_part, needed, finish_part,
  process_desc,
}
use sure.Service.Process.Framing.{IsIdle, IsSplit, IsStuck}
use sure.Service.Process.Framing.Next.{next_part-finish, needed_split, length-moved}

module _ (u : Unimsg) (p : PendingBuffer) (d : Desc) (w : u.World) where
  -- The first part of a header is kept.
  pub process_desc-short :
      IsIdle p
      → size d < header_size
      → process_desc u p d w ≡ returns (false, record p { desc = d }, emptied d, w)
  unfolding process_desc first_part
  process_desc-short i k = rw (i.0, lt→ltb _ _ k, process_desc, first_part)

  -- The second part is moved, up to the size of a header, and no message is looked for.
  pub process_desc-second :
      IsSplit p
      → header_size < size p.desc + size d
      → let n = header_size - size p.desc in
        process_desc u p d w
        ≡ returns (
          false,
          record p { desc = record p.desc { bytes = p.desc.bytes ++ take n d.bytes } },
          record d { off = add_u32 d.off n; bytes = drop n d.bytes },
          w,
        )
  unfolding process_desc finish_part
  process_desc-second i k =
      ap (λ b. if b then next_part u p d w else first_part u p d w) i.0
      ∙ next_part-finish u p d w (
          ground (
            arith,
            needed_split u p i,
            length-moved u p.desc.bytes d.bytes (min (needed u p) (size d)),
          ))
      ∙ rw (count, short, left, finish_part)
    where
      count : min (needed u p) (size d) ≡ header_size - size p.desc
      count = omega (arith, needed_split u p i, i.3, k)

      short :
          (length (p.desc.bytes ++ take (header_size - size p.desc) d.bytes) == p.expected_sz)
          ≡ false
      short =
          ground (arith, i.1, i.2, length-moved u p.desc.bytes d.bytes (header_size - size p.desc))

      left : (length (drop (header_size - size p.desc) d.bytes) == 0) ≡ false
      left = ground (arith, length-moved u p.desc.bytes d.bytes (header_size - size p.desc))

  -- A header put together from parts stops everything: nothing is moved any more.
  pub process_desc-stuck :
      IsStuck p
      → 1 ≤ size d
      → process_desc u p d w ≡ returns (false, p, record d { off = add_u32 d.off 0 }, w)
  process_desc-stuck i k =
      process_desc-second (i.0, i.1, omega (arith, i.2), omega (arith, i.2)) (omega (arith, i.2))
      ∙ rw (none_needed, append-nil)
    where
      none_needed : header_size - size p.desc ≡ 0
      none_needed = omega (arith, i.2)
