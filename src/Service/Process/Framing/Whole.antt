-- ===== src/Service/Process/Framing/Whole.antt =====
-- What one call of `process_desc` (apps/boutique/sure/common/service/service.h) does to the bytes of a stream.
use sure.Prelude.{◌≤◌, ◌≡◌, ap, ◌⊎◌, inl, inr, Bool, true, some, if◌then◌else◌}
use sure.Service.Unimsg.{Desc, size, Unimsg}
use sure.Service.Process.{PendingBuffer, first_part, next_part, process_desc, Processed}
use sure.Service.Process.Framing.{IsPartial, IsSplit, IsPending, Accounts, subst-Accounts}
use sure.Service.Process.Framing.First.{first_part-Accounts}
use sure.Service.Process.Framing.Next.{next_part-Accounts}

module _ (u : Unimsg) where
  open u use {World, buffer_size, buffer_get}

  module _
      (get_addr : (w w' : World) (d : Desc) → buffer_get w ≡ some (d, w') → d.addr ≡ true) where
    -- A call of `process_desc` neither loses nor repeats a byte. It reports a message exactly when the
    -- pending bytes are one; otherwise they are part of one. It uses the descriptor up, or shortens
    -- it, or has just put together a header that came in parts.
    pub process_desc-Accounts :
        (p : PendingBuffer) (d : Desc) (w : World)
        → IsPending p
        → d.addr ≡ true
        → 1 ≤ size d
        → Accounts u p d (process_desc u p d w)
    unfolding process_desc
    process_desc-Accounts p d w (inl i) a h =
        subst-Accounts u p d (ap pick i.0) (first_part-Accounts u get_addr p d w i a h)
      where
        pick : Bool → Processed u
        pick b = if b then next_part u p d w else first_part u p d w
    process_desc-Accounts p d w (inr i) a h =
        subst-Accounts u p d (ap pick (addr_of i)) (next_part-Accounts u p d w i h)
      where
        pick : Bool → Processed u
        pick b = if b then next_part u p d w else first_part u p d w

        addr_of : IsPartial p ⊎ IsSplit p → p.desc.addr ≡ true
        addr_of (inl j) = j.0
        addr_of (inr j) = j.0
