-- ===== src/Service/Process/Framing/Next.antt =====
-- A further part of a message in `process_desc` (apps/boutique/sure/common/service/service.h).
use sure.Prelude.{
  ℕ, ◌+◌, ◌-◌, ◌≤◌, ◌<◌, min, ◌≡◌, refl, sym, ap, ◌∙◌, ◌⊎◌, inl, inr, Bool, false, ◌&&◌, some, List,
  ◌++◌, append_assoc, length, take, drop, length-append, length-take, length-drop, take-append-drop,
  ltb, ◌==◌, Bool-cases, ==_iff, arith,
}
use native.Mathlib.Decide.{dec_lt}
use sure.Message.Size.{header_size, get_rpc_size_bounds}
use sure.Service.Unimsg.{Desc, size, Unimsg}
use sure.Service.Process.{PendingBuffer, command_at, move_data, next_part, needed, finish_part}
use sure.Service.Process.Framing.{IsPartial, IsSplit, IsStuck, Accounts, subst-Accounts}
use sure.Service.Process.Framing.First.{command_at-append}

module _ (u : Unimsg) where
  open u use {World, buffer_size, buffer_get}

  needed_partial : (p : PendingBuffer) → IsPartial p → needed u p ≡ p.expected_sz - size p.desc
  unfolding needed
  needed_partial p (a, g, l, k) =
      ground (arith, get_rpc_size_bounds (command_at p.desc.bytes) p.expected_sz g)

  pub needed_split : (p : PendingBuffer) → IsSplit p → needed u p ≡ header_size - size p.desc
  unfolding needed
  needed_split p (a, z, l, k) = ground arith

  -- The bytes of the two descriptors, before and after a move.
  moved : (xs ys : List ℕ) (n : ℕ) → xs ++ ys ≡ (xs ++ take n ys) ++ drop n ys
  moved xs ys n =
      sym (append_assoc xs (take n ys) (drop n ys) ∙ ap (◌++◌ xs) (take-append-drop n ys))

  pub length-moved :
      (xs ys : List ℕ) (n : ℕ)
      → (length (xs ++ take n ys) ≡ length xs + min n (length ys))
        × (length (drop n ys) ≡ length ys - n)
  length-moved xs ys n =
      (omega (arith, length-append xs (take n ys), length-take n ys), length-drop n ys)

  finish_partial-Accounts :
      (p : PendingBuffer) (d : Desc) (n : ℕ) (w : World)
      → IsPartial p
      → 1 ≤ size d
      → n ≡ min (p.expected_sz - size p.desc) (size d)
      → let (dst, src) = move_data p.desc d n in
        Accounts u p d (finish_part u p.expected_sz dst src w)
  unfolding finish_part
  finish_partial-Accounts p d n w (a, g, l, k) h e =
      let dst : List ℕ = p.desc.bytes ++ take n d.bytes in
      let c : command_at dst ≡ command_at p.desc.bytes =
        command_at-append p.desc.bytes (take n d.bytes) l in
      elim (Bool-cases (length dst == p.expected_sz)) [
        | inl whole ↦
            rw (whole, finish_part, Accounts)
              (
                moved p.desc.bytes d.bytes n,
                rw c (g ∙ ap some (sym ((==_iff _ _).0 whole))),
                inr (inl (omega (arith, length-moved p.desc.bytes d.bytes n))),
                refl,
              )
        | inr more ↦
            rw (more, finish_part, Accounts)
              (
                moved p.desc.bytes d.bytes n,
                inl (
                  a,
                  rw c g,
                  omega (arith, length-moved p.desc.bytes d.bytes n),
                  ground (arith, length-moved p.desc.bytes d.bytes n),
                ),
                inr (inl (omega (arith, length-moved p.desc.bytes d.bytes n))),
                refl,
              )
      ]

  finish_split-Accounts :
      (p : PendingBuffer) (d : Desc) (n : ℕ) (w : World)
      → IsSplit p
      → 1 ≤ size d
      → n ≡ min (header_size - size p.desc) (size d)
      → let (dst, src) = move_data p.desc d n in
        Accounts u p d (finish_part u p.expected_sz dst src w)
  unfolding finish_part
  finish_split-Accounts p d n w (a, z, l, k) h e =
      let dst : List ℕ = p.desc.bytes ++ take n d.bytes in
      let short : (length dst == p.expected_sz) ≡ false =
        ground (arith, length-moved p.desc.bytes d.bytes n) in
      rw (short, finish_part, Accounts)
        (
          moved p.desc.bytes d.bytes n,
          inr (
            a,
            z,
            omega (arith, length-moved p.desc.bytes d.bytes n),
            omega (arith, length-moved p.desc.bytes d.bytes n),
          ),
          progress,
          refl,
        )
    where
      progress :
          (length (drop n d.bytes) ≡ 0)
          ⊎ ((length (drop n d.bytes) < size d)
              ⊎ ((◌≡◌ {A = Bool} false false)
                  × IsStuck (record p {
                    desc = record p.desc { bytes = p.desc.bytes ++ take n d.bytes };
                  })))
      progress = elim (dec_lt (size p.desc) header_size) [
        | yes lt ↦ inr (inl (omega (arith, length-moved p.desc.bytes d.bytes n)))
        | no ge ↦ inr (inr (refl, (a, z, omega (arith, length-moved p.desc.bytes d.bytes n))))
      ]

  pub next_part-finish :
      (p : PendingBuffer) (d : Desc) (w : World)
      → let (dst, src) = move_data p.desc d (min (needed u p) (size d)) in
        (p.expected_sz == 0 && ltb header_size (size dst)) ≡ false
        → next_part u p d w ≡ finish_part u p.expected_sz dst src w
  unfolding next_part
  next_part-finish p d w h = rw (h, next_part)

  -- A part that comes within a message.
  pub next_part-Accounts :
      (p : PendingBuffer) (d : Desc) (w : World)
      → IsPartial p ⊎ IsSplit p
      → 1 ≤ size d
      → Accounts u p d (next_part u p d w)
  next_part-Accounts p d w (inl i) h =
      subst-Accounts u p d (next_part-finish p d w (ground (arith, i.0)))
        (finish_partial-Accounts p d _ w i h (ap (λ n. min n (size d)) (needed_partial p i)))
  next_part-Accounts p d w (inr i) h =
      subst-Accounts u p d
        (next_part-finish p d w (
          ground (
            arith,
            needed_split p i,
            length-moved p.desc.bytes d.bytes (min (needed u p) (size d)),
          )))
        (finish_split-Accounts p d _ w i h (ap (λ n. min n (size d)) (needed_split p i)))
