-- ===== src/Service/Loop/Split.antt =====
-- When the loop over descriptors ends, and the streams on which it does not.
use sure.Prelude.{
  ℕ, zero, suc, ◌+◌, ◌-◌, ◌≤◌, ◌<◌, ◌≡◌, refl, sym, ap, some, subst, ◌∙◌, ◌⊎◌, inl, inr, Bool, true,
  false, List, [], ◌∷◌, ◌++◌, length, take, drop, length-append, ◌==◌, Bool-cases, arith,
}
use native.Mathlib.Decide.{dec_lt}
use sure.Message.Size.{header_size}
use sure.Service.Unimsg.{Desc, size, Unimsg}
use sure.Service.Process.{returns, PendingBuffer, add_u32, emptied, process_desc}
use sure.Service.Process.Framing.{IsIdle, IsPending, IsStuck, Accounts}
use sure.Service.Process.Framing.Next.{length-moved}
use sure.Service.Process.Framing.Whole.{process_desc-Accounts}
use sure.Service.Process.Stuck.{process_desc-short, process_desc-second, process_desc-stuck}
use sure.Service.Loop.{Reaction, LoopEnd, unfinished, cleared, advance, desc_loop}
use sure.Service.Loop.Rounds.{
  Exec-cases, Reaction-cases, loop-part, loop-proceeds, loop-closes, loop-aborts, loop-exits,
}
use sure.Service.Loop.Stream.{stream, AreLive, advance-AreLive, cleared-IsPending}

-- Rounds that are enough: one for each byte and one for each descriptor.
abbrev pub rounds : List Desc → ℕ
rounds ds = length (stream ds) + length ds

advance-live : (d : Desc) (ds : List Desc) → 1 ≤ size d → advance d ds ≡ d ∷ ds
advance-live d ds k = ground arith

-- Fewer rounds are enough for what is left once a descriptor is used up or has become shorter.
rounds-advance :
    (d d' : Desc) (ds : List Desc)
    → (size d' ≡ 0) ⊎ (size d' < size d)
    → rounds (advance d' ds) < rounds (d ∷ ds)
rounds-advance d d' ds c = elim (Bool-cases (size d' == 0)) [
  | inl used ↦ rw used (omega (arith, length-append d.bytes (stream ds)))
  | inr left ↦
      rw left
        (ground (arith, length-append d.bytes (stream ds), length-append d'.bytes (stream ds)))
]

progress :
    (d d' : Desc) (p : PendingBuffer)
    → (size d' ≡ 0) ⊎ ((size d' < size d) ⊎ ((◌≡◌ {A = Bool} true false) × IsStuck p))
    → (size d' ≡ 0) ⊎ (size d' < size d)
progress d d' p (inl used) = inl used
progress d d' p (inr (inl less)) = inr less
progress d d' p (inr (inr (e, _))) = cc

module _ (u : Unimsg) {S : Type 0} (f : Desc → u.World × S → Reaction (u.World × S)) where
  -- Once a header has been put together from parts, the loop stays at the descriptor that it is at.
  pub desc_loop-stuck :
      (fuel : ℕ) (d : Desc) (ds : List Desc) (p : PendingBuffer) (ws : u.World × S)
      → IsStuck p
      → 1 ≤ size d
      → (d' : Desc) × (desc_loop u f fuel (d ∷ ds) p ws ≡ unfinished (d' ∷ ds) p ws)
        × (d'.bytes ≡ d.bytes)
  unfolding desc_loop
  desc_loop-stuck zero d ds p ws i k = (d, refl, refl)
  desc_loop-stuck (suc fuel) d ds p (w, s) i k =
      let d' : Desc = record d { off = add_u32 d.off 0 } in
      let rest : _ = desc_loop-stuck fuel d' ds p (w, s) i k in
      (
        rest.0,
        loop-part u f fuel d d' ds p p w w s (process_desc-stuck u p d w i k)
            ∙ ap (λ l. desc_loop u f fuel l p (w, s)) (advance-live d' ds k)
            ∙ rest.1,
        rest.2,
      )

  -- A message that begins with less than a header, followed in the next descriptor by more than the
  -- rest of the header, is never delivered: however many rounds are made, the loop is still at that
  -- descriptor, nothing has been done with any message, and the pending buffer holds the header.
  pub desc_loop-split_header :
      (fuel : ℕ) (a b : Desc) (ds : List Desc) (p : PendingBuffer) (ws : u.World × S)
      → IsIdle p
      → a.addr ≡ true
      → 1 ≤ size a
      → size a < header_size
      → header_size < size a + size b
      → (p' : PendingBuffer) × (b' : Desc) × (desc_loop u f (suc (suc fuel)) (a ∷ b ∷ ds) p ws
          ≡ unfinished (b' ∷ ds) p' ws)
        × (p'.desc.bytes ≡ a.bytes ++ take (header_size - size a) b.bytes)
        × (b'.bytes ≡ drop (header_size - size a) b.bytes)
  desc_loop-split_header fuel a b ds p (w, s) i live k l m =
      let p1 : PendingBuffer = record p { desc = a } in
      let n : ℕ = header_size - size a in
      let p2 : PendingBuffer = record p1 {
        desc = record a { bytes = a.bytes ++ take n b.bytes };
      } in
      let b1 : Desc = record b { off = add_u32 b.off n; bytes = drop n b.bytes } in
      let long : 1 ≤ size b1 = omega (arith, length-moved u a.bytes b.bytes n) in
      let rest : _ =
        desc_loop-stuck fuel b1 ds p2 (w, s)
          (live, i.2, omega (arith, length-moved u a.bytes b.bytes n)) long in
      (
        p2,
        rest.0,
        loop-part u f (suc fuel) a (emptied a) (b ∷ ds) p p1 w w s (process_desc-short u p a w i l)
            ∙ loop-part u f fuel b b1 ds p1 p2 w w s
                (process_desc-second u p1 b w (live, i.2, k, omega arith) m)
            ∙ ap (λ l. desc_loop u f fuel l p2 (w, s)) (advance-live b1 ds long)
            ∙ rest.1,
        refl,
        rest.2,
      )

  -- Only a split header keeps a loop from its end.
  abbrev pub EndsUnlessStuck : LoopEnd (u.World × S) → Type 0
  EndsUnlessStuck (unfinished _ p _) = IsStuck p
  EndsUnlessStuck _ = Unit {0}

  subst-EndsUnlessStuck :
      {r r' : LoopEnd (u.World × S)} → r ≡ r' → EndsUnlessStuck r' → EndsUnlessStuck r
  subst-EndsUnlessStuck e = subst EndsUnlessStuck (sym e)

  -- After a part of a message: the rest of the loop is shorter, or it is stuck.
  part_ends :
      (fuel : ℕ) (d d' : Desc) (ds : List Desc) (p : PendingBuffer) (ws : u.World × S)
      → (size d' ≡ 0) ⊎ ((size d' < size d) ⊎ ((◌≡◌ {A = Bool} false false) × IsStuck p))
      → ((size d' ≡ 0) ⊎ (size d' < size d)
          → EndsUnlessStuck (desc_loop u f fuel (advance d' ds) p ws))
      → EndsUnlessStuck (desc_loop u f fuel (advance d' ds) p ws)
  part_ends fuel d d' ds p ws (inl used) go = go (inl used)
  part_ends fuel d d' ds p ws (inr (inl less)) go = go (inr less)
  part_ends fuel d d' ds p ws (inr (inr (_, stuck))) go = elim (dec_lt 0 (size d')) [
    | no used ↦ go (inl (omega arith))
    | yes left ↦
        subst-EndsUnlessStuck
          (ap (λ l. desc_loop u f fuel l p ws) (advance-live d' ds left)
            ∙ (desc_loop-stuck fuel d' ds p ws stuck left).1)
          stuck
  ]

  module _
      (get_addr : (w w' : u.World) (d : Desc) → u.buffer_get w ≡ some (d, w') → d.addr ≡ true) where
    -- For descriptors that are not empty, and a pending buffer as `process_desc` leaves it: with a round for
    -- each byte and each descriptor received the loop comes to an end, if it does not meet a header that was
    -- split between descriptors.
    pub desc_loop-ends :
        (fuel : ℕ) (ds : List Desc) (p : PendingBuffer) (ws : u.World × S)
        → AreLive ds
        → IsPending p
        → rounds ds < fuel
        → EndsUnlessStuck (desc_loop u f fuel ds p ws)
    unfolding desc_loop
    desc_loop-ends zero ds p ws h i k = absurd (omega arith)
    desc_loop-ends (suc fuel) [] p ws h i k = tt
    desc_loop-ends (suc fuel) (d ∷ ds) p (w, s) h i k = elim (Exec-cases (process_desc u p d w)) [
      | inl e ↦ subst-EndsUnlessStuck (loop-exits u f fuel d ds p w s e) tt
      | inr ((true, p', d', w'), e) ↦
          let acc : Accounts u p d (returns (true, p', d', w')) =
            subst (Accounts u p d) e (process_desc-Accounts u get_addr p d w i h.0 h.1) in
          elim (Reaction-cases (f p'.desc (w', s))) [
            | inl r ↦ subst-EndsUnlessStuck (loop-aborts u f fuel d d' ds p p' w w' s e r) tt
            | inr (inl (left, ws', r)) ↦
                subst-EndsUnlessStuck (loop-closes u f fuel d d' ds p p' w w' s left ws' e r) tt
            | inr (inr (ws', r)) ↦
                subst-EndsUnlessStuck (loop-proceeds u f fuel d d' ds p p' w w' s ws' e r) (
                  desc_loop-ends fuel (advance d' ds) (cleared p') ws'
                    (advance-AreLive d d' ds h acc.3) (cleared-IsPending p')
                    (omega (arith, rounds-advance d d' ds (progress d d' p' acc.2))))
          ]
      | inr ((false, p', d', w'), e) ↦
          let acc : Accounts u p d (returns (false, p', d', w')) =
            subst (Accounts u p d) e (process_desc-Accounts u get_addr p d w i h.0 h.1) in
          subst-EndsUnlessStuck (loop-part u f fuel d d' ds p p' w w' s e) (
            part_ends fuel d d' ds p' (w', s) acc.2
              (λ c.
                desc_loop-ends fuel (advance d' ds) p' (w', s) (advance-AreLive d d' ds h acc.3)
                  (inr acc.1) (omega (arith, rounds-advance d d' ds c))))
    ]
