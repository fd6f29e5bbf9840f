-- ===== src/Service/Loop/Stream.antt =====
-- What the loop over descriptors does to the stream of bytes that they carry.
use sure.Prelude.{
  ℕ, zero, suc, ◌≤◌, ◌≡◌, refl, sym, ap, subst, ◌∙◌, ◌⊎◌, inl, inr, true, false, some, List, [],
  ◌∷◌, ◌++◌, append-nil, append_assoc, eq_nil_of_length, ◌==◌, Bool-cases, ==_iff, arith,
}
use sure.Service.Unimsg.{Desc, size, Unimsg}
use sure.Service.Process.{returns, PendingBuffer, process_desc}
use sure.Service.Process.Framing.{IsMessage, IsPending, Accounts}
use sure.Service.Process.Framing.Whole.{process_desc-Accounts}
use sure.Service.Loop.Rounds.{
  Exec-cases, Reaction-cases, loop-part, loop-proceeds, loop-closes, loop-aborts, loop-exits,
}
use sure.Service.Loop.{
  Reaction, proceeds, closes, aborts, LoopEnd, finished, closed, aborted, unfinished, cleared,
  advance, desc_loop,
}

-- The bytes of the descriptors, in order; likewise of messages.
abbrev pub stream : List Desc → List ℕ
stream [] = []
stream (d ∷ ds) = d.bytes ++ stream ds

abbrev pub joined : List (List ℕ) → List ℕ
joined [] = []
joined (m ∷ ms) = m ++ joined ms

-- Descriptors as `unimsg_recv` returns them: they have an address and are not empty.
abbrev pub AreLive : List Desc → Type 0
AreLive [] = Unit {0}
AreLive (d ∷ ds) = (d.addr ≡ true) × (1 ≤ size d) × AreLive ds

abbrev pub AreMessages : List (List ℕ) → Type 0
AreMessages [] = Unit {0}
AreMessages (m ∷ ms) = IsMessage m × AreMessages ms

joined-snoc : (ms : List (List ℕ)) (m : List ℕ) → joined (ms ++ m ∷ []) ≡ joined ms ++ m
joined-snoc [] m = append-nil m
joined-snoc (n ∷ ms) m = ap (◌++◌ n) (joined-snoc ms m) ∙ sym (append_assoc n (joined ms) m)

AreMessages-snoc :
    (ms : List (List ℕ)) (m : List ℕ) → AreMessages ms → IsMessage m → AreMessages (ms ++ m ∷ [])
AreMessages-snoc [] m h k = (k, tt)
AreMessages-snoc (n ∷ ms) m h k = (h.0, AreMessages-snoc ms m h.1 k)

pub stream-advance : (d : Desc) (ds : List Desc) → stream (advance d ds) ≡ d.bytes ++ stream ds
stream-advance d ds = elim (Bool-cases (size d == 0)) [
  | inl used ↦ rw (used, eq_nil_of_length d.bytes ((==_iff _ _).0 used))
  | inr left ↦ rw left
]

pub advance-AreLive :
    (d d' : Desc) (ds : List Desc) → AreLive (d ∷ ds) → d'.addr ≡ d.addr → AreLive (advance d' ds)
advance-AreLive d d' ds (a, _, h) e = elim (Bool-cases (size d' == 0)) [
  | inl used ↦ rw used h
  | inr left ↦ rw left (e ∙ a, ground arith, h)
]

pub cleared-IsPending : (p : PendingBuffer) → IsPending (cleared p)
cleared-IsPending p = inl (refl, refl, refl)

-- The bytes of the log, the pending buffer and the descriptors, after a part and after a message.
regroup_part :
    (log p d p' d' rest : List ℕ)
    → p ++ d ≡ p' ++ d'
    → log ++ p ++ (d ++ rest) ≡ log ++ p' ++ (d' ++ rest)
regroup_part log p d p' d' rest e =
    simp append_assoc (
      ap (◌++◌ log) (sym (append_assoc p d rest) ∙ ap (λ x. x ++ rest) e ∙ append_assoc p' d' rest))

after_message :
    (log : List (List ℕ)) (m : List ℕ) (d : Desc) (ds : List Desc)
    → joined log ++ m ++ (d.bytes ++ stream ds)
      ≡ joined (log ++ m ∷ []) ++ [] ++ stream (advance d ds)
after_message log m d ds = rw (append-nil, joined-snoc log m, stream-advance d ds)

module _ (u : Unimsg) {S : Type 0} where
  open u use {World, buffer_get}

  -- The same reaction, which also keeps a log of the messages that it was given.
  abbrev pub logged :
      (Desc → World × S → Reaction (World × S))
      → Desc
      → World × (List (List ℕ) × S)
      → Reaction (World × (List (List ℕ) × S))
  logged f d (w, (log, s)) = elim (f d (w, s)) [
    | proceeds (w', s') ↦ proceeds (w', (log ++ d.bytes ∷ [], s'))
    | closes left (w', s') ↦ closes left (w', (log ++ d.bytes ∷ [], s'))
    | aborts ↦ aborts
  ]

  -- The bytes that came in are those of the logged messages, in order, followed by the pending ones
  -- and by those not read yet.
  abbrev pub Delivers : List ℕ → LoopEnd (World × (List (List ℕ) × S)) → Type 0
  Delivers input (finished p (_, (log, _))) =
      AreMessages log × IsPending p × (joined log ++ p.desc.bytes ≡ input)
  Delivers input (closed _ (_, (log, _))) =
      AreMessages log × ((rest : List ℕ) × (joined log ++ rest ≡ input))
  Delivers input aborted = Unit
  Delivers input (unfinished ds p (_, (log, _))) =
      AreMessages log × IsPending p × (joined log ++ p.desc.bytes ++ stream ds ≡ input)

  subst-Delivers :
      {r r' : LoopEnd (World × (List (List ℕ) × S))} (input : List ℕ) {input' : List ℕ}
      → r ≡ r'
      → input ≡ input'
      → Delivers input' r'
      → Delivers input r
  subst-Delivers {r} input {input'} e i t =
      subst (λ x. Delivers x r) (sym i) (subst (Delivers input') (sym e) t)

  logged_result :
      (f : Desc → World × S → Reaction (World × S)) (d : Desc) (w : World) (log : List (List ℕ))
      (s : S)
      → (logged f d (w, (log, s)) ≡ aborts)
        ⊎ ((w' : World) × (s' : S) × (((left : Desc) × (logged f d (w, (log, s))
                  ≡ closes left (w', (log ++ d.bytes ∷ [], s'))))
              ⊎ (logged f d (w, (log, s)) ≡ proceeds (w', (log ++ d.bytes ∷ [], s')))))
  logged_result f d w log s = elim (Reaction-cases (f d (w, s))) [
    | inl e ↦ inl (rw (e, logged))
    | inr (inl (left, (w', s'), e)) ↦ inr (w', s', inl (left, rw (e, logged)))
    | inr (inr ((w', s'), e)) ↦ inr (w', s', inr (rw (e, logged)))
  ]

  module _ (f : Desc → World × S → Reaction (World × S))
      (get_addr : (w w' : World) (d : Desc) → buffer_get w ≡ some (d, w') → d.addr ≡ true) where
    loop-Delivers :
        (fuel : ℕ) (ds : List Desc) (p : PendingBuffer) (w : World) (log : List (List ℕ)) (s : S)
        → AreLive ds
        → IsPending p
        → AreMessages log
        → Delivers
            (joined log ++ p.desc.bytes ++ stream ds)
            (desc_loop u (logged f) fuel ds p (w, (log, s)))
    unfolding desc_loop
    loop-Delivers zero ds p w log s h i m = (m, i, refl)
    loop-Delivers (suc fuel) [] p w log s h i m = (m, i, sym (append-nil _))
    loop-Delivers (suc fuel) (d ∷ ds) p w log s h i m = elim (Exec-cases (process_desc u p d w)) [
      | inl e ↦ subst-Delivers _ (loop-exits u (logged f) fuel d ds p w (log, s) e) refl tt
      | inr ((true, p', d', w'), e) ↦
          let acc : Accounts u p d (returns (true, p', d', w')) =
            subst (Accounts u p d) e (process_desc-Accounts u get_addr p d w i h.0 h.1) in
          elim (logged_result f p'.desc w' log s) [
            | inl r ↦
                subst-Delivers _ (loop-aborts u (logged f) fuel d d' ds p p' w w' (log, s) e r) refl
                  tt
            | inr (w'', s'', inl (left, r)) ↦
                subst-Delivers _
                  (loop-closes u (logged f) fuel d d' ds p p' w w' (log, s) left _ e r)
                  (regroup_part (joined log) p.desc.bytes d.bytes p'.desc.bytes d'.bytes (stream ds)
                    acc.0)
                  (
                    AreMessages-snoc log p'.desc.bytes m acc.1,
                    (
                      d'.bytes ++ stream ds,
                      ap (λ x. x ++ (d'.bytes ++ stream ds)) (joined-snoc log p'.desc.bytes),
                    ),
                  )
            | inr (w'', s'', inr r) ↦
                subst-Delivers _ (loop-proceeds u (logged f) fuel d d' ds p p' w w' (log, s) _ e r)
                  (regroup_part (joined log) p.desc.bytes d.bytes p'.desc.bytes d'.bytes (stream ds)
                      acc.0
                    ∙ after_message log p'.desc.bytes d' ds)
                  (loop-Delivers fuel (advance d' ds) (cleared p') w'' (log ++ p'.desc.bytes ∷ [])
                    s'' (advance-AreLive d d' ds h acc.3) (cleared-IsPending p')
                    (AreMessages-snoc log p'.desc.bytes m acc.1))
          ]
      | inr ((false, p', d', w'), e) ↦
          let acc : Accounts u p d (returns (false, p', d', w')) =
            subst (Accounts u p d) e (process_desc-Accounts u get_addr p d w i h.0 h.1) in
          subst-Delivers _ (loop-part u (logged f) fuel d d' ds p p' w w' (log, s) e)
            (regroup_part (joined log) p.desc.bytes d.bytes p'.desc.bytes d'.bytes (stream ds) acc.0
              ∙ ap (λ x. joined log ++ p'.desc.bytes ++ x) (sym (stream-advance d' ds)))
            (loop-Delivers fuel (advance d' ds) p' w' log s (advance-AreLive d d' ds h acc.3)
              (inr acc.1) m)
    ]

    -- For descriptors that are not empty, and a pending buffer as `process_desc` leaves it, whatever the code
    -- does with a message, and at whatever round one looks: each message that it was given is a whole
    -- one, and their bytes in order, with the pending ones and those of the
    -- descriptors to come, are the bytes received. At the end of the loop no descriptor is left.
    pub desc_loop-Delivers :
        (fuel : ℕ) (ds : List Desc) (p : PendingBuffer) (w : World) (s : S)
        → AreLive ds
        → IsPending p
        → Delivers (p.desc.bytes ++ stream ds) (desc_loop u (logged f) fuel ds p (w, ([], s)))
    desc_loop-Delivers fuel ds p w s h i = loop-Delivers fuel ds p w [] s h i tt
