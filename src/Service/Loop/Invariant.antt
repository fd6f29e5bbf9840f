-- ===== src/Service/Loop/Invariant.antt =====
-- What the code does with each message keeps, the loop over descriptors keeps, in the handlers of
-- apps/boutique/sure/common/service.
use sure.Prelude.{ℕ, zero, suc, ◌≡◌, sym, subst, inl, inr, true, false, List, [], ◌∷◌}
use sure.Service.Unimsg.{Desc, Unimsg}
use sure.Service.Process.{PendingBuffer, process_desc}
use sure.Service.Loop.{
  Reaction, proceeds, closes, aborts, LoopEnd, finished, closed, aborted, unfinished, cleared,
  advance, desc_loop,
}
use sure.Service.Loop.Rounds.{
  Exec-cases, Reaction-cases, loop-part, loop-proceeds, loop-closes, loop-aborts, loop-exits,
}

module _ (u : Unimsg) {S : Type 0} (P : S → Type 0) where
  abbrev pub Keeps : Reaction (u.World × S) → Type 0
  Keeps (proceeds (_, s)) = P s
  Keeps (closes _ (_, s)) = P s
  Keeps aborts = Unit {0}

  abbrev pub EndKeeps : LoopEnd (u.World × S) → Type 0
  EndKeeps (finished _ (_, s)) = P s
  EndKeeps (closed _ (_, s)) = P s
  EndKeeps aborted = Unit {0}
  EndKeeps (unfinished _ _ (_, s)) = P s

  subst-EndKeeps : {r r' : LoopEnd (u.World × S)} → r ≡ r' → EndKeeps r' → EndKeeps r
  subst-EndKeeps e = subst EndKeeps (sym e)

  module _ (f : Desc → u.World × S → Reaction (u.World × S))
      (keeps : (d : Desc) (w : u.World) (s : S) → P s → Keeps (f d (w, s))) where
    pub desc_loop-EndKeeps :
        (fuel : ℕ) (ds : List Desc) (p : PendingBuffer) (w : u.World) (s : S)
        → P s
        → EndKeeps (desc_loop u f fuel ds p (w, s))
    unfolding desc_loop
    desc_loop-EndKeeps zero ds p w s i = i
    desc_loop-EndKeeps (suc fuel) [] p w s i = i
    desc_loop-EndKeeps (suc fuel) (d ∷ ds) p w s i = elim (Exec-cases (process_desc u p d w)) [
      | inl e ↦ subst-EndKeeps (loop-exits u f fuel d ds p w s e) tt
      | inr ((true, p', d', w'), e) ↦ elim (Reaction-cases (f p'.desc (w', s))) [
        | inl r ↦ subst-EndKeeps (loop-aborts u f fuel d d' ds p p' w w' s e r) tt
        | inr (inl (left, (w'', s''), r)) ↦
            subst-EndKeeps (loop-closes u f fuel d d' ds p p' w w' s left (w'', s'') e r)
              (subst Keeps r (keeps p'.desc w' s i))
        | inr (inr ((w'', s''), r)) ↦
            subst-EndKeeps (loop-proceeds u f fuel d d' ds p p' w w' s (w'', s'') e r) (
              desc_loop-EndKeeps fuel (advance d' ds) (cleared p') w'' s''
                (subst Keeps r (keeps p'.desc w' s i)))
      ]
      | inr ((false, p', d', w'), e) ↦
          subst-EndKeeps (loop-part u f fuel d d' ds p p' w w' s e)
            (desc_loop-EndKeeps fuel (advance d' ds) p' w' s i)
    ]
