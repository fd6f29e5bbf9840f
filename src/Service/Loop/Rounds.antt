-- ===== src/Service/Loop/Rounds.antt =====
-- One round of the loop over descriptors, by what `process_desc` and the reaction return.
use sure.Prelude.{ℕ, suc, ◌≡◌, refl, ◌⊎◌, inl, inr, true, false, List, ◌∷◌}
use sure.Service.Unimsg.{Desc, Unimsg}
use sure.Service.Process.{Exec, returns, exits, PendingBuffer, process_desc}
use sure.Service.Loop.{
  Reaction, proceeds, closes, aborts, closed, aborted, cleared, advance, desc_loop,
}

pub Exec-cases {ℓ} : {A : Type ℓ} (r : Exec A) → (r ≡ exits) ⊎ ((a : A) × (r ≡ returns a))
Exec-cases exits = inl refl
Exec-cases (returns a) = inr (a, refl)

pub Reaction-cases {ℓ} :
    {W : Type ℓ} (r : Reaction W)
    → (r ≡ aborts)
      ⊎ (((left : Desc) × (w : W) × (r ≡ closes left w)) ⊎ ((w : W) × (r ≡ proceeds w)))
Reaction-cases aborts = inl refl
Reaction-cases (closes left w) = inr (inl (left, w, refl))
Reaction-cases (proceeds w) = inr (inr (w, refl))

module _ (u : Unimsg) {S : Type 0} (f : Desc → u.World × S → Reaction (u.World × S)) (fuel : ℕ)
    (d d' : Desc) (ds : List Desc) (p p' : PendingBuffer) (w w' : u.World) (s : S) where
  pub loop-part :
      process_desc u p d w ≡ returns (false, p', d', w')
      → desc_loop u f (suc fuel) (d ∷ ds) p (w, s) ≡ desc_loop u f fuel (advance d' ds) p' (w', s)
  unfolding desc_loop
  loop-part e = rw (e, desc_loop)

  pub loop-proceeds :
      (ws : u.World × S)
      → process_desc u p d w ≡ returns (true, p', d', w')
      → f p'.desc (w', s) ≡ proceeds ws
      → desc_loop u f (suc fuel) (d ∷ ds) p (w, s)
        ≡ desc_loop u f fuel (advance d' ds) (cleared p') ws
  unfolding desc_loop
  loop-proceeds ws e r = rw (e, r, desc_loop)

  pub loop-closes :
      (left : Desc) (ws : u.World × S)
      → process_desc u p d w ≡ returns (true, p', d', w')
      → f p'.desc (w', s) ≡ closes left ws
      → desc_loop u f (suc fuel) (d ∷ ds) p (w, s) ≡ closed (record p' { desc = left }) ws
  unfolding desc_loop
  loop-closes left ws e r = rw (e, r, desc_loop)

  pub loop-aborts :
      process_desc u p d w ≡ returns (true, p', d', w')
      → f p'.desc (w', s) ≡ aborts
      → desc_loop u f (suc fuel) (d ∷ ds) p (w, s) ≡ aborted
  unfolding desc_loop
  loop-aborts e r = rw (e, r, desc_loop)

pub loop-exits :
    (u : Unimsg) {S : Type 0} (f : Desc → u.World × S → Reaction (u.World × S)) (fuel : ℕ)
    (d : Desc) (ds : List Desc) (p : PendingBuffer) (w : u.World) (s : S)
    → process_desc u p d w ≡ exits
    → desc_loop u f (suc fuel) (d ∷ ds) p (w, s) ≡ aborted
unfolding desc_loop
loop-exits u f fuel d ds p w s e = rw (e, desc_loop)
