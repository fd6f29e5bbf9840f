-- ===== src/Steering/Decision.antt =====
-- `decide` of apps/ric/sure/ts/ts_xapp.cpp: the cell that it takes is the best of the map.
use sure.Prelude.{
  true-ne-false, if◌then◌else◌, Bool, Option, ℕ, ◌+◌, ◌≤◌, ◌≡◌, ◌≢◌, ◌↔◌, ◌⊎◌, inl, inr, refl, sym,
  ap, subst, ◌∙◌, Bool, true, false, ◌==◌, if◌then◌else◌, Bool-cases, List, [], ◌∷◌, some,
  none-ne-some, arith,
}
use sure.Prelude.Int.{ℤ, pos, ◌≤ℤ◌, ltb_ℤ, pos_part, neg_part, to_i32}
use sure.Prelude.Bytes.{same_bytes, same_bytes→eq}
use sure.Steering.{
  Event, key, string, uint, other, Cells, find_cell, set_cell, PredictionHandler, first_of,
  on_event, read_prediction, highest, decide,
}

-- A cell and its throughput are among those.
abbrev pub Listed : List ℕ → ℤ → Cells → Type 0
Listed id t [] = ⊥
Listed id t ((id', t') ∷ cells) = ((id ≡ id') × (t ≡ t')) ⊎ Listed id t cells

-- What the iterator of a map passes are just the cells that `find` finds in it.
abbrev pub Enumerates : Cells → Cells → Type 0
Enumerates cells passed = (id : List ℕ) (t : ℤ) → (find_cell id cells ≡ some t) ↔ Listed id t passed

abbrev Highest : Cells → ℤ → List ℕ → ℤ × List ℕ → Type 0
Highest cells t id (t', id') =
    (t ≤ℤ t')
    × ((id'' : List ℕ) (t'' : ℤ) → Listed id'' t'' cells → t'' ≤ℤ t')
    × (((t' ≡ t) × (id' ≡ id)) ⊎ Listed id' t' cells)

higher :
    (id' : List ℕ) (t' : ℤ) (cells : Cells) (t : ℤ) (id : List ℕ) (r : ℤ × List ℕ)
    → ltb_ℤ t t' ≡ true
    → Highest cells t' id' r
    → Highest ((id', t') ∷ cells) t id r
higher id' t' cells t id (r, rid) e (above, all, from) = (
  let below : pos_part t + neg_part t' ≤ pos_part t' + neg_part t = ground (arith, e) in
      omega (arith, below, above),
  λ id'' t'' listed. elim listed [
    | inl (_, same) ↦ subst (λ x. x ≤ℤ r) (sym same) above
    | inr later ↦ all id'' t'' later
  ],
  elim from [ inl (a, b) ↦ inr (inl (b, a)) | inr later ↦ inr (inr later) ],
)

not_higher :
    (id' : List ℕ) (t' : ℤ) (cells : Cells) (t : ℤ) (id : List ℕ) (r : ℤ × List ℕ)
    → ltb_ℤ t t' ≡ false
    → Highest cells t id r
    → Highest ((id', t') ∷ cells) t id r
not_higher id' t' cells t id (r, rid) e (above, all, from) =
    let below : pos_part t' + neg_part t ≤ pos_part t + neg_part t' = ground (arith, e) in
    let here : t' ≤ℤ r = omega (arith, below, above) in
    (
      above,
      λ id'' t'' listed. elim listed [
        | inl (_, same) ↦ subst (λ x. x ≤ℤ r) (sym same) here
        | inr later ↦ all id'' t'' later
      ],
      elim from [ inl same ↦ inl same | inr later ↦ inr (inr later) ],
    )

highest-cell :
    (id' : List ℕ) (t' : ℤ) (cells : Cells) (t : ℤ) (id : List ℕ) (b : Bool) (r : ℤ × List ℕ)
    → ltb_ℤ t t' ≡ b
    → (let p : ℤ × List ℕ = if b then (t', id') else (t, id) in highest cells p.0 p.1) ≡ r
    → highest ((id', t') ∷ cells) t id ≡ r
unfolding highest
highest-cell id' t' cells t id b r e f =
    ap (λ c. let p : ℤ × List ℕ = if c then (t', id') else (t, id) in highest cells p.0 p.1) e ∙ f

highest-Highest : (cells : Cells) (t : ℤ) (id : List ℕ) → Highest cells t id (highest cells t id)
unfolding highest
highest-Highest [] t id = (omega arith, λ id'' t'' listed. absurd listed, inl (refl, refl))
highest-Highest ((id', t') ∷ cells) t id = elim (Bool-cases (ltb_ℤ t t')) [
  | inl e ↦
      subst (Highest ((id', t') ∷ cells) t id) (sym (highest-cell id' t' cells t id true _ e refl))
        (higher id' t' cells t id (highest cells t' id') e (highest-Highest cells t' id'))
  | inr e ↦
      subst (Highest ((id', t') ∷ cells) t id) (sym (highest-cell id' t' cells t id false _ e refl))
        (not_higher id' t' cells t id (highest cells t id) e (highest-Highest cells t id))
]

pub same_bytes_refl : (xs : List ℕ) → same_bytes xs xs ≡ true
same_bytes_refl [] = refl
same_bytes_refl (x ∷ xs) = let e : (x == x) ≡ true = ground arith in rw (e) (same_bytes_refl xs)

-- What is found in a map is found when it has been written to.
find_cell-set_cell :
    (id id' : List ℕ) (n t : ℤ) (cells : Cells)
    → find_cell id cells ≡ some t
    → (t' : ℤ) × (find_cell id (set_cell id' n cells) ≡ some t')
find_cell-set_cell id id' n t [] e = absurd (none-ne-some e)
find_cell-set_cell id id' n t ((k, v) ∷ cells) e = elim (Bool-cases (same_bytes id' k)) [
  | inl f ↦ elim (Bool-cases (same_bytes id k)) [
    | inl g ↦ (n, rw (f, g) refl)
    | inr g ↦ (
      t,
      rw (f, g)
          (let later : find_cell id ((k, v) ∷ cells) ≡ find_cell id cells = rw (g) refl in
            sym later ∙ e),
    )
  ]
  | inr f ↦ elim (Bool-cases (same_bytes id k)) [
    | inl g ↦ (v, rw (f, g) refl)
    | inr g ↦
        let later : find_cell id ((k, v) ∷ cells) ≡ find_cell id cells = rw (g) refl in
        let (t', e') = find_cell-set_cell id id' n t cells (sym later ∙ e) in (t', rw (f, g) e')
  ]
]

-- A cell is the serving one, and has a prediction.
pub record Served (from ue : List ℕ) (h : PredictionHandler) : Type 0 where
  pub serves : h.serving_cell_id ≡ from
  pub of_ue : h.ue_id ≡ ue
  pub ue_known : h.ue_id_found ≡ true
  pub predicted : (t : ℤ) × (find_cell from h.cell_pred_down ≡ some t)

first_of-some : (xs curr : List ℕ) → xs ≢ [] → first_of xs curr ≡ xs
first_of-some [] curr h = absurd (h refl)
first_of-some (x ∷ xs) curr h = refl

on_event-Served :
    (from ue : List ℕ) (e : Event) (h : PredictionHandler)
    → from ≢ []
    → Served from ue h
    → Served from ue (on_event e h)
on_event-Served from ue (key str) h some_from s =
    rw (s.ue_known)
      (record { serves = s.serves; of_ue = s.of_ue; ue_known = refl; predicted = s.predicted })
on_event-Served from ue (string str) h some_from s = s
on_event-Served from ue (uint n) h some_from s =
    let serving : first_of h.serving_cell_id h.curr_key ≡ from =
      ap (λ x. first_of x h.curr_key) s.serves ∙ first_of-some from h.curr_key some_from in
    elim (Bool-cases h.down_val) [
      | inl e ↦
          let (t, found) = s.predicted in
          rw (e) (record {
            serves = serving;
            of_ue = s.of_ue;
            ue_known = s.ue_known;
            predicted =
                find_cell-set_cell from h.curr_key (to_i32 (pos n)) t h.cell_pred_down found;
          })
      | inr e ↦ rw (e) (record {
        serves = serving;
        of_ue = s.of_ue;
        ue_known = s.ue_known;
        predicted = s.predicted;
      })
    ]
on_event-Served from ue other h some_from s = s

pub read_prediction-Served :
    (from ue : List ℕ) (es : List Event) (h : PredictionHandler)
    → from ≢ []
    → Served from ue h
    → Served from ue (read_prediction es h)
unfolding read_prediction
read_prediction-Served from ue [] h some_from s = s
read_prediction-Served from ue (e ∷ es) h some_from s =
    read_prediction-Served from ue es (on_event e h) some_from
      (on_event-Served from ue e h some_from s)

-- No cell has a higher throughput, and the cell has that one; or none has more than 0, and it is the empty
-- name.
abbrev pub Best : (List ℕ → Option ℤ) → List ℕ → Type 0
Best throughput to =
    (best : ℤ) × ((id : List ℕ) (t : ℤ) → throughput id ≡ some t → t ≤ℤ best)
    × (((best ≡ pos 0) × (to ≡ [])) ⊎ (throughput to ≡ some best))

pub find_cell-set_cell_lem :
    (id k : List ℕ) (n : ℤ) (cells : Cells)
    → find_cell id (set_cell k n cells) ≡ (if same_bytes id k then some n else find_cell id cells)
find_cell-set_cell_lem id k n [] = refl
find_cell-set_cell_lem id k n ((k', v) ∷ cells) = elim (Bool-cases (same_bytes k k')) [
  | inl e ↦
      let same : same_bytes id k' ≡ same_bytes id k =
        ap (same_bytes id) (sym (same_bytes→eq k k' e)) in
      elim (Bool-cases (same_bytes id k)) [
        | inl f ↦ rw (e, same, f) refl
        | inr f ↦ rw (e, same, f) refl
      ]
  | inr e ↦ elim (Bool-cases (same_bytes id k')) [
    | inl f ↦
        let other_key : same_bytes id k ≡ false = elim (Bool-cases (same_bytes id k)) [
          | inl g ↦
              let same : k ≡ k' = sym (same_bytes→eq id k g) ∙ same_bytes→eq id k' f in
              absurd (true-ne-false (sym (same_bytes_refl k) ∙ ap (same_bytes k) same ∙ e))
          | inr g ↦ g
        ] in
        rw (e, f, other_key) refl
    | inr f ↦ rw (e, f) (find_cell-set_cell_lem id k n cells)
  ]
]

-- The cells are those that the prediction gives a throughput, in whatever order the map is passed and
-- however floats are compared.
pub decide-Best :
    (iterate : Cells → Cells) (exceeds : ℤ → ℤ → Bool) (from ue : List ℕ) (h : PredictionHandler)
    → Enumerates h.cell_pred_down (iterate h.cell_pred_down)
    → Served from ue h
    → (to : List ℕ) × (decide iterate exceeds h ≡ some (from, to))
      × Best (λ id. find_cell id h.cell_pred_down) to
unfolding decide
decide-Best iterate exceeds from ue h enumerates s =
    let cells : Cells = h.cell_pred_down in
    let r : ℤ × List ℕ = highest (iterate cells) (pos 0) [] in
    let (above, all, chosen) = highest-Highest (iterate cells) (pos 0) [] in
    let (t, found) = s.predicted in
    let serving : find_cell h.serving_cell_id cells ≡ some t =
      ap (λ x. find_cell x cells) s.serves ∙ found in
    (
      r.1,
      elim (Bool-cases (exceeds r.0 t)) [
        | inl e ↦ rw (serving, e, decide) (ap (λ x. some (x, r.1)) s.serves)
        | inr e ↦ rw (serving, e, decide) (ap (λ x. some (x, r.1)) s.serves)
      ],
      (
        r.0,
        λ id t' e. let (there, _) = enumerates id t' in all id t' (there e),
        elim chosen [
          | inl none_higher ↦ inl none_higher
          | inr listed ↦ let (_, back) = enumerates r.1 r.0 in inr (back listed)
        ],
      ),
    )
