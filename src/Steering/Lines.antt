-- ===== src/Steering/Lines.antt =====
-- Texts of lines, as apps/ric/sure/ts/ts_xapp.cpp and apps/ric/sure/rc/rc_xapp.c write them: the payload
-- is behind the first empty line.
use sure.Prelude.{
  ℕ, zero, suc, ◌+◌, ◌/◌, ◌%◌, ◌<◌, ◌≡◌, inl, inr, refl, sym, ap, ◌∙◌, Bool, true, false, not, ◌&&◌,
  ltb, ◌==◌, if◌then◌else◌, Bool-cases, Option-cases, true-ne-false, List, [], ◌∷◌, ◌++◌, drop,
  Option, none, some, arith,
}
use sure.Frontend.{until_nul, starts_with, strstr, behind, crlf, blank_line}
use sure.Ric.{print_digits, find_body}

-- A byte is not among those.
abbrev pub lacks : ℕ → List ℕ → Bool
lacks c [] = true
lacks c (x ∷ xs) = not (x == c) && lacks c xs

lacks-head :
    (c x : ℕ) (xs : List ℕ) → lacks c (x ∷ xs) ≡ true → ((x == c) ≡ false) × (lacks c xs ≡ true)
lacks-head c x xs e = elim (Bool-cases (x == c)) [
  | inl f ↦
      let cut : (not true && lacks c xs) ≡ true = ap (λ b. not b && lacks c xs) (sym f) ∙ e in
      absurd (true-ne-false (sym cut))
  | inr f ↦ (f, ap (λ b. not b && lacks c xs) (sym f) ∙ e)
]

pub lacks-append :
    (c : ℕ) (xs ys : List ℕ) → lacks c xs ≡ true → lacks c ys ≡ true → lacks c (xs ++ ys) ≡ true
lacks-append c [] ys e f = f
lacks-append c (x ∷ xs) ys e f =
    let (differs, more) = lacks-head c x xs e in rw (differs) (lacks-append c xs ys more f)

pub lacks-digits : (c fuel n : ℕ) → c < 48 → lacks c (print_digits fuel n) ≡ true
lacks-digits c zero n h = refl
lacks-digits c (suc fuel) n h = elim (Bool-cases (ltb n 10)) [
  | inl e ↦ let other : ((48 + n) == c) ≡ false = ground (arith, h) in rw (e, other) refl
  | inr e ↦
      let other : ((48 + n % 10) == c) ≡ false = ground (arith, h) in
      rw (e) (
        lacks-append c (print_digits fuel (n / 10)) ((48 + n % 10) ∷ [])
          (lacks-digits c fuel (n / 10) h) (rw (other) refl))
]

pub until_nul-append : (xs ys : List ℕ) → lacks 0 xs ≡ true → until_nul (xs ++ 0 ∷ ys) ≡ xs
until_nul-append [] ys e = refl
until_nul-append (x ∷ xs) ys e =
    let (differs, more) = lacks-head 0 x xs e in
    rw (differs) (ap (◌∷◌ x) (until_nul-append xs ys more))

pub until_nul_lem : (xs : List ℕ) → lacks 0 xs ≡ true → until_nul xs ≡ xs
until_nul_lem [] e = refl
until_nul_lem (x ∷ xs) e =
    let (differs, more) = lacks-head 0 x xs e in rw (differs) (ap (◌∷◌ x) (until_nul_lem xs more))

abbrev payload : Option (List ℕ × List ℕ) → Option (List ℕ)
payload none = none
payload (some (a, rest)) = some (drop 4 rest)

-- The payload is looked for further on.
after_behind : (x : ℕ) (r : Option (List ℕ × List ℕ)) → payload (behind x r) ≡ payload r
after_behind x none = refl
after_behind x (some (a, b)) = refl

find_body-payload : (text : List ℕ) → find_body text ≡ payload (strstr blank_line text)
unfolding find_body
find_body-payload text = elim (Option-cases (strstr blank_line text)) [
  | inl e ↦ rw (e, find_body) refl
  | inr (r, e) ↦ rw (e, find_body) refl
]

find_body-cons :
    (x : ℕ) (t : List ℕ) → starts_with blank_line (x ∷ t) ≡ false → find_body (x ∷ t) ≡ find_body t
unfolding strstr
find_body-cons x t e =
    let later : Option (List ℕ × List ℕ) = behind x (strstr blank_line t) in
    find_body-payload (x ∷ t)
    ∙ ap (λ b. payload (if b then some ([], x ∷ t) else later)) e
    ∙ after_behind x (strstr blank_line t)
    ∙ sym (find_body-payload t)

find_body-line : (l t : List ℕ) → lacks 13 l ≡ true → find_body (l ++ t) ≡ find_body t
find_body-line [] t e = refl
find_body-line (x ∷ l) t e =
    let (differs, more) = lacks-head 13 x l e in
    let other : (13 == x) ≡ false = ground (arith, differs) in
    find_body-cons x (l ++ t) (rw (other) refl) ∙ find_body-line l t more

find_body-crlf :
    (c : ℕ) (t : List ℕ) → (c == 13) ≡ false → find_body (13 ∷ 10 ∷ c ∷ t) ≡ find_body (c ∷ t)
find_body-crlf c t e =
    let other : (13 == c) ≡ false = ground (arith, e) in
    find_body-cons 13 (10 ∷ c ∷ t) (rw (other) refl) ∙ find_body-cons 10 (c ∷ t) refl

find_body-blank : (t : List ℕ) → find_body (13 ∷ 10 ∷ 13 ∷ 10 ∷ t) ≡ some t
unfolding find_body strstr
find_body-blank t = refl

-- The lines of a header, and what stands behind it.
abbrev pub text_of : List (List ℕ) → List ℕ → List ℕ
text_of [] rest = crlf ++ rest
text_of (l ∷ ls) rest = l ++ (crlf ++ text_of ls rest)

abbrev pub AreLines : List (List ℕ) → Type 0
AreLines [] = Unit
AreLines ([] ∷ ls) = ⊥
AreLines ((c ∷ l) ∷ ls) = (lacks 13 (c ∷ l) ≡ true) × AreLines ls

find_body-text_of :
    (c : ℕ) (l : List ℕ) (ls : List (List ℕ)) (rest : List ℕ)
    → AreLines ((c ∷ l) ∷ ls)
    → find_body (text_of ((c ∷ l) ∷ ls) rest) ≡ some rest
find_body-text_of c l [] rest (e, more) =
    find_body-line (c ∷ l) (13 ∷ 10 ∷ 13 ∷ 10 ∷ rest) e ∙ find_body-blank rest
find_body-text_of c l ([] ∷ ls) rest (e, more) = absurd more
find_body-text_of c l ((c' ∷ l') ∷ ls) rest (e, (e', more)) =
    let (differs, _) = lacks-head 13 c' l' e' in
    find_body-line (c ∷ l) (13 ∷ 10 ∷ text_of ((c' ∷ l') ∷ ls) rest) e
    ∙ find_body-crlf c' (l' ++ (crlf ++ text_of ls rest)) differs
    ∙ find_body-text_of c' l' ls rest (e', more)

-- There is a line.
abbrev pub AreSome : List (List ℕ) → Type 0
AreSome [] = ⊥
AreSome (l ∷ ls) = AreLines (l ∷ ls)

pub find_body-lines :
    (ls : List (List ℕ)) (rest : List ℕ) → AreSome ls → find_body (text_of ls rest) ≡ some rest
find_body-lines [] rest e = absurd e
find_body-lines ([] ∷ ls) rest e = absurd e
find_body-lines ((c ∷ l) ∷ ls) rest e = find_body-text_of c l ls rest e
