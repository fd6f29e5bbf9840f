-- ===== src/Frontend/Words.antt =====
-- What the `sscanf` calls of apps/boutique/sure/frontend/main.c read of words and numbers.
use sure.Prelude.{
  ℕ, suc, ◌+◌, ◌≡◌, refl, ap, ◌∙◌, true, false, ◌==◌, some, List, [], ◌∷◌, ◌++◌, length, All, arith,
  append-nil,
}
use sure.Prelude.Int.{pos, to_i32}
use sure.Frontend.Scan.{
  is_space, is_digit, skip_spaces, scan_literal, split_word, not_empty, scan_word, decimal,
  scan_int,
}

-- No white space, and some character.
abbrev pub IsWord : List ℕ → Type 0
IsWord [] = ⊥
IsWord (c ∷ cs) = All (λ x. is_space x ≡ false) (c ∷ cs)

-- Digits, at least one.
abbrev pub IsNumber : List ℕ → Type 0
IsNumber [] = ⊥
IsNumber (c ∷ cs) = All (λ x. is_digit x ≡ true) (c ∷ cs)

pub scan_literal-append : (p text : List ℕ) → scan_literal p (p ++ text) ≡ some text
scan_literal-append [] text = refl
scan_literal-append (c ∷ p) text =
    let same : (c == c) ≡ true = ground arith in rw (same) (scan_literal-append p text)

pub split_word-append :
    (w text : List ℕ) (n : ℕ)
    → All (λ x. is_space x ≡ false) w
    → split_word (length w + n) (w ++ text) ≡ (w ++ (split_word n text).0, (split_word n text).1)
split_word-append [] text n all = let z : 0 + n ≡ n = omega arith in ap (λ k. split_word k text) z
split_word-append (c ∷ w) text n (e, all) =
    let z : suc (length w) + n ≡ suc (length w + n) = omega arith in
    ap (λ k. split_word k (c ∷ (w ++ text))) z
    ∙ (rw (e) (
        let again : split_word (length w + n) (w ++ text)
            ≡ (w ++ (split_word n text).0, (split_word n text).1) =
          split_word-append w text n all in
        ap (λ (s : List ℕ × List ℕ). (c ∷ s.0, s.1)) again))

pub skip_spaces_lem : (c : ℕ) (cs : List ℕ) → is_space c ≡ false → skip_spaces (c ∷ cs) ≡ c ∷ cs
skip_spaces_lem c cs e = rw (e) refl

pub scan_word_lem : (w text : List ℕ) → IsWord w → scan_word (length w) (w ++ text) ≡ some (w, text)
unfolding scan_word
scan_word_lem [] text no_word = absurd no_word
scan_word_lem (c ∷ w) text (e, all) =
    let z : length (c ∷ w) ≡ length (c ∷ w) + 0 = omega arith in
    ap (λ s. not_empty (split_word (length (c ∷ w)) s)) (skip_spaces_lem c (w ++ text) e)
    ∙ ap not_empty
        (ap (λ k. split_word k (c ∷ (w ++ text))) z ∙ split_word-append (c ∷ w) text 0 (e, all))
    ∙ ap (λ v. some (c ∷ v, text)) (append-nil w)

digit_plain :
    (c : ℕ) → is_digit c ≡ true → (is_space c ≡ false) × ((c == 45) ≡ false) × ((c == 43) ≡ false)
digit_plain c e = ground (arith, e)

pub scan_int_lem : (w : List ℕ) → IsNumber w → scan_int w ≡ some (to_i32 (pos (decimal 0 w)))
unfolding scan_int
scan_int_lem [] no_number = absurd no_number
scan_int_lem (c ∷ w) (e, all) =
    let (space, minus, plus) = digit_plain c e in rw (space, minus, plus, e) refl
