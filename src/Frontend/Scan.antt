-- ===== src/Frontend/Scan.antt =====
-- What apps/boutique/sure/frontend/main.c uses of `sscanf`: literal text, `%s` and `%d`. A number
-- that no `int` holds wraps.
use sure.Prelude.{
  ℕ, zero, suc, ◌+◌, ◌-◌, ◌*◌, Bool, ◌&&◌, ◌||◌, leb, ◌==◌, if◌then◌else◌, Option, none, some, List,
  [], ◌∷◌,
}
use sure.Prelude.Int.{ℤ, pos, sub_ℕ, to_i32}

-- `isspace`
abbrev pub is_space : ℕ → Bool
is_space c = c == 32 || (leb 9 c && leb c 13)

abbrev pub is_digit : ℕ → Bool
is_digit c = leb 48 c && leb c 57

abbrev pub skip_spaces : List ℕ → List ℕ
skip_spaces [] = []
skip_spaces (c ∷ cs) = let rest = skip_spaces cs in if is_space c then rest else c ∷ cs

-- A text of the format: what stands behind it.
abbrev pub scan_literal : List ℕ → List ℕ → Option (List ℕ)
scan_literal [] text = some text
scan_literal (p ∷ ps) [] = none
scan_literal (p ∷ ps) (c ∷ cs) = let rest = scan_literal ps cs in if p == c then rest else none

-- The characters of a word, up to a width, and what stands behind them.
abbrev pub split_word : ℕ → List ℕ → List ℕ × List ℕ
split_word zero cs = ([], cs)
split_word (suc n) [] = ([], [])
split_word (suc n) (c ∷ cs) =
    let (word, rest) = split_word n cs in if is_space c then ([], c ∷ cs) else (c ∷ word, rest)

abbrev pub not_empty : List ℕ × List ℕ → Option (List ℕ × List ℕ)
not_empty ([], rest) = none
not_empty (c ∷ cs, rest) = some (c ∷ cs, rest)

-- `%<n>s`
unfoldable pub scan_word : ℕ → List ℕ → Option (List ℕ × List ℕ)
scan_word n text = not_empty (split_word n (skip_spaces text))

-- The value of the digits that a text begins with, behind those that are read.
abbrev pub decimal : ℕ → List ℕ → ℕ
decimal n [] = n
decimal n (c ∷ cs) = let more = decimal (10 * n + (c - 48)) cs in if is_digit c then more else n

abbrev pub scan_digits : List ℕ → Option ℕ
scan_digits [] = none
scan_digits (c ∷ cs) = if is_digit c then some (decimal 0 (c ∷ cs)) else none

abbrev pub positive : Option ℕ → Option ℤ
positive none = none
positive (some n) = some (to_i32 (pos n))

abbrev pub negative : Option ℕ → Option ℤ
negative none = none
negative (some n) = some (to_i32 (sub_ℕ 0 n))

abbrev pub scan_signed : List ℕ → Option ℤ
scan_signed [] = none
scan_signed (c ∷ cs) =
    if c == 45
    then negative (scan_digits cs)
    else if c == 43
    then positive (scan_digits cs)
    else positive (scan_digits (c ∷ cs))

-- `%d`, the last of its format.
unfoldable pub scan_int : List ℕ → Option ℤ
scan_int text = scan_signed (skip_spaces text)
