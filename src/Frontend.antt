-- ===== src/Frontend.antt =====
-- apps/boutique/sure/frontend/main.c: how a request is taken apart.
pub mod Scan
pub mod Calls
pub mod Pages
pub mod OrderForm
pub mod Routes
pub mod Table
pub mod Does
pub mod Session
pub mod Requests
pub mod Buffers
pub mod Words
pub mod Items
pub mod Params
pub mod Parse
mod Tests
mod Samples
use sure.Prelude.{
  ℕ, zero, suc, Bool, true, false, ◌&&◌, ◌==◌, if◌then◌else◌, Option, none, some, List, [], ◌∷◌,
  drop,
}

-- A C string: the bytes before the first 0.
abbrev pub until_nul : List ℕ → List ℕ
until_nul [] = []
until_nul (x ∷ xs) = let rest = until_nul xs in if x == 0 then [] else x ∷ rest

-- A place that was found, seen from one byte before.
abbrev pub behind : ℕ → Option (List ℕ × List ℕ) → Option (List ℕ × List ℕ)
behind x none = none
behind x (some (a, b)) = some (x ∷ a, b)

-- `strchr`: what stands before the character, and behind it.
unfoldable pub strchr : ℕ → List ℕ → Option (List ℕ × List ℕ)
strchr c [] = none
strchr c (x ∷ xs) = let later = behind x (strchr c xs) in if x == c then some ([], xs) else later

abbrev pub starts_with : List ℕ → List ℕ → Bool
starts_with [] ys = true
starts_with (x ∷ xs) [] = false
starts_with (x ∷ xs) (y ∷ ys) = (x == y) && starts_with xs ys

-- `strstr`: what stands before the text, and the rest, which begins with it.
unfoldable pub strstr : List ℕ → List ℕ → Option (List ℕ × List ℕ)
strstr pat [] = if starts_with pat [] then some ([], []) else none
strstr pat (x ∷ xs) =
    let later = behind x (strstr pat xs) in
    if starts_with pat (x ∷ xs) then some ([], x ∷ xs) else later

abbrev pub crlf : List ℕ
crlf = 13 ∷ 10 ∷ []

abbrev pub blank_line : List ℕ
blank_line = 13 ∷ 10 ∷ 13 ∷ 10 ∷ []

-- `parse_http_request`: the method, the URL and the body, or that the request is malformed. The search
-- for the body begins one byte behind the end of the first line, of which a 0 has cut the rest off.
unfoldable pub parse_http_request : List ℕ → Option (List ℕ × List ℕ × List ℕ)
parse_http_request bytes = elim (strstr crlf (until_nul bytes)) [
  | none ↦ none
  | some (line, rest) ↦ elim (strchr 32 line) [
    | none ↦ none
    | some (method, next) ↦ elim (strchr 32 next) [
      | none ↦ none
      | some (url, _) ↦ elim (strstr blank_line (drop 1 rest)) [
        | none ↦ none
        | some (_, body) ↦ some (method, url, drop 4 body)
      ]
    ]
  ]
]
