-- ===== src/Frontend/Tests.antt =====
-- apps/boutique/sure/frontend/main.c at small requests.
use sure.Prelude.{ℕ, ◌≡◌, refl, none, some, List, [], ◌∷◌, ◌++◌, arith}
use sure.Frontend.{strchr, strstr, crlf, blank_line, parse_http_request}
use sure.Frontend.Parse.{parse_http_request_lem}

-- "GET /c H", a header "a", and the body "xy".
abbrev request : List ℕ
request = (71 ∷ 69 ∷ 84 ∷ 32 ∷ 47 ∷ 99 ∷ 32 ∷ 72 ∷ crlf) ++ (97 ∷ blank_line) ++ (120 ∷ 121 ∷ [])

request_parses : parse_http_request request ≡ some (71 ∷ 69 ∷ 84 ∷ [], 47 ∷ 99 ∷ [], 120 ∷ 121 ∷ [])
unfolding parse_http_request strchr strstr
request_parses = refl

-- A request without headers is refused: the first line end is not part of the text that is searched for
-- the blank line.
bare_request_refused :
    parse_http_request ((71 ∷ 69 ∷ 84 ∷ 32 ∷ 47 ∷ 32 ∷ 72 ∷ blank_line) ++ (120 ∷ [])) ≡ none
unfolding parse_http_request strchr strstr
bare_request_refused = refl

parse_http_request_lem_example :
    parse_http_request request ≡ some (71 ∷ 69 ∷ 84 ∷ [], 47 ∷ 99 ∷ [], 120 ∷ 121 ∷ [])
unfolding strstr
parse_http_request_lem_example =
    parse_http_request_lem request (71 ∷ 69 ∷ 84 ∷ []) (47 ∷ 99 ∷ []) (72 ∷ [])
      (97 ∷ 13 ∷ 10 ∷ 13 ∷ 10 ∷ 120 ∷ 121 ∷ []) (10 ∷ 97 ∷ []) (13 ∷ 10 ∷ 13 ∷ 10 ∷ 120 ∷ 121 ∷ [])
      (omega arith, (omega arith, (omega arith, tt))) (omega arith, (omega arith, tt))
      (
        omega arith,
        (
          omega arith,
          (
            omega arith,
            (omega arith, (omega arith, (omega arith, (omega arith, (omega arith, tt))))),
          ),
        ),
      )
      refl refl
