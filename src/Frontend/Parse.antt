-- ===== src/Frontend/Parse.antt =====
-- What `parse_http_request` of apps/boutique/sure/frontend/main.c finds in a request.
use sure.Prelude.{
  ℕ, ◌≡◌, ◌≢◌, refl, sym, ap, subst, ◌∙◌, inl, inr, Bool, true, false, ◌&&◌, Bool-cases, ◌==◌,
  true-ne-false, Option, none, some, Option-cases, List, [], ◌∷◌, ◌++◌, append_assoc, length, drop,
  All, arith,
}
use sure.Frontend.{
  until_nul, behind, strchr, strstr, starts_with, crlf, blank_line, parse_http_request,
}

-- The first place of a character.
abbrev pub Splits : ℕ → List ℕ → Option (List ℕ × List ℕ) → Type 0
Splits c xs none = Unit {0}
Splits c xs (some (a, b)) = (xs ≡ a ++ c ∷ b) × All (λ x. x ≢ c) a

behind-Splits :
    (c x : ℕ) (xs : List ℕ) (r : Option (List ℕ × List ℕ))
    → x ≢ c
    → Splits c xs r
    → Splits c (x ∷ xs) (behind x r)
behind-Splits c x xs none h s = tt
behind-Splits c x xs (some (a, b)) h (e, all) = (ap (◌∷◌ x) e, (h, all))

strchr-Splits : (c : ℕ) (xs : List ℕ) → Splits c xs (strchr c xs)
unfolding strchr
strchr-Splits c [] = tt
strchr-Splits c (x ∷ xs) = elim (Bool-cases (x == c)) [
  | inl e ↦ rw (e) (ap (λ y. y ∷ xs) (ground (arith, e)), tt)
  | inr e ↦
      rw (e)
        (behind-Splits c x xs (strchr c xs) (λ same. ground (arith, e, same)) (strchr-Splits c xs))
]

abbrev pub Finds : List ℕ → List ℕ → Option (List ℕ × List ℕ) → Type 0
Finds pat xs none = Unit {0}
Finds pat xs (some (a, b)) = (xs ≡ a ++ b) × (starts_with pat b ≡ true)

behind-Finds :
    (pat : List ℕ) (x : ℕ) (xs : List ℕ) (r : Option (List ℕ × List ℕ))
    → Finds pat xs r
    → Finds pat (x ∷ xs) (behind x r)
behind-Finds pat x xs none s = tt
behind-Finds pat x xs (some (a, b)) (e, p) = (ap (◌∷◌ x) e, p)

strstr-Finds : (pat xs : List ℕ) → Finds pat xs (strstr pat xs)
unfolding strstr
strstr-Finds pat [] = elim (Bool-cases (starts_with pat [])) [
  | inl e ↦ rw (e) (refl, e)
  | inr e ↦ rw (e) tt
]
strstr-Finds pat (x ∷ xs) = elim (Bool-cases (starts_with pat (x ∷ xs))) [
  | inl e ↦ rw (e) (refl, e)
  | inr e ↦ rw (e) (behind-Finds pat x xs (strstr pat xs) (strstr-Finds pat xs))
]

and_true : (a b : Bool) → (a && b) ≡ true → (a ≡ true) × (b ≡ true)
and_true true b e = (refl, e)
and_true false b e = absurd (true-ne-false (sym e))

pub starts_with-drop :
    (pat ys : List ℕ) → starts_with pat ys ≡ true → ys ≡ pat ++ drop (length pat) ys
starts_with-drop [] ys e = refl
starts_with-drop (x ∷ xs) [] e = absurd (true-ne-false (sym e))
starts_with-drop (x ∷ xs) (y ∷ ys) e =
    let (same, more) = and_true (x == y) (starts_with xs ys) e in
    ap (λ z. z ∷ ys) (let eq : x ≡ y = ground (arith, same) in sym eq)
    ∙ ap (◌∷◌ x) (starts_with-drop xs ys more)

strchr-some :
    (c : ℕ) (xs a b : List ℕ) → strchr c xs ≡ some (a, b) → (xs ≡ a ++ c ∷ b) × All (λ x. x ≢ c) a
strchr-some c xs a b e = subst (Splits c xs) e (strchr-Splits c xs)

strstr-some :
    (pat xs a b : List ℕ) → strstr pat xs ≡ some (a, b) → xs ≡ a ++ (pat ++ drop (length pat) b)
strstr-some pat xs a b e =
    let (split, begin) = subst (Finds pat xs) e (strstr-Finds pat xs) in
    split ∙ ap (◌++◌ a) (starts_with-drop pat b begin)

at_crlf : (rest : List ℕ) → starts_with crlf rest ≡ true → rest ≡ 13 ∷ drop 1 rest
at_crlf [] e = absurd (true-ne-false (sym e))
at_crlf (x ∷ xs) e =
    let (same, _) = and_true (13 == x) (starts_with (10 ∷ []) xs) e in
    let eq : x ≡ 13 = ground (arith, same) in ap (λ z. z ∷ xs) eq

-- The request holds the three parts, in the places where HTTP has them.
abbrev pub Holds : List ℕ → Option (List ℕ × List ℕ × List ℕ) → Type 0
Holds bytes none = Unit {0}
Holds bytes (some (method, url, body)) =
    (version : List ℕ) × (headers : List ℕ) × (until_nul bytes
      ≡ (method ++ 32 ∷ url ++ 32 ∷ version) ++ 13 ∷ headers)
    × ((before : List ℕ) × (headers ≡ before ++ (blank_line ++ body)))
    × All (λ x. x ≢ 32) method
    × All (λ x. x ≢ 32) url

-- When `parse_http_request` accepts a request, the first line of the request is the method that it gives, a
-- space, the URL that it gives, and a space with the rest of the line; neither part has a space in it;
-- and the body that it gives is what follows a blank line.
pub parse_http_request-Holds : (bytes : List ℕ) → Holds bytes (parse_http_request bytes)
unfolding parse_http_request
parse_http_request-Holds bytes = elim (Option-cases (strstr crlf (until_nul bytes))) [
  | inl e ↦ rw (e, parse_http_request) tt
  | inr ((line, rest), e) ↦ elim (Option-cases (strchr 32 line)) [
    | inl f ↦ rw (e, f, parse_http_request) tt
    | inr ((method, next), f) ↦ elim (Option-cases (strchr 32 next)) [
      | inl g ↦ rw (e, f, g, parse_http_request) tt
      | inr ((url, version), g) ↦ elim (Option-cases (strstr blank_line (drop 1 rest))) [
        | inl h ↦ rw (e, f, g, h, parse_http_request) tt
        | inr ((before, body), h) ↦
            rw (e, f, g, h, parse_http_request)
              (found (until_nul bytes) line rest method next url version before body e f g h)
      ]
    ]
  ]
]
  where
    found :
        (text line rest method next url version before body : List ℕ)
        → strstr crlf text ≡ some (line, rest)
        → strchr 32 line ≡ some (method, next)
        → strchr 32 next ≡ some (url, version)
        → strstr blank_line (drop 1 rest) ≡ some (before, body)
        → (v : List ℕ) × (headers : List ℕ) × (text
            ≡ (method ++ 32 ∷ url ++ 32 ∷ v) ++ 13 ∷ headers)
          × ((b : List ℕ) × (headers ≡ b ++ (blank_line ++ drop 4 body)))
          × All (λ x. x ≢ 32) method
          × All (λ x. x ≢ 32) url
    found text line rest method next url version before body e f g h =
        let (cut, begin) = subst (Finds crlf text) e (strstr-Finds crlf text) in
        let (first, no_space) = strchr-some 32 line method next f in
        let (second, no_space') = strchr-some 32 next url version g in
        (
          version,
          drop 1 rest,
          cut
              ∙ ap (λ r. line ++ r) (at_crlf rest begin)
              ∙ ap (λ l. l ++ 13 ∷ drop 1 rest)
                  (first
                    ∙ ap (λ n. method ++ 32 ∷ n) second
                    ∙ sym (append_assoc method (32 ∷ url) (32 ∷ version))),
          (before, strstr-some blank_line (drop 1 rest) before body h),
          no_space,
          no_space',
        )

pub strchr-first : (c : ℕ) (a b : List ℕ) → All (λ x. x ≢ c) a → strchr c (a ++ c ∷ b) ≡ some (a, b)
unfolding strchr
strchr-first c [] b all = let same : (c == c) ≡ true = ground arith in rw (same) refl
strchr-first c (x ∷ a) b (h, all) =
    let other : (x == c) ≡ false = ground (arith, h) in rw (other, strchr-first c a b all) refl

strstr-crlf_first :
    (a r : List ℕ) → All (λ x. x ≢ 13) a → strstr crlf (a ++ 13 ∷ 10 ∷ r) ≡ some (a, 13 ∷ 10 ∷ r)
unfolding strstr
strstr-crlf_first [] r all = refl
strstr-crlf_first (x ∷ a) r (h, all) =
    let other : starts_with crlf (x ∷ (a ++ 13 ∷ 10 ∷ r)) ≡ false =
      ap (λ b. b && starts_with (10 ∷ []) (a ++ 13 ∷ 10 ∷ r)) (differs x h) in
    rw (other, strstr-crlf_first a r all) refl
  where
    differs : (x : ℕ) → x ≢ 13 → (13 == x) ≡ false
    differs x h = ground (arith, h)

-- A request whose first line is a method, a space, a URL, a space and a version, without further spaces in
-- the first two and without a carriage return, and which has a blank line behind its headers, is accepted,
-- with that method, that URL, and what follows the first blank line.
pub parse_http_request_lem :
    (bytes method url version rest before after : List ℕ)
    → All (λ x. x ≢ 32) method
    → All (λ x. x ≢ 32) url
    → All (λ x. x ≢ 13) (method ++ 32 ∷ (url ++ 32 ∷ version))
    → until_nul bytes ≡ (method ++ 32 ∷ (url ++ 32 ∷ version)) ++ 13 ∷ 10 ∷ rest
    → strstr blank_line (10 ∷ rest) ≡ some (before, after)
    → parse_http_request bytes ≡ some (method, url, drop 4 after)
unfolding parse_http_request
parse_http_request_lem bytes method url version rest before after m u l e h =
    let line : List ℕ = method ++ 32 ∷ (url ++ 32 ∷ version) in
    let cut : strstr crlf (until_nul bytes) ≡ some (line, 13 ∷ 10 ∷ rest) =
      ap (strstr crlf) e ∙ strstr-crlf_first line rest l in
    rw
      (
        cut,
        strchr-first 32 method (url ++ 32 ∷ version) m,
        strchr-first 32 url version u,
        h,
        parse_http_request,
      )
      refl
