-- ===== src/Frontend/Items.antt =====
-- The body of `POST /cart` of apps/boutique/sure/frontend/main.c, which `addToCartHandler` reads.
use sure.Prelude.{
  ℕ, zero, suc, ◌+◌, ◌-◌, ◌<◌, ◌≡◌, refl, sym, ap, ◌∙◌, false, ◌==◌, none, some, List, [], ◌∷◌,
  ◌++◌, length, All, arith,
}
use sure.Prelude.Bytes.{bytes_of}
use sure.Prelude.Int.{pos, to_i32}
use sure.Frontend.Scan.{
  is_space, skip_spaces, scan_literal, split_word, not_empty, scan_word, decimal,
}
use sure.Frontend.Words.{
  IsWord, IsNumber, split_word-append, skip_spaces_lem, scan_word_lem, scan_int_lem,
}
use sure.Frontend.Pages.{scan_item}

abbrev pub quantity_text : List ℕ → List ℕ
quantity_text number = bytes_of "&quantity=" ++ number

-- "product_id=<id>&quantity=<number>"
abbrev pub item_body : List ℕ → List ℕ → List ℕ
item_body id number = bytes_of "product_id=" ++ (id ++ quantity_text number)

-- A body with a product id of ten characters, none of them white space, and with a number of digits, is
-- read as that id and that number, as an `int`.
pub scan_item_lem :
    (id number : List ℕ)
    → IsWord id
    → length id ≡ 10
    → IsNumber number
    → scan_item (item_body id number) ≡ some (id, to_i32 (pos (decimal 0 number)))
unfolding scan_item
scan_item_lem id number word ten digits =
    let e2 : scan_word 10 (id ++ quantity_text number) ≡ some (id, quantity_text number) =
      ap (λ n. scan_word n (id ++ quantity_text number)) (sym ten)
      ∙ scan_word_lem id (quantity_text number) word in
    rw (e2, scan_int_lem number digits, scan_item) refl

-- Behind the part of "&quantity=" that a word swallows, no "&quantity=" begins.
swallowed :
    (k : ℕ) (number : List ℕ)
    → k < 10
    → IsNumber number
    → (rest : List ℕ) × (word : List ℕ) × (split_word (suc k) (quantity_text number)
        ≡ (38 ∷ word, rest))
      × (scan_literal (bytes_of "&quantity=") rest ≡ none)
swallowed k [] h no_number = absurd no_number
swallowed zero (d ∷ ds) h digits = (_, _, refl, refl)
swallowed (suc zero) (d ∷ ds) h digits = (_, _, refl, refl)
swallowed (suc (suc zero)) (d ∷ ds) h digits = (_, _, refl, refl)
swallowed (suc (suc (suc zero))) (d ∷ ds) h digits = (_, _, refl, refl)
swallowed (suc (suc (suc (suc zero)))) (d ∷ ds) h digits = (_, _, refl, refl)
swallowed (suc (suc (suc (suc (suc zero))))) (d ∷ ds) h digits = (_, _, refl, refl)
swallowed (suc (suc (suc (suc (suc (suc zero)))))) (d ∷ ds) h digits = (_, _, refl, refl)
swallowed (suc (suc (suc (suc (suc (suc (suc zero))))))) (d ∷ ds) h digits = (_, _, refl, refl)
swallowed (suc (suc (suc (suc (suc (suc (suc (suc zero)))))))) (d ∷ ds) h digits =
    (_, _, refl, refl)
swallowed (suc (suc (suc (suc (suc (suc (suc (suc (suc zero))))))))) (d ∷ ds) h (digit, all) =
    let differs : (38 == d) ≡ false = ground (arith, digit) in (_, _, refl, rw (differs) refl)
swallowed (suc (suc (suc (suc (suc (suc (suc (suc (suc (suc k)))))))))) (d ∷ ds) h digits =
    absurd (omega (arith, h))

skip_spaces_id :
    (id number : List ℕ)
    → All (λ x. is_space x ≡ false) id
    → skip_spaces (id ++ quantity_text number) ≡ id ++ quantity_text number
skip_spaces_id [] number all = refl
skip_spaces_id (c ∷ id) number (e, all) = skip_spaces_lem c (id ++ quantity_text number) e

not_empty_lem :
    (id word rest : List ℕ) → not_empty (id ++ 38 ∷ word, rest) ≡ some (id ++ 38 ∷ word, rest)
not_empty_lem [] word rest = refl
not_empty_lem (c ∷ id) word rest = refl

-- A body with a product id of less than ten characters, none of them white space, is refused, whatever its
-- number is: the `%10s` reads on into "&quantity=", of which the rest of the format then misses the
-- beginning.
pub scan_item_short :
    (id number : List ℕ)
    → All (λ x. is_space x ≡ false) id
    → length id < 10
    → IsNumber number
    → scan_item (item_body id number) ≡ none
unfolding scan_item scan_word
scan_item_short id number all short digits =
    let k : ℕ = 9 - length id in
    let q : List ℕ = quantity_text number in
    let (rest, word, e, no_literal) = swallowed k number (omega arith) digits in
    let ten : 10 ≡ length id + suc k = omega (arith, short) in
    let split : split_word 10 (skip_spaces (id ++ q)) ≡ (id ++ 38 ∷ word, rest) =
      ap (split_word 10) (skip_spaces_id id number all)
      ∙ ap (λ n. split_word n (id ++ q)) ten
      ∙ split_word-append id q (suc k) all
      ∙ ap (λ (s : List ℕ × List ℕ). (id ++ s.0, s.1)) e in
    let found : scan_word 10 (id ++ q) ≡ some (id ++ 38 ∷ word, rest) =
      ap not_empty split ∙ not_empty_lem id word rest in
    rw (found, no_literal, scan_item) refl
