-- ===== src/Frontend/Params.antt =====
-- The body of `POST /cart/checkout` of apps/boutique/sure/frontend/main.c: what READ_PARAM reads of it.
use Prim.Native.String.{String}
use sure.Prelude.{
  ℕ, ◌<◌, ◌≡◌, ◌≢◌, refl, sym, ap, ◌∙◌, inl, inr, Bool, Bool-cases, true-ne-false, true, false, ltb,
  lt→ltb, ◌==◌, if◌then◌else◌, Option, none, some, List, [], ◌∷◌, ◌++◌, length, All, arith,
  append-nil,
}
use sure.Prelude.Bytes.{bytes_of}
use sure.Prelude.Int.{ℤ, pos, to_i32}
use sure.Frontend.{strchr, behind}
use sure.Frontend.Parse.{strchr-first}
use sure.Frontend.Scan.{is_digit, scan_word, decimal}
use sure.Frontend.Words.{IsWord, IsNumber, scan_literal-append, scan_word_lem, scan_int_lem}
use sure.Frontend.OrderForm.{
  OrderForm, value, word_of, int_of, number, cut_param, read_word, read_int, read_form,
}

abbrev pub NoAmp : List ℕ → Type 0
NoAmp text = All (λ c. c ≢ 38) text

abbrev pub no_amp : List ℕ → Bool
no_amp [] = true
no_amp (c ∷ cs) = let rest = no_amp cs in if c == 38 then false else rest

-- The names of the parameters are decided by running the test.
pub no_amp-NoAmp : (text : List ℕ) → no_amp text ≡ true → NoAmp text
no_amp-NoAmp [] e = tt
no_amp-NoAmp (c ∷ cs) e = elim (Bool-cases (c == 38)) [
  | inl f ↦ absurd (true-ne-false (sym e ∙ (rw (f) refl)))
  | inr f ↦ (
    λ same. ground (arith, f, same),
    no_amp-NoAmp cs (sym (let z : no_amp (c ∷ cs) ≡ no_amp cs = rw (f) refl in z) ∙ e),
  )
]

All-append : (P : ℕ → Type 0) (a b : List ℕ) → All P a → All P b → All P (a ++ b)
All-append P [] b p q = q
All-append P (x ∷ a) b (h, p) q = (h, All-append P a b p q)

digit_no_amp : (c : ℕ) → is_digit c ≡ true → c ≢ 38
digit_no_amp c e same = ground (arith, e, same)

digits-NoAmp : (w : List ℕ) → All (λ c. is_digit c ≡ true) w → NoAmp w
digits-NoAmp [] all = tt
digits-NoAmp (c ∷ w) (e, all) = (digit_no_amp c e, digits-NoAmp w all)

number-NoAmp : (w : List ℕ) → IsNumber w → NoAmp w
number-NoAmp [] no_number = absurd no_number
number-NoAmp (c ∷ w) digits = digits-NoAmp (c ∷ w) digits

strchr-none : (c : ℕ) (text : List ℕ) → All (λ x. x ≢ c) text → strchr c text ≡ none
unfolding strchr
strchr-none c [] all = refl
strchr-none c (x ∷ text) (h, all) =
    let other : (x == c) ≡ false = ground (arith, h) in
    rw (other) (ap (behind x) (strchr-none c text all))

-- "<name><text>", and what follows behind an `&`.
abbrev pub param : String → List ℕ → List ℕ → List ℕ
param name text rest = (bytes_of name ++ text) ++ 38 ∷ rest

cut_param-first : (a rest : List ℕ) → NoAmp a → cut_param (a ++ 38 ∷ rest) ≡ (a, some rest)
unfolding cut_param
cut_param-first a rest all = rw (strchr-first 38 a rest all, cut_param) refl

cut_param-last : (a : List ℕ) → NoAmp a → cut_param a ≡ (a, none)
unfolding cut_param
cut_param-last a all = rw (strchr-none 38 a all, cut_param) refl

fit_lem :
    (size : ℕ) (later : Option (List ℕ)) (w : List ℕ)
    → IsWord w
    → length w < size
    → word_of size later (some w) ≡ value w later
fit_lem size later w word h =
    let scanned : scan_word (length w) w ≡ some (w, []) =
      ap (scan_word (length w)) (sym (append-nil w)) ∙ scan_word_lem w [] word in
    let fits : ltb (length w) size ≡ true = lt→ltb (length w) size h in rw (scanned, fits) refl

read_word_lem :
    (name : String) (size : ℕ) (w rest : List ℕ)
    → NoAmp (bytes_of name)
    → IsWord w
    → NoAmp w
    → length w < size
    → read_word name size (some (param name w rest)) ≡ value w (some rest)
unfolding read_word
read_word_lem name size w rest plain word plain_word h =
    rw
      (
        cut_param-first (bytes_of name ++ w) rest
            (All-append (λ c. c ≢ 38) (bytes_of name) w plain plain_word),
        read_word,
      )
      (ap (word_of size (some rest)) (scan_literal-append (bytes_of name) w)
        ∙ fit_lem size (some rest) w word h)

read_int_lem :
    (name : String) (w rest : List ℕ)
    → NoAmp (bytes_of name)
    → IsNumber w
    → read_int name (some (param name w rest)) ≡ value (to_i32 (pos (decimal 0 w))) (some rest)
unfolding read_int
read_int_lem name w rest plain digits =
    rw
      (
        cut_param-first (bytes_of name ++ w) rest
            (All-append (λ c. c ≢ 38) (bytes_of name) w plain (number-NoAmp w digits)),
        read_int,
      )
      (ap (int_of (some rest)) (scan_literal-append (bytes_of name) w)
        ∙ ap (number (some rest)) (scan_int_lem w digits))

read_int_last :
    (name : String) (w : List ℕ)
    → NoAmp (bytes_of name)
    → IsNumber w
    → read_int name (some (bytes_of name ++ w)) ≡ value (to_i32 (pos (decimal 0 w))) none
unfolding read_int
read_int_last name w plain digits =
    rw
      (
        cut_param-last (bytes_of name ++ w)
            (All-append (λ c. c ≢ 38) (bytes_of name) w plain (number-NoAmp w digits)),
        read_int,
      )
      (ap (int_of none) (scan_literal-append (bytes_of name) w)
        ∙ ap (number none) (scan_int_lem w digits))

-- The values of the ten parameters, as a client writes them.
pub record FormText : Type 0 where
  pub email : List ℕ
  pub street_address : List ℕ
  pub zip_code : List ℕ
  pub city : List ℕ
  pub state : List ℕ
  pub country : List ℕ
  pub card : List ℕ
  pub month : List ℕ
  pub year : List ℕ
  pub cvv : List ℕ

abbrev pub form_body : FormText → List ℕ
form_body t = param "email=" t.email (
    param "street_address=" t.street_address (
      param "zip_code=" t.zip_code (
        param "city=" t.city (
          param "state=" t.state (
            param "country=" t.country (
              param "credit_card_number=" t.card (
                param "credit_card_expiration_month=" t.month (
                  param "credit_card_expiration_year=" t.year
                    (bytes_of "credit_card_cvv=" ++ t.cvv)))))))))

abbrev pub int_value : List ℕ → ℤ
int_value w = to_i32 (pos (decimal 0 w))

abbrev pub form_of : FormText → OrderForm
form_of t = record {
  email = t.email;
  street_address = t.street_address;
  zip_code = int_value t.zip_code;
  city = t.city;
  state = t.state;
  country = t.country;
  credit_card_number = t.card;
  credit_card_expiration_month = int_value t.month;
  credit_card_expiration_year = int_value t.year;
  credit_card_cvv = int_value t.cvv;
}

-- A word without `&` that fits into an array of this size, with the 0 behind it.
abbrev pub FitsInto : ℕ → List ℕ → Type 0
FitsInto size w = IsWord w × NoAmp w × (length w < size)

pub record IsForm (t : FormText) : Type 0 where
  pub email : FitsInto 50 t.email
  pub street_address : FitsInto 50 t.street_address
  pub zip_code : IsNumber t.zip_code
  pub city : FitsInto 15 t.city
  pub state : FitsInto 15 t.state
  pub country : FitsInto 15 t.country
  pub card : FitsInto 30 t.card
  pub month : IsNumber t.month
  pub year : IsNumber t.year
  pub cvv : IsNumber t.cvv

word_param :
    (name : String) (size : ℕ) (w rest : List ℕ)
    → no_amp (bytes_of name) ≡ true
    → FitsInto size w
    → read_word name size (some (param name w rest)) ≡ value w (some rest)
word_param name size w rest plain (word, no_amp', h) =
    read_word_lem name size w rest (no_amp-NoAmp (bytes_of name) plain) word no_amp' h

int_param :
    (name : String) (w rest : List ℕ)
    → no_amp (bytes_of name) ≡ true
    → IsNumber w
    → read_int name (some (param name w rest)) ≡ value (int_value w) (some rest)
int_param name w rest plain digits =
    read_int_lem name w rest (no_amp-NoAmp (bytes_of name) plain) digits

-- A body that has the ten parameters in the order of the handler, whose words have no white space and no
-- `&` and are shorter than the arrays they are read to, and whose numbers are of digits, is read without
-- an overrun, to exactly those words, and to those numbers as `int`s.
pub read_form-form_body :
    (t : FormText) → IsForm t → read_form (form_body t) ≡ value (form_of t) none
unfolding read_form
read_form-form_body t h =
    rw
      (
        word_param "email=" 50 t.email _ refl h.email,
        word_param "street_address=" 50 t.street_address _ refl h.street_address,
        int_param "zip_code=" t.zip_code _ refl h.zip_code,
        word_param "city=" 15 t.city _ refl h.city,
        word_param "state=" 15 t.state _ refl h.state,
        word_param "country=" 15 t.country _ refl h.country,
        word_param "credit_card_number=" 30 t.card _ refl h.card,
        int_param "credit_card_expiration_month=" t.month _ refl h.month,
        int_param "credit_card_expiration_year=" t.year _ refl h.year,
        read_int_last "credit_card_cvv=" t.cvv (no_amp-NoAmp (bytes_of "credit_card_cvv=") refl)
            h.cvv,
        read_form,
      )
      refl
