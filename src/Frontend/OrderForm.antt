-- ===== src/Frontend/OrderForm.antt =====
-- `placeOrderHandler` of apps/boutique/sure/frontend/main.c: the parameters of an order.
use Prim.Native.String.{String}
use sure.Prelude.{ℕ, ltb, if◌then◌else◌, Option, none, some, List, [], length}
use sure.Prelude.Bytes.{bytes_of, c_string}
use sure.Prelude.Int.{ℤ}
use sure.Money.{Money}
use sure.Checkout.{add_items}
use sure.Frontend.{strchr}
use sure.Frontend.Scan.{scan_literal, scan_word, scan_int}
use sure.Frontend.Calls.{
  PlaceOrderRequest, get_supported_currencies, list_recommendations, place_order, buffer_get,
  buffer_put, Run, done, undefined, call, then_run,
}
use sure.Frontend.Pages.{Response, http_ok, http_bad_request, user_id}

-- The variables of `placeOrderHandler`.
pub record OrderForm : Type 0 where
  pub email : List ℕ
  pub street_address : List ℕ
  pub zip_code : ℤ
  pub city : List ℕ
  pub state : List ℕ
  pub country : List ℕ
  pub credit_card_number : List ℕ
  pub credit_card_expiration_month : ℤ
  pub credit_card_expiration_year : ℤ
  pub credit_card_cvv : ℤ

-- What comes of READ_PARAM: a bad request; a word that its array does not hold; or the value, and what
-- stands behind the `&`, if there is one.
pub data Param (A : Type 0) : Type 0 where
  refused : Param A
  overrun : Param A
  value : A → Option (List ℕ) → Param A

abbrev pub then_param : {A B : Type 0} → Param A → (A → Option (List ℕ) → Param B) → Param B
then_param refused k = refused
then_param overrun k = overrun
then_param (value a later) k = k a later

-- `strchr(param, '&')`, and the end of the parameter.
unfoldable pub cut_param : List ℕ → List ℕ × Option (List ℕ)
unfolding strchr
cut_param text = elim (strchr 38 text) [
  | none ↦ (text, none)
  | some (param, later) ↦ (param, some later)
]

-- A word that `%s` writes to an array of this size, with the 0 behind it.
abbrev pub fit : ℕ → Option (List ℕ) → Option (List ℕ × List ℕ) → Param (List ℕ)
fit size later none = refused
fit size later (some (word, _)) = if ltb (length word) size then value word later else overrun

abbrev pub word_of : ℕ → Option (List ℕ) → Option (List ℕ) → Param (List ℕ)
word_of size later none = refused
word_of size later (some text) = fit size later (scan_word (length text) text)

-- READ_PARAM(name, "%s", dst)
unfoldable pub read_word : String → ℕ → Option (List ℕ) → Param (List ℕ)
unfolding cut_param
read_word name size none = refused
read_word name size (some text) =
    let (param, later) = cut_param text in word_of size later (scan_literal (bytes_of name) param)

abbrev pub number : Option (List ℕ) → Option ℤ → Param ℤ
number later none = refused
number later (some n) = value n later

abbrev pub int_of : Option (List ℕ) → Option (List ℕ) → Param ℤ
int_of later none = refused
int_of later (some text) = number later (scan_int text)

-- READ_PARAM(name, "%d", dst)
unfoldable pub read_int : String → Option (List ℕ) → Param ℤ
unfolding cut_param
read_int name none = refused
read_int name (some text) =
    let (param, later) = cut_param text in int_of later (scan_literal (bytes_of name) param)

-- The ten parameters, in their order.
unfoldable pub read_form : List ℕ → Param OrderForm
unfolding read_word read_int
read_form body = then_param (read_word "email=" 50 (some body)) (λ email p1.
    then_param (read_word "street_address=" 50 p1) (λ street_address p2.
      then_param (read_int "zip_code=" p2) (λ zip_code p3.
        then_param (read_word "city=" 15 p3) (λ city p4.
          then_param (read_word "state=" 15 p4) (λ state p5.
            then_param (read_word "country=" 15 p5) (λ country p6.
              then_param (read_word "credit_card_number=" 30 p6) (λ card p7.
                then_param (read_int "credit_card_expiration_month=" p7) (λ month p8.
                  then_param (read_int "credit_card_expiration_year=" p8) (λ year p9.
                    then_param (read_int "credit_card_cvv=" p9) (λ cvv p10.
                      value
                        (record {
                          email = email;
                          street_address = street_address;
                          zip_code = zip_code;
                          city = city;
                          state = state;
                          country = country;
                          credit_card_number = card;
                          credit_card_expiration_month = month;
                          credit_card_expiration_year = year;
                          credit_card_cvv = cvv;
                        })
                        p10))))))))))

-- What is written to `rr->req`.
abbrev pub order_request : String → OrderForm → PlaceOrderRequest
order_request currency form = record {
  user_id = user_id;
  user_currency = currency;
  email = c_string form.email;
  address = record {
    street_address = c_string form.street_address;
    city = c_string form.city;
    state = c_string form.state;
    country = c_string form.country;
    zip_code = form.zip_code;
  };
  credit_card_number = c_string form.credit_card_number;
  credit_card_expiration_month = form.credit_card_expiration_month;
  credit_card_expiration_year = form.credit_card_expiration_year;
  credit_card_cvv = form.credit_card_cvv;
}

-- The calls behind the parameters; the result is `total_paid`.
unfoldable pub submit_order : String → OrderForm → Run Money
submit_order currency form = call (place_order (order_request currency form)) (λ order.
    call buffer_get (λ _. call (list_recommendations user_id []) (λ _. call buffer_put (λ _.
      let total_paid = add_items order.num_items 0 order.items order.shipping_cost in
      call get_supported_currencies (λ _. done total_paid)))))

-- `placeOrderHandler`: the total is not part of the response.
unfoldable pub place_order_handler : String → List ℕ → Run Response
unfolding read_form submit_order
place_order_handler currency body = elim (read_form body) [
  | refused ↦ done http_bad_request
  | overrun ↦ undefined
  | value form _ ↦ then_run (submit_order currency form) (λ _. done http_ok)
]
