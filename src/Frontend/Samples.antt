-- ===== src/Frontend/Samples.antt =====
-- apps/boutique/sure/frontend/main.c: handlers at small requests.
use Prim.Native.String.{String}
use sure.Prelude.{
  ℕ, ◌≡◌, refl, sym, ◌∙◌, inl, inr, Bool, true, false, Bool-cases, true-ne-false, All,
  if◌then◌else◌, none, some, List, [], ◌∷◌, ◌++◌, arith,
}
use sure.Prelude.Int.{negsuc, to_i32}
use sure.Prelude.Bytes.{bytes_of, c_string}
use sure.Frontend.{strchr, strstr, crlf, blank_line, parse_http_request}
use sure.Frontend.Scan.{is_space, scan_word, scan_int}
use sure.Frontend.Calls.{done}
use sure.Frontend.Pages.{http_ok, http_not_found, scan_item, set_currency_handler}
use sure.Frontend.OrderForm.{value, read_form}
use sure.Frontend.Routes.{route, handle_request}
use sure.Frontend.Table.{Agrees, route_lem}
use sure.Frontend.Does.{Does}
use sure.Frontend.Session.{Ours}
use sure.Frontend.Requests.{Fits, handle_request-Ours}
use sure.Frontend.Buffers.{Balanced, handle_request-Balanced}
use sure.Frontend.Items.{item_body, scan_item_short}
use sure.Frontend.Params.{FormText, IsForm, form_body, form_of, read_form-form_body, no_amp-NoAmp}

abbrev cad : List ℕ
cad = bytes_of "CAD"

abbrev http : String → String → List ℕ
http line body = (bytes_of line ++ crlf) ++ (bytes_of "Host: a" ++ (blank_line ++ bytes_of body))

currency_is_set :
    handle_request [] cad (http "POST /setCurrency HTTP/1.1" "currency_code=EURO")
    ≡ done (http_ok, bytes_of "EUR")
unfolding handle_request parse_http_request strstr strchr route set_currency_handler scan_word
currency_is_set = refl

unknown_page : handle_request [] cad (http "PUT /cart HTTP/1.1" "") ≡ done (http_not_found, cad)
unfolding handle_request parse_http_request strstr strchr route
unknown_page = refl

negative_number :
    scan_item (item_body (bytes_of "6E92ZMYYFZ") (bytes_of "-3"))
    ≡ some (bytes_of "6E92ZMYYFZ", negsuc 2)
unfolding scan_item scan_word scan_int to_i32
negative_number = refl

abbrev home_form : FormText
home_form = record {
  email = bytes_of "a@b.c";
  street_address = bytes_of "Street+1";
  zip_code = bytes_of "94043";
  city = bytes_of "Ville";
  state = bytes_of "CA";
  country = bytes_of "US";
  card = bytes_of "4432-8015-6152-0454";
  month = bytes_of "1";
  year = bytes_of "2039";
  cvv = bytes_of "672";
}

abbrev no_spaces : List ℕ → Bool
no_spaces [] = true
no_spaces (c ∷ cs) = let rest = no_spaces cs in if is_space c then false else rest

no_spaces_lem : (w : List ℕ) → no_spaces w ≡ true → All (λ x. is_space x ≡ false) w
no_spaces_lem [] e = tt
no_spaces_lem (c ∷ cs) e = elim (Bool-cases (is_space c)) [
  | inl f ↦ absurd (true-ne-false (sym e ∙ (rw (f) refl)))
  | inr f ↦
      (f, no_spaces_lem cs (sym (let z : no_spaces (c ∷ cs) ≡ no_spaces cs = rw (f) refl in z) ∙ e))
]

home_form-IsForm : IsForm home_form
home_form-IsForm = record {
  email = (no_spaces_lem home_form.email refl, no_amp-NoAmp home_form.email refl, omega arith);
  street_address = (
    no_spaces_lem home_form.street_address refl,
    no_amp-NoAmp home_form.street_address refl,
    omega arith,
  );
  zip_code = (refl, (refl, (refl, (refl, (refl, tt)))));
  city = (no_spaces_lem home_form.city refl, no_amp-NoAmp home_form.city refl, omega arith);
  state = (no_spaces_lem home_form.state refl, no_amp-NoAmp home_form.state refl, omega arith);
  country =
      (no_spaces_lem home_form.country refl, no_amp-NoAmp home_form.country refl, omega arith);
  card = (no_spaces_lem home_form.card refl, no_amp-NoAmp home_form.card refl, omega arith);
  month = (refl, tt);
  year = (refl, (refl, (refl, (refl, tt))));
  cvv = (refl, (refl, (refl, tt)));
}

route_lem_example : Agrees [] cad (bytes_of "POST") (bytes_of "a") (bytes_of "/cart")
route_lem_example = route_lem [] cad (bytes_of "POST") (bytes_of "a") (bytes_of "/cart")

handle_request-Ours_example :
    Does
      (Ours (c_string cad))
      Fits
      (handle_request [] cad (http "POST /setCurrency HTTP/1.1" "currency_code=EURO"))
handle_request-Ours_example =
    handle_request-Ours cad [] (http "POST /setCurrency HTTP/1.1" "currency_code=EURO")
      (omega arith)

handle_request-Balanced_example : Balanced 0 0 (handle_request [] cad (http "GET / HTTP/1.1" ""))
handle_request-Balanced_example = handle_request-Balanced [] cad (http "GET / HTTP/1.1" "")

scan_item_short_example : scan_item (item_body (bytes_of "MUG") (bytes_of "3")) ≡ none
scan_item_short_example =
    scan_item_short (bytes_of "MUG") (bytes_of "3") (refl, (refl, (refl, tt))) (omega arith)
      (refl, tt)

read_form-form_body_example : read_form (form_body home_form) ≡ value (form_of home_form) none
read_form-form_body_example = read_form-form_body home_form home_form-IsForm
