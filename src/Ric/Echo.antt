-- ===== src/Ric/Echo.antt =====
-- apps/ric/sure/rc/rc_xapp.c: what the response holds, and how much of it is sent.
use sure.Prelude.{
  ℕ, zero, suc, ◌+◌, ◌-◌, ◌*◌, ◌/◌, ◌%◌, ◌≤◌, ◌<◌, ◌≡◌, ◌↔◌, refl, sym, ap, ◌∙◌, inl, inr, true,
  Bool-cases, ltb, List, [], ◌∷◌, ◌++◌, append_assoc, length, take, drop, arith, length-take,
  length-append, drop-length_append,
}
use sure.Service.Unimsg.{Desc}
use sure.Frontend.Scan.{is_digit, decimal}
use sure.Ric.{print_digits, print_number, head_lines, tail_lines, response, reply}

-- Reading on behind some digits.
decimal-digit :
    (acc c : ℕ) (rest : List ℕ)
    → is_digit c ≡ true
    → decimal acc (c ∷ rest) ≡ decimal (10 * acc + (c - 48)) rest
decimal-digit acc c rest e = rw (e) refl

digit_of : (n : ℕ) → n < 10 → is_digit (48 + n) ≡ true
digit_of n h = ground (arith, h)

decimal-print_digits :
    (fuel n : ℕ) (rest : List ℕ)
    → n < fuel
    → decimal 0 (print_digits fuel n ++ rest) ≡ decimal n rest
decimal-print_digits zero n rest h = absurd (omega (arith, h))
decimal-print_digits (suc fuel) n rest h = elim (Bool-cases (ltb n 10)) [
  | inl e ↦ rw (e) (
      decimal-digit 0 (48 + n) rest (digit_of n (ground (arith, e)))
      ∙ ap (λ k. decimal k rest) (omega arith))
  | inr e ↦
      let big : 10 ≤ n = ground (arith, e) in
      rw (e) (
        ap (decimal 0) (append_assoc (print_digits fuel (n / 10)) ((48 + n % 10) ∷ []) rest)
        ∙ decimal-print_digits fuel (n / 10) ((48 + n % 10) ∷ rest) (omega (arith, h, big))
        ∙ decimal-digit (n / 10) (48 + n % 10) rest (digit_of (n % 10) (omega arith))
        ∙ ap (λ k. decimal k rest) (omega arith))
]

pub take-append :
    (a b : List ℕ) (n : ℕ) → length a ≤ n → take n (a ++ b) ≡ a ++ take (n - length a) b
take-append [] b n h = let z : n ≡ n - 0 = omega arith in ap (λ k. take k b) z
take-append (x ∷ a) b zero h = absurd (omega (arith, h))
take-append (x ∷ a) b (suc n) h =
    let z : suc n - suc (length a) ≡ n - length a = omega arith in
    ap (◌∷◌ x) (take-append a b n (omega (arith, h)) ∙ ap (λ k. a ++ take k b) (sym z))

-- The number that stands in the response behind "Content-Length: " is that of the bytes of the body.
pub response-length :
    (timestr body : List ℕ)
    → decimal 0 (drop (length (head_lines timestr)) (response timestr body)) ≡ length body
response-length timestr body =
    ap (decimal 0)
      (drop-length_append (head_lines timestr) (print_number (length body) ++ tail_lines body))
    ∙ decimal-print_digits (length body + 1) (length body) (tail_lines body) (omega arith)

-- The response is right in its buffer, but the size that is sent is that of the request: the client gets the
-- whole response exactly if it is no longer than the request, whatever the buffer held before; and the
-- length that the response states is always that of the body.
pub reply_iff :
    (text timestr body : List ℕ) (fresh : Desc)
    → (((rest : List ℕ) × ((reply text timestr body fresh).bytes ≡ response timestr body ++ rest))
        ↔ (length (response timestr body) ≤ length text))
      × (decimal 0 (drop (length (head_lines timestr)) (response timestr body)) ≡ length body)
unfolding reply
reply_iff text timestr body fresh =
    let r : List ℕ = response timestr body in
    let behind : List ℕ = drop (length (r ++ 0 ∷ [])) fresh.bytes in
    (
      (
        λ (rest, e).
            let whole : List ℕ = (r ++ 0 ∷ []) ++ behind in
            let same : length (take (length text) whole) ≡ length (r ++ rest) = ap length e in
            omega (arith, same, length-take (length text) whole, length-append r rest),
        λ h. (
          take (length text - length r) (0 ∷ behind),
          ap (take (length text)) (append_assoc r (0 ∷ []) behind)
              ∙ take-append r (0 ∷ behind) (length text) h,
        ),
      ),
      response-length timestr body,
    )
