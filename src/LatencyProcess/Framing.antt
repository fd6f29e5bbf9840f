-- ===== src/LatencyProcess/Framing.antt =====
-- apps/rr-latency/process/main.c: the length of the header of a response for HTTP.
use sure.Prelude.{
  ℕ, zero, suc, ◌+◌, ◌-◌, ◌/◌, ◌%◌, ◌≤◌, ◌<◌, ◌≡◌, ◌↔◌, refl, ap, ◌∙◌, true, false, ltb, [], ◌∷◌,
  ◌++◌, length, length-append, length-replicate, replicate, arith, inl, inr, Bool-cases,
}
use sure.Latency.{crlf, lines, sizeof, http_resp}
use sure.Prelude.Bytes.{bytes_of}
use sure.Ric.{print_digits, print_number}
use sure.LatencyProcess.{Options, print_width, response_text}

one_digit : (fuel n : ℕ) → n < 10 → length (print_digits (suc fuel) n) ≡ 1
one_digit fuel n h = let small : ltb n 10 ≡ true = ground (arith, h) in rw (small) refl

more_digits :
    (fuel n : ℕ)
    → 10 ≤ n
    → length (print_digits (suc fuel) n) ≡ length (print_digits fuel (n / 10)) + 1
more_digits fuel n h =
    let big : ltb n 10 ≡ false = ground (arith, h) in
    rw (big) (length-append (print_digits fuel (n / 10)) ((48 + n % 10) ∷ []) ∙ (omega arith))

some_digit : (fuel n : ℕ) → 1 ≤ length (print_digits (suc fuel) n)
some_digit fuel n = elim (Bool-cases (ltb n 10)) [
  | inl e ↦ rw (e) (omega arith)
  | inr e ↦ rw (e) (omega (arith, length-append (print_digits fuel (n / 10)) ((48 + n % 10) ∷ [])))
]

-- The number has at most that many digits and one more; it has more than that many digits.
abbrev Below : ℕ → ℕ → Type 0
Below zero n = n < 10
Below (suc k) n = Below k (n / 10)

abbrev Reaches : ℕ → ℕ → Type 0
Reaches zero n = Unit
Reaches (suc k) n = (10 ≤ n) × Reaches k (n / 10)

few_digits : (k fuel n : ℕ) → n < fuel → Below k n → length (print_digits fuel n) ≤ k + 1
few_digits k zero n a b = absurd (omega (arith, a))
few_digits zero (suc fuel) n a b = omega (arith, one_digit fuel n b)
few_digits (suc k) (suc fuel) n a b = elim (Bool-cases (ltb n 10)) [
  | inl e ↦ let small : n < 10 = ground (arith, e) in omega (arith, one_digit fuel n small)
  | inr e ↦
      let big : 10 ≤ n = ground (arith, e) in
      omega (arith, more_digits fuel n big, few_digits k fuel (n / 10) (omega (arith, a, big)) b)
]

many_digits : (k fuel n : ℕ) → n < fuel → Reaches k n → k + 1 ≤ length (print_digits fuel n)
many_digits k zero n a b = absurd (omega (arith, a))
many_digits zero (suc fuel) n a b = omega (arith, some_digit fuel n)
many_digits (suc k) (suc fuel) n a (big, b) =
    omega (arith, more_digits fuel n big, many_digits k fuel (n / 10) (omega (arith, a, big)) b)

-- `%4u` writes four bytes just for the numbers below 10000.
length-print_width : (n : ℕ) → (length (print_width n) ≡ 4) ↔ (n < 10000)
length-print_width n =
    let len : length (print_width n) ≡ 4 - length (print_number n) + length (print_number n) =
      length-append (replicate (4 - length (print_number n)) 32) (print_number n)
      ∙ ap (λ k. k + length (print_number n)) (length-replicate (4 - length (print_number n)) 32) in
    (
      λ h. elim (Bool-cases (ltb n 10000)) [
        | inl e ↦ ground (arith, e)
        | inr e ↦
            let big : 10000 ≤ n = ground (arith, e) in
            let long : 5 ≤ length (print_number n) = many_digits 4 (n + 1) n (omega arith) (
              omega (arith, big),
              (omega (arith, big), (omega (arith, big), (omega (arith, big), tt))),
            ) in
            absurd (omega (arith, h, long, len))
      ],
      λ h.
          let short : length (print_number n) ≤ 4 =
            few_digits 3 (n + 1) n (omega arith) (omega (arith, h)) in
          omega (arith, len, short),
    )

length-response_text : (n : ℕ) → length (response_text n) ≡ 152 + length (print_width n)
length-response_text n = omega (
  arith,
  length-append (print_width n) (crlf ++ lines (bytes_of "Connection: keep-alive" ∷ [] ∷ [])),
)

-- The text of a response has the length that the size of the body was computed with, so that the body
-- which is sent behind it has as many bytes as Content-Length says, exactly if the body has less than
-- 10000 bytes.
pub response_text_iff :
    (o : Options)
    → sizeof http_resp ≤ o.size
    → (length (response_text (o.size - sizeof http_resp)) + (o.size - sizeof http_resp) ≡ o.size)
      ↔ (o.size < 10000 + sizeof http_resp)
response_text_iff o h =
    let body : ℕ = o.size - sizeof http_resp in
    let (there, back) = length-print_width body in
    let text = length-response_text body in
    (
      λ e. let few : body < 10000 = there (omega (arith, e, text, h)) in omega (arith, few, h),
      λ e.
          let four : length (print_width body) ≡ 4 = back (omega (arith, e, h)) in
          omega (arith, four, text, h),
    )
