-- ===== src/Steering/Echo.antt =====
-- apps/ric/sure/ts/ts_xapp.cpp and apps/ric/sure/rc/rc_xapp.c: a request of the one to the other, and the
-- response.
use sure.Prelude.{
  ℕ, ◌+◌, ◌-◌, ◌%◌, ◌^◌, ◌≤◌, ◌<◌, ◌≡◌, refl, ap, ◌∙◌, true, List, [], ◌∷◌, ◌++◌, append_assoc,
  length, length-append, take, drop, some, arith,
}
use sure.Prelude.Bytes.{bytes_of}
use sure.Frontend.{until_nul, starts_with, crlf, blank_line}
use sure.Service.Unimsg.{Desc}
use sure.Ric.{print_number, expected_req, response, find_body, reply}
use sure.Ric.Echo.{take-append}
use sure.Steering.Post.{post_text, rc_addr, rc_port, read_response}
use sure.Steering.Lines.{
  lacks, lacks-append, lacks-digits, until_nul-append, until_nul_lem, text_of, AreLines,
  find_body-lines,
}

-- The lines of a request, and those of a response.
abbrev request_lines : ℕ → List (List ℕ)
request_lines n =
    bytes_of "POST /api/echo HTTP/1.1"
    ∷ bytes_of "Host: 50331658:5000"
    ∷ bytes_of "Accept: application/json"
    ∷ bytes_of "Content-Type: application/json"
    ∷ (bytes_of "Content-Length: " ++ print_number n)
    ∷ []

abbrev response_lines : List ℕ → ℕ → List (List ℕ)
response_lines t n =
    bytes_of "HTTP/1.1 200 OK"
    ∷ bytes_of "Server: Custom/1.0.0 Custom/1.0.0"
    ∷ (bytes_of "Date: " ++ t)
    ∷ (bytes_of "Content-Length: " ++ print_number n)
    ∷ bytes_of "Connection: close"
    ∷ []

abbrev pub request : List ℕ → List ℕ
request msg = post_text (bytes_of "/api/echo") rc_addr rc_port msg

request-text_of :
    (msg : List ℕ)
    → lacks 0 msg ≡ true
    → length msg < 2 ^ 32
    → request msg ≡ text_of (request_lines (length msg)) msg
request-text_of msg clean small =
    let size : length msg % 2 ^ 32 ≡ length msg = omega (arith, small) in
    rw (size, until_nul_lem msg clean) refl

response-text_of : (t msg : List ℕ) → response t msg ≡ text_of (response_lines t (length msg)) msg
response-text_of t msg =
    let behind_t : List ℕ = crlf ++ bytes_of "Content-Length: " in
    let more : List ℕ =
      print_number (length msg)
      ++ (crlf ++ (bytes_of "Connection: close" ++ (blank_line ++ msg))) in
    ap
      (λ x.
        bytes_of "HTTP/1.1 200 OK"
        ++ (crlf
            ++ (bytes_of "Server: Custom/1.0.0 Custom/1.0.0"
                ++ (crlf ++ (bytes_of "Date: " ++ x)))))
      (append_assoc t behind_t more)

length-response :
    (t msg : List ℕ)
    → length (response t msg) ≡ 99 + length t + length (print_number (length msg)) + length msg
length-response t msg =
    let n : ℕ = length msg in
    let behind_t : List ℕ =
      crlf
      ++ (bytes_of "Content-Length: "
          ++ (print_number n ++ (crlf ++ (bytes_of "Connection: close" ++ (blank_line ++ msg))))) in
    omega (
      arith,
      ap length (response-text_of t msg),
      length-append t behind_t,
      length-append (print_number n)
          (crlf ++ (bytes_of "Connection: close" ++ (blank_line ++ msg))),
    )

length-request :
    (msg : List ℕ)
    → lacks 0 msg ≡ true
    → length msg < 2 ^ 32
    → length (request msg) ≡ 124 + length (print_number (length msg)) + length msg
length-request msg clean small = omega (
  arith,
  ap length (request-text_of msg clean small),
  length-append (print_number (length msg)) (blank_line ++ msg),
)

request-AreLines : (n : ℕ) → AreLines (request_lines n)
request-AreLines n = (refl, (refl, (refl, (refl, (lacks-digits 13 (n + 1) n (omega arith), tt)))))

response-AreLines : (t : List ℕ) (n : ℕ) → lacks 13 t ≡ true → AreLines (response_lines t n)
response-AreLines t n e = (refl, (refl, (e, (lacks-digits 13 (n + 1) n (omega arith), (refl, tt)))))

response-lacks :
    (t msg : List ℕ) → lacks 0 t ≡ true → lacks 0 msg ≡ true → lacks 0 (response t msg) ≡ true
response-lacks t msg e f =
    let n : ℕ = length msg in
    let behind_t : List ℕ =
      crlf
      ++ (bytes_of "Content-Length: "
          ++ (print_number n ++ (crlf ++ (bytes_of "Connection: close" ++ (blank_line ++ msg))))) in
    ap (lacks 0) (response-text_of t msg)
    ∙ lacks-append 0 t behind_t e
        (lacks-append 0 (print_number n) _ (lacks-digits 0 (n + 1) n (omega arith)) f)

-- The response as a C string.
reply-response :
    (msg t : List ℕ) (fresh : Desc)
    → lacks 0 msg ≡ true
    → lacks 0 t ≡ true
    → length t ≤ 24
    → length msg < 2 ^ 32
    → until_nul (reply (request msg) t msg fresh).bytes ≡ response t msg
unfolding reply
reply-response msg t fresh clean clean_t short small =
    let r : List ℕ = response t msg in
    let n : ℕ = length (request msg) in
    let buffer : List ℕ = drop (length (r ++ 0 ∷ [])) fresh.bytes in
    let fits : length (r ++ 0 ∷ []) ≤ n = omega (
      arith,
      short,
      length-append r (0 ∷ []),
      length-response t msg,
      length-request msg clean small,
    ) in
    ap until_nul (
      take-append (r ++ 0 ∷ []) buffer n fits
      ∙ append_assoc r (0 ∷ []) (take (n - length (r ++ 0 ∷ [])) buffer))
    ∙ until_nul-append r (take (n - length (r ++ 0 ∷ [])) buffer)
        (response-lacks t msg clean_t clean)

-- The control application takes a request of the traffic steering application for what it is, and it
-- finds the message in it. It sends no more of its response than the request has bytes: for a time of at
-- most 24 bytes without the end of a line, as `%c` prints it, and a message without a 0 that is shorter
-- than 2 ^ 32, that is the whole response, and the traffic steering application finds the same message
-- in it, whatever stood in the buffer of the response.
pub read_response-reply :
    (msg t : List ℕ) (fresh : Desc)
    → lacks 0 msg ≡ true
    → lacks 0 t ≡ true
    → lacks 13 t ≡ true
    → length t ≤ 24
    → length msg < 2 ^ 32
    → (starts_with expected_req (request msg) ≡ true)
      × (find_body (request msg) ≡ some msg)
      × (read_response (until_nul (reply (request msg) t msg fresh).bytes) ≡ some msg)
unfolding read_response
read_response-reply msg t fresh clean clean_t one_line short small = (
  ap (starts_with expected_req) (request-text_of msg clean small),
  ap find_body (request-text_of msg clean small)
      ∙ find_body-lines (request_lines (length msg)) msg (request-AreLines (length msg)),
  ap read_response (reply-response msg t fresh clean clean_t short small ∙ response-text_of t msg)
      ∙ find_body-lines (response_lines t (length msg)) msg
          (response-AreLines t (length msg) one_line),
)
