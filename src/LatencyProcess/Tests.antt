-- ===== src/LatencyProcess/Tests.antt =====
-- apps/rr-latency/process/main.c, on messages of three bytes.
use sure.Prelude.{
  ℕ, ◌+◌, ◌-◌, ◌<◌, ◌≡◌, ◌≢◌, ◌↔◌, refl, ap, true, false, List, [], ◌∷◌, length, replicate, some,
  none, arith,
}
use sure.Latency.{sizeof, http_resp}
use sure.LatencyProcess.{
  Options, defaults, opt_h, opt_u, opt_m, opt_s, parse_command_line, Received, got, closed, eagain,
  failed, took, send_eagain, request, serve_messages, do_client_rr, response_text,
}
use sure.LatencyProcess.Stream.{Arrives}
use sure.LatencyProcess.Ends.{idle, Broke, serve_messages-Broke}
use sure.LatencyProcess.Framing.{response_text_iff}

abbrev polling : Options
polling = record defaults { size = 3; busy_poll = true; warmup = 1; iterations = 1 }

-- 1, 2 and 3, the first of them alone.
abbrev in_parts : List Received
in_parts = eagain ∷ got 1 [] ∷ eagain ∷ got 2 (3 ∷ []) ∷ []

some_left : (n : ℕ) (ns : List ℕ) → (n ∷ ns) ≢ []
some_left n ns e = let z : 1 ≡ 0 = ap one_if e in absurd (omega (arith, z))
  where
    one_if : List ℕ → ℕ
    one_if [] = 0
    one_if (x ∷ xs) = 1

in_parts-Arrives : Arrives true in_parts (1 ∷ 2 ∷ 3 ∷ [])
in_parts-Arrives = (
  refl,
  some_left 1 (2 ∷ 3 ∷ []),
  (2 ∷ 3 ∷ [], refl, (refl, some_left 2 (3 ∷ []), ([], refl, refl))),
)

serve_messages-Broke_example :
    Broke ((1 ∷ 2 ∷ 3 ∷ []) ∷ (1 ∷ 2 ∷ 3 ∷ []) ∷ []) ((1 ∷ 2 ∷ 3 ∷ []) ∷ (1 ∷ 2 ∷ 3 ∷ []) ∷ []) (
      serve_messages (2 + 6) polling (replicate 16 0) (
        idle [] [] (in_parts ∷ in_parts ∷ (closed ∷ []) ∷ []) (took 3 ∷ send_eagain ∷ took 3 ∷ [])))
serve_messages-Broke_example =
    serve_messages-Broke polling refl (omega arith) ((1 ∷ 2 ∷ 3 ∷ []) ∷ (1 ∷ 2 ∷ 3 ∷ []) ∷ [])
      (in_parts ∷ in_parts ∷ []) 5 (replicate 16 0) [] [] (took 3 ∷ send_eagain ∷ took 3 ∷ [])
      (in_parts-Arrives, refl, (in_parts-Arrives, refl, tt)) (refl, (refl, (refl, tt)))

abbrev large : Options
large = record defaults { size = 12000; http = true }

response_text_iff_example :
    (length (response_text (12000 - sizeof http_resp)) + (12000 - sizeof http_resp) ≡ 12000)
    ↔ (12000 < 10000 + sizeof http_resp)
response_text_iff_example = response_text_iff large (omega arith)

-- A client for HTTP takes an error of `recv` for a response.
error_taken :
    do_client_rr
      (record defaults { size = 81; http = true })
      []
      (idle [] [] ((failed ∷ []) ∷ []) (took 81 ∷ []))
    ≡ some (idle (request (record defaults { size = 81; http = true }) [] ∷ []) ([] ∷ []) [] [])
unfolding do_client_rr
error_taken = refl

unix_with_sk_msg : parse_command_line true (opt_u ∷ opt_m ∷ []) ≡ none
unfolding parse_command_line
unix_with_sk_msg = refl

small_response : parse_command_line false (opt_h ∷ opt_s 100 ∷ []) ≡ none
unfolding parse_command_line
small_response = refl
