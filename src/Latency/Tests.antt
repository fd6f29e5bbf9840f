-- ===== src/Latency/Tests.antt =====
-- apps/rr-latency/sure/main.c with buffers that have room for 40 bytes.
use sure.Prelude.{
  ℕ, ◌+◌, ◌++◌, ◌≤◌, length, ◌≡◌, ◌≢◌, refl, ap, true, List, [], ◌∷◌, All, none, arith,
}
use sure.Latency.{
  Options, defaults, opt_c, opt_s, opt_h, sizeof, http_req, http_resp, parse_command_line,
  request_sizes, Received, got, eagain, econnreset, message, gather,
}
use sure.Latency.Sizes.{total, request, request-total}
use sure.Latency.Gather.{Arrives, gather_lem}
use sure.Latency.Server.{broken, waiting, serve_messages, serve_messages-sends_back}

abbrev polling : Options
polling = record defaults { size = 100; busy_poll = true; buffers_reuse = true }

three_descriptors : request 40 polling ≡ 40 ∷ 40 ∷ 20 ∷ []
unfolding request_sizes
three_descriptors = refl

sizes_of_texts : (sizeof http_req ≡ 82) × (sizeof http_resp ≡ 156)
sizes_of_texts = (refl, refl)

no_iterations : parse_command_line (opt_c ∷ opt_s 100 ∷ []) ≡ none
unfolding parse_command_line
no_iterations = refl

small_response : parse_command_line (opt_h ∷ opt_s 100 ∷ []) ≡ none
unfolding parse_command_line
small_response = refl

abbrev outs : List Received
outs = eagain ∷ got (40 ∷ []) ∷ eagain ∷ got (40 ∷ 20 ∷ []) ∷ []

some_left : (n : ℕ) (ns : List ℕ) → (n ∷ ns) ≢ []
some_left n ns e = let z : 1 ≡ 0 = ap one_if e in absurd (omega (arith, z))
  where
    one_if : List ℕ → ℕ
    one_if [] = 0
    one_if (x ∷ xs) = 1

outs-Arrives : Arrives true outs (request 40 polling)
unfolding request_sizes
outs-Arrives = (
  refl,
  some_left 40 (40 ∷ 20 ∷ []),
  (40 ∷ 20 ∷ [], refl, (refl, some_left 40 (20 ∷ []), ([], refl, refl))),
)

hundred_bytes :
    (total (request 40 polling) ≡ 100)
    × All (λ m. (1 ≤ m) × (m ≤ 40)) (request 40 polling)
    × (length (request 40 polling) ≡ 3)
hundred_bytes = request-total 40 polling refl (omega arith) (omega arith)

two_parts :
    gather polling [] 0 (eagain ∷ got (60 ∷ []) ∷ got (40 ∷ []) ∷ []) ≡ message (60 ∷ 40 ∷ []) []
two_parts =
    gather_lem polling refl (omega arith) (eagain ∷ got (60 ∷ []) ∷ got (40 ∷ []) ∷ []) []
      (60 ∷ 40 ∷ []) 0 (refl, some_left 60 (40 ∷ []), (40 ∷ [], refl, ([], refl, refl)))
      (omega arith, (omega arith, tt)) (some_left 60 (40 ∷ [])) (omega arith)

serve_messages-sends_back_example :
    serve_messages (2 + 5) 40 polling (
      waiting 40 polling refl
        (omega arith)
        (omega arith)
        (omega arith)
        3
        0
        ((outs ∷ outs ∷ []) ++ ((econnreset ∷ []) ∷ [])))
    ≡ broken (
        waiting 40 polling refl
          (omega arith)
          (omega arith)
          (omega arith)
          3
          (2 + 0)
          ((econnreset ∷ []) ∷ []))
serve_messages-sends_back_example =
    serve_messages-sends_back 40 polling refl (omega arith) (omega arith) (omega arith) 3 0 4
      (outs ∷ outs ∷ []) (outs-Arrives, (outs-Arrives, tt))
