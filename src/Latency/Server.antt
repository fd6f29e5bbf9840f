-- ===== src/Latency/Server.antt =====
-- apps/rr-latency/sure/main.c: the server as a whole.
use sure.Prelude.{
  ℕ, zero, suc, ◌+◌, ◌^◌, ◌≤◌, ◌<◌, ◌≡◌, ap, ◌∙◌, false, List, [], ◌∷◌, ◌++◌, length, replicate,
  All, Option, none, some, arith,
}
use sure.Latency.{
  Options, Received, econnreset, message, ends, waits, gather, client_sends, server_answers,
}
use sure.Latency.Sizes.{request}
use sure.Latency.Gather.{Arrives}
use sure.Latency.Exchange.{exchange_lem}
use sure.Latency.Client.{next_parts, later}

-- The buffers that the server has; the messages that it has sent, the last one first; what was received
-- and not read; what is received before each of the messages that it sends, and what `unimsg_send` gives
-- for the next of them, which is an error or nothing.
pub record Server : Type 0 where
  pub buffers : ℕ
  pub sent : List (List ℕ)
  pub unread : List Received
  pub incoming : List (List Received)
  pub errors : List (Option Received)

abbrev pub next_error : List (Option Received) → Option Received
next_error [] = none
next_error (e ∷ es) = e

abbrev pub later_errors : List (Option Received) → List (Option Received)
later_errors [] = []
later_errors (e ∷ es) = es

-- What a round comes to: the loop goes on; it was left by `break`; or the server exits or waits for ever.
pub data Round : Type 0 where
  again broken : Server → Round
  stopped : Round

-- What is behind `unimsg_send`, which was made until it gave another error than -EAGAIN or none.
abbrev pub sent_with : Option Received → List ℕ → Server → Round
sent_with none descs s = again (record s { sent = descs ∷ s.sent })
sent_with (some econnreset) descs s = broken s
sent_with (some e) descs s = stopped

-- The body of `for (;;)`.
unfoldable pub serve_message : ℕ → Options → Server → Round
unfolding gather server_answers
serve_message available o s = elim (gather o [] 0 (s.unread ++ next_parts s.incoming)) [
  | message descs more ↦
      let turn = server_answers available o s.buffers descs in
      sent_with (next_error s.errors) turn.sent (record {
        buffers = turn.buffers;
        sent = s.sent;
        unread = more;
        incoming = later s.incoming;
        errors = later_errors s.errors;
      })
  | ends econnreset more ↦ broken s
  | ends r more ↦ stopped
  | waits ↦ stopped
]

-- `for (;;)`, for so many rounds at most.
unfoldable pub serve_messages : ℕ → ℕ → Options → Server → Round
unfolding serve_message
serve_messages zero available o s = again s
serve_messages (suc rounds) available o s = elim (serve_message available o s) [
  | again s' ↦ serve_messages rounds available o s'
  | broken s' ↦ broken s'
  | stopped ↦ stopped
]

module _ (available : ℕ) (o : Options) (plain : o.http ≡ false) (small : o.size < 2 ^ 32)
    (a : 1 ≤ available) (b : 1 ≤ o.size) where
  -- The server between two messages, with so many sent.
  abbrev pub waiting : ℕ → ℕ → List (List Received) → Server
  waiting buffers n incoming = record {
    buffers = buffers;
    sent = replicate n (request available o);
    unread = [];
    incoming = incoming;
    errors = [];
  }

  serve_message-waiting :
      (buffers n : ℕ) (parts : List Received) (more : List (List Received))
      → Arrives o.busy_poll parts (request available o)
      → serve_message available o (waiting buffers n (parts ∷ more))
        ≡ again (waiting buffers (suc n) more)
  unfolding serve_message client_sends
  serve_message-waiting buffers n parts more arrives =
      let (got_it, answers, _, _) =
        exchange_lem available o plain small a b buffers parts parts arrives arrives in
      rw (got_it) (
        ap
          (λ t. again (record (waiting buffers (suc n) more) {
            buffers = t.buffers;
            sent = t.sent ∷ replicate n (request available o);
          }))
          answers)

  -- The server without HTTP, to which a client sends messages, each in whatever parts, and then closes the
  -- connection: it leaves its loop, whatever more rounds there are; it has sent each message back; and it
  -- has as many buffers as before.
  pub serve_messages-sends_back :
      (buffers n more : ℕ) (messages : List (List Received))
      → All (λ parts. Arrives o.busy_poll parts (request available o)) messages
      → serve_messages
          (length messages + suc more)
          available
          o
          (waiting buffers n (messages ++ ((econnreset ∷ []) ∷ [])))
        ≡ broken (waiting buffers (length messages + n) ((econnreset ∷ []) ∷ []))
  unfolding serve_messages serve_message gather
  serve_messages-sends_back buffers n more [] all =
      let z : n ≡ 0 + n = omega arith in
      let y : 0 + suc more ≡ suc more = omega arith in
      rw (y, serve_messages) (ap (λ k. broken (waiting buffers k ((econnreset ∷ []) ∷ []))) z)
  serve_messages-sends_back buffers n more (parts ∷ messages) (arrives, all) =
      let count : length messages + suc n ≡ suc (length messages) + n = omega arith in
      let rounds : suc (length messages) + suc more ≡ suc (length messages + suc more) =
        omega arith in
      rw
        (
          rounds,
          serve_message-waiting buffers n parts (messages ++ ((econnreset ∷ []) ∷ [])) arrives,
          serve_messages,
        )
        (serve_messages-sends_back buffers (suc n) more messages all
          ∙ ap (λ k. broken (waiting buffers k ((econnreset ∷ []) ∷ []))) count)
