-- ===== src/Steering/Rounds.antt =====
-- apps/ric/sure/ts/ts_xapp.cpp: the buffers that the control loop holds, and the requests that it sends.
use sure.Prelude.{ℕ, zero, suc, ◌+◌, ◌%◌, ◌^◌, ◌≡◌, List, [], ◌∷◌, none, some}
use sure.Prelude.Bytes.{bytes_of}
use sure.Frontend.{until_nul}
use sure.Service.Unimsg.{Desc, Unimsg}
use sure.Steering.{PredictionHandler, new_handler, read_prediction, read_anomalies, decide}
use sure.Steering.Post.{
  Libraries, read_response, prediction_request, post_text, rc_addr, rc_port, control_message,
}
use sure.Steering.Failures.{FailsOnly, CountsBuffers, Logs}

module _ (u : Unimsg) (l : Libraries u.World) (held : u.World → ℕ) (counts : CountsBuffers u held)
    (log : u.World → List (ℕ × List ℕ)) (logs : Logs u log) (Failed : Type 0)
    (fails : FailsOnly Failed u l) where
  abbrev pub Log : Type 0
  Log = List (ℕ × List ℕ)

  -- So many buffers are held, and these messages were sent.
  abbrev pub Is : ℕ → Log → u.World → Type 0
  Is h sent w = (held w ≡ h) × (log w ≡ sent)

  -- A message came, in one more buffer, behind one that was sent.
  abbrev Came : ℕ → Log → Desc × u.World → Type 0
  Came h sent (d, w) = Is (h + 1) sent w × (read_response (until_nul d.bytes) ≡ none → Failed)

  -- One more message was sent, over some socket, and the response is in one more buffer.
  abbrev Posted : ℕ → Log → List ℕ → List ℕ × Desc × u.World → Type 0
  Posted h sent text (answer, resp, w) = (sock : ℕ) × Is (h + 1) ((sock, text) ∷ sent) w

  -- The number behind `count` requests.
  abbrev pub number : ℕ → ℕ
  number count = count % 2 ^ 32

  -- A request to hand a user over was sent behind those messages, with a number.
  abbrev Requested : ℕ → Log → ℕ → List ℕ → List ℕ → List ℕ → u.World → ℕ × u.World → Type 0
  Requested h sent count ue from to clock (seq_number, w) =
      (seq_number ≡ number count)
      × ((sock : ℕ) × Is h
            ((
              sock,
              post_text (bytes_of "/api/echo") rc_addr rc_port
                  (control_message u l (number count) ue from to clock),
            )
              ∷ sent)
            w)

  abbrev handler : List ℕ → PredictionHandler
  handler text = read_prediction (l.parse text) new_handler

  -- Such a request as is decided on a prediction.
  abbrev Decided : ℕ → Log → ℕ → ℕ × u.World → Type 0
  Decided h sent count st =
      (text : List ℕ) × (from : List ℕ) × (to : List ℕ) × (clock : u.World) × (decide l.iterate
          l.exceeds (handler text)
        ≡ some (from, to))
      × Requested h sent count (handler text).ue_id from to clock st

  -- The messages of an iteration for a message of the application ad: the users that it names are asked
  -- about; for a prediction that was received, what is decided on it is requested; and the message is sent
  -- back. They come behind those that were sent before.
  abbrev pub Iteration : ℕ → ℕ → ℕ → Log → Log → Type 0
  Iteration ad_sock qp_sock count before after =
      (message : List ℕ) × (text : List ℕ) × (from : List ℕ) × (to : List ℕ) × (clock : u.World)
      × (sock : ℕ) × (decide l.iterate l.exceeds (handler text) ≡ some (from, to))
      × (after
          ≡ (ad_sock, message)
            ∷ (
              sock,
              post_text (bytes_of "/api/echo") rc_addr rc_port
                  (control_message u l (number count) (handler text).ue_id from to clock),
            )
            ∷ (qp_sock, prediction_request (read_anomalies (l.parse (until_nul message)) []))
            ∷ before)

  abbrev Iterated : ℕ → ℕ → ℕ → ℕ → Log → ℕ × u.World → Type 0
  Iterated ad_sock qp_sock h count before (seq_number, w) =
      (seq_number ≡ number count) × (held w ≡ h) × Iteration ad_sock qp_sock count before (log w)

  -- The messages of so many iterations, the first of which has the number behind `count`.
  abbrev pub Iterations : ℕ → ℕ → ℕ → ℕ → Log → Log → Type 0
  Iterations ad_sock qp_sock zero count before after = after ≡ before
  Iterations ad_sock qp_sock (suc iterations) count before after =
      (middle : Log) × Iteration ad_sock qp_sock (count + 1) before middle
      × Iterations ad_sock qp_sock iterations (count + 1) middle after

  -- As many buffers are held, behind so many iterations more.
  abbrev pub Looped : ℕ → ℕ → ℕ → ℕ → ℕ → Log → ℕ × u.World → Type 0
  Looped ad_sock qp_sock iterations h count before (seq_number, w) =
      (held w ≡ h)
      × (seq_number ≡ number (count + iterations))
      × Iterations ad_sock qp_sock iterations count before (log w)
