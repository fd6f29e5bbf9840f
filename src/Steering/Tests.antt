-- ===== src/Steering/Tests.antt =====
-- apps/ric/sure/ts/ts_xapp.cpp at a prediction for a passenger.
use sure.Prelude.{
  ◌+◌, ◌-◌, ◌++◌, Option, ℕ, ◌≡◌, refl, true, List, [], ◌∷◌, length, replicate, none, some, arith,
}
use sure.Prelude.Int.{pos, ltb_ℤ, to_i32}
use sure.Prelude.Bytes.{bytes_of}
use sure.Frontend.{blank_line, until_nul, starts_with}
use sure.Service.Unimsg.{Desc, Unimsg, ok}
use sure.Ric.{expected_req, find_body, reply}
use sure.Steering.{
  PredictionHandler, key, string, uint, other, Cells, read_prediction, read_anomalies, decide,
  new_handler,
}
use sure.Steering.Post.{
  Ran, exits, undefined, Libraries, done, no_desc, control_loop, read_response, prediction_request,
  parse_command_line, opt_i,
}
use sure.Steering.Target.{Predicted, prediction}
use sure.Steering.Echo.{request, read_response-reply}

-- What is read of {"Train": {"CID1": [20, 5], "CID3": [30, 0], "CID2": [10, 90]}}.
abbrev first_cell : Predicted
first_cell = record { name = bytes_of "CID1"; down = 20; up = 5 }

abbrev other_cells : List Predicted
other_cells =
    record { name = bytes_of "CID3"; down = 30; up = 0 }
    ∷ record { name = bytes_of "CID2"; down = 10; up = 90 }
    ∷ []

abbrev train : PredictionHandler
train = prediction 1 (bytes_of "Train") (first_cell ∷ other_cells) 2

to_the_third : decide (λ cells. cells) ltb_ℤ train ≡ some (bytes_of "CID1", bytes_of "CID3")
unfolding decide read_prediction to_i32
to_the_third = refl

-- As the application qp predicts 0 for all cells, the user is handed over to a cell without a name.
to_no_cell :
    decide
      (λ cells. cells)
      ltb_ℤ
      (prediction 2
        (bytes_of "Train")
        (record { name = bytes_of "CID0"; down = 0; up = 0 }
          ∷ record { name = bytes_of "CID1"; down = 0; up = 0 }
          ∷ [])
        3)
    ≡ some (bytes_of "CID0", [])
unfolding decide read_prediction to_i32
to_no_cell = refl

-- A message without a number: what is read behind the end of the map.
no_prediction : decide (λ cells. cells) ltb_ℤ (read_prediction (other ∷ []) new_handler) ≡ none
unfolding decide read_prediction
no_prediction = refl

passengers :
    read_anomalies
      (key (bytes_of "du-id")
        ∷ uint 1010
        ∷ key (bytes_of "ue-id")
        ∷ string (bytes_of "Train passenger 2")
        ∷ key (bytes_of "Degradation")
        ∷ string (bytes_of "RSRP")
        ∷ [])
      []
    ≡ bytes_of "Train passenger 2" ∷ []
unfolding read_anomalies
passengers = refl

two_ues :
    prediction_request (bytes_of "a" ∷ bytes_of "b" ∷ [])
    ≡ bytes_of "{\"UEPredictionSet\": [\"a\",\"b\"]}"
two_ues = refl

-- Without a user the list is not closed.
no_ues : prediction_request [] ≡ bytes_of "{\"UEPredictionSet\": [}"
no_ues = refl

no_iterations : parse_command_line (opt_i 0 ∷ []) ≡ none
no_iterations = refl

abbrev fresh : Desc
fresh = record { addr = true; off = 64; bytes = replicate 300 7 }

read_response-reply_example :
    (starts_with expected_req (request (bytes_of "{}")) ≡ true)
    × (find_body (request (bytes_of "{}")) ≡ some (bytes_of "{}"))
    × (read_response (
          until_nul
            (reply
              (request (bytes_of "{}"))
              (bytes_of "Thu Nov 26 19:20:48 2026")
              (bytes_of "{}")
              fresh).bytes)
        ≡ some (bytes_of "{}"))
read_response-reply_example =
    read_response-reply (bytes_of "{}") (bytes_of "Thu Nov 26 19:20:48 2026") fresh refl refl refl
      (omega arith) (omega arith)

abbrev three_cells : Cells
three_cells =
    (bytes_of "CID1", to_i32 (pos 20))
    ∷ (bytes_of "CID3", to_i32 (pos 30))
    ∷ (bytes_of "CID2", to_i32 (pos 10))
    ∷ []

-- How many buffers are held, and what was sent.
abbrev Air : Type 0
Air = ℕ × List (ℕ × List ℕ)

abbrev held : Air → ℕ
held (n, log) = n

abbrev sent : Air → List (ℕ × List ℕ)
sent (n, log) = log

abbrev air_of : Air → Option (Desc × Air) → Air
air_of w none = w
air_of w (some (d, w')) = w'

-- Each message that is received is a response, and each text is parsed as a prediction.
abbrev radio : Unimsg
radio = record {
  World = Air;
  buffer_size = 4096;
  buffer_get = λ w. some (no_desc, (held w + 1, sent w));
  buffer_put = λ descs w. (held w - length descs, sent w);
  recv = λ s room w. (
    ok,
    record no_desc { bytes = bytes_of "HTTP/1.1 200 OK" ++ (blank_line ++ bytes_of "{}") } ∷ [],
    (held w + 1, sent w),
  );
  send = λ s desc w. (ok, (held w - 1, (s, desc.bytes) ∷ sent w));
  close = λ s w. w;
  max_descs_bulk = 64;
  max_nsocks = 4;
  poll = λ socks w. (ok, [], w);
  accept = λ s w. (ok, 1, w);
  socket = λ w. (ok, 3, w);
  bind = λ s port w. (ok, w);
  listen = λ s w. (ok, w);
  connect = λ s addr port w. (ok, w);
}

abbrev libraries : Libraries Air
libraries = record {
  parse = λ text. key (bytes_of "Train") ∷ key (bytes_of "CID1") ∷ uint 20 ∷ [];
  write = λ members. bytes_of "{}";
  ctime = λ w. bytes_of "Thu Nov 26 19:20:48 2026" ++ 10 ∷ [];
  iterate = λ cells. cells;
  exceeds = ltb_ℤ;
}

-- The sockets of what was sent, the last one first.
abbrev sockets : List (ℕ × List ℕ) → List ℕ
sockets [] = []
sockets ((s, text) ∷ log) = s ∷ sockets log

abbrev summary : Ran (ℕ × Air) → Option (ℕ × ℕ × List ℕ)
summary (done (seq_number, (n, log))) = some (seq_number, n, sockets log)
summary exits = none
summary undefined = none

two_rounds :
    summary (control_loop radio libraries 2 1 2 (0, (5, [])))
    ≡ some (2, 5, 1 ∷ 3 ∷ 2 ∷ 1 ∷ 3 ∷ 2 ∷ [])
unfolding control_loop to_i32
two_rounds = refl
