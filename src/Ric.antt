-- ===== src/Ric.antt =====
-- apps/ric/sure/rc/rc_xapp.c: the RAN control application, which sends the body of each request back.
pub mod Echo
mod Tests
use sure.Prelude.{
  ℕ, zero, suc, ◌+◌, ◌/◌, ◌%◌, Bool, true, ◌&&◌, ltb, ◌==◌, if◌then◌else◌, List, [], ◌∷◌, ◌++◌,
  length, take, drop, get_or, Option, none, some,
}
use sure.Prelude.Bytes.{bytes_of}
use sure.Frontend.{until_nul, starts_with, strstr, crlf, blank_line}
use sure.Service.Unimsg.{Desc, Unimsg}
use sure.Service.Process.{Exec, returns, exits}
use sure.Service.Sync.{is_ok}

-- `expected_req`
abbrev pub expected_req : List ℕ
expected_req = bytes_of "POST /api/echo HTTP/1.1" ++ crlf

-- The digits that `%lu` prints; the first argument bounds their number.
abbrev pub print_digits : ℕ → ℕ → List ℕ
print_digits zero n = []
print_digits (suc fuel) n =
    let front = print_digits fuel (n / 10) in
    if ltb n 10 then (48 + n) ∷ [] else front ++ (48 + n % 10) ∷ []

-- A number has fewer digits than itself and one more.
abbrev pub print_number : ℕ → List ℕ
print_number n = print_digits (n + 1) n

-- The lines of `resp_template` before the length, and those behind it.
abbrev pub head_lines : List ℕ → List ℕ
head_lines timestr =
    bytes_of "HTTP/1.1 200 OK"
    ++ (crlf
        ++ (bytes_of "Server: Custom/1.0.0 Custom/1.0.0"
            ++ (crlf ++ (bytes_of "Date: " ++ (timestr ++ (crlf ++ bytes_of "Content-Length: "))))))

abbrev pub tail_lines : List ℕ → List ℕ
tail_lines body = crlf ++ (bytes_of "Connection: close" ++ (blank_line ++ body))

-- What `sprintf` writes.
abbrev pub response : List ℕ → List ℕ → List ℕ
response timestr body = head_lines timestr ++ (print_number (length body) ++ tail_lines body)

-- The payload of a request.
unfoldable pub find_body : List ℕ → Option (List ℕ)
unfolding strstr
find_body text = elim (strstr blank_line text) [ none ↦ none | some (_, rest) ↦ some (drop 4 rest) ]

-- The response in its buffer, for one that fits: `sprintf` has no bound. Its size is that of the text of
-- the request.
unfoldable pub reply : List ℕ → List ℕ → List ℕ → Desc → Desc
reply text timestr body fresh =
    let written = response timestr body ++ 0 ∷ [] in
    record fresh { bytes = take (length text) (written ++ drop (length written) fresh.bytes) }

module _ (u : Unimsg) where
  open u use {World, buffer_get, buffer_put, recv, send, close, accept, socket, bind, listen}

  -- The end of a round, with the response.
  abbrev pub send_reply : ℕ → Desc → Desc → World → Exec World
  send_reply sock desc resp w =
      let (rc, w') = send sock resp (buffer_put (desc ∷ []) w) in
      if is_ok rc then returns (close sock w') else exits

  -- A request that was received. `timestr` is what `strftime` gives.
  unfoldable pub answer : ℕ → Desc → Option (List ℕ) → World → Exec World
  unfolding find_body reply
  answer sock desc timestr w =
      let text = until_nul desc.bytes in
      if starts_with expected_req text
      then elim (find_body text) [
        | none ↦ exits
        | some body ↦ elim timestr [
          | none ↦ exits
          | some t ↦ elim (buffer_get w) [
            | none ↦ exits
            | some (fresh, w') ↦ send_reply sock desc (reply text t body fresh) w'
          ]
        ]
      ]
      else exits

  -- A round of the loop.
  unfoldable pub serve_one : ℕ → Option (List ℕ) → World → Exec World
  unfolding answer
  serve_one lsock timestr w =
      let (rc1, sock, w1) = accept lsock w in
      let (rc2, descs, w2) = recv sock 1 w1 in
      if is_ok rc1 && is_ok rc2
      then answer sock (get_or descs 0 (record { addr = true; off = 0; bytes = [] })) timestr w2
      else exits

  -- The loop: a time for each of the iterations.
  unfoldable pub serve_all : ℕ → List (Option (List ℕ)) → World → Exec World
  unfolding serve_one
  serve_all lsock [] w = returns w
  serve_all lsock (t ∷ ts) w = elim (serve_one lsock t w) [
    | exits ↦ exits
    | returns w' ↦ serve_all lsock ts w'
  ]

  -- `main`, behind the options, of which there is one: the number of iterations, which is not 0.
  unfoldable pub run_control : List (Option (List ℕ)) → World → Exec World
  unfolding serve_all
  run_control times w =
      let (rc1, lsock, w1) = socket w in
      let (rc2, w2) = bind lsock 5000 w1 in
      let (rc3, w3) = listen lsock w2 in
      if length times == 0
      then exits
      else if is_ok rc1 && (is_ok rc2 && is_ok rc3)
      then elim (serve_all lsock times w3) [ exits ↦ exits | returns w4 ↦ returns (close lsock w4) ]
      else exits
