-- ===== src/Steering/Post.antt =====
-- apps/ric/sure/ts/ts_xapp.cpp: its messages and its control loop.
use sure.Prelude.{
  ℕ, zero, suc, ◌+◌, ◌-◌, ◌%◌, ◌^◌, Bool, true, false, ◌&&◌, ◌==◌, if◌then◌else◌, List, [], ◌∷◌,
  ◌++◌, length, take, get_or, Option, none, some,
}
use sure.Prelude.Int.{ℤ, pos, to_i32}
use sure.Prelude.Bytes.{bytes_of}
use sure.Frontend.{until_nul, crlf, blank_line}
use sure.Frontend.Scan.{skip_spaces}
use sure.Service.Unimsg.{Desc, Unimsg}
use sure.Service.Sync.{is_ok}
use sure.Ric.{print_number, find_body}
use sure.Steering.{Event, Cells, new_handler, read_prediction, read_anomalies, decide}

-- What comes of a call: it returns, the program exits, or it has read behind the end of a map.
pub data Ran (A : Type 0) : Type 0 where
  done : A → Ran A
  exits undefined : Ran A

abbrev pub and_then : {A B : Type 0} → Ran A → (A → Ran B) → Ran B
and_then (done a) k = k a
and_then exits k = exits
and_then undefined k = undefined

abbrev pub or_exit : {A : Type 0} → Option A → Ran A
or_exit none = exits
or_exit (some a) = done a

abbrev pub or_undefined : {A : Type 0} → Option A → Ran A
or_undefined none = undefined
or_undefined (some a) = done a

-- The options: `-i` with the number that `atoi` reads, which is kept as an `unsigned`, or another one, for
-- which `usage` exits.
pub data Opt : Type 0 where
  opt_i : ℕ → Opt
  other_opt : Opt

abbrev pub set_options : List Opt → ℕ → Option ℕ
set_options [] opt_iterations = some opt_iterations
set_options (opt_i n ∷ xs) opt_iterations = set_options xs n
set_options (other_opt ∷ xs) opt_iterations = none

-- `parse_command_line`
abbrev pub parse_command_line : List Opt → Option ℕ
parse_command_line xs = elim (set_options xs 0) [
  | none ↦ none
  | some n ↦ if n == 0 then none else some n
]

-- Texts one behind the other.
abbrev pub joined : List (List ℕ) → List ℕ
joined [] = []
joined (x ∷ []) = x
joined (x ∷ y ∷ ys) = x ++ joined (y ∷ ys)

-- What `post_template` becomes: `url` and `body` without a 0, the size of the body as an `unsigned`.
abbrev pub post_text : List ℕ → ℕ → ℕ → List ℕ → List ℕ
post_text url addr port body = joined (
    bytes_of "POST "
    ∷ url
    ∷ bytes_of " HTTP/1.1"
    ∷ crlf
    ∷ bytes_of "Host: "
    ∷ print_number addr
    ∷ bytes_of ":"
    ∷ print_number port
    ∷ crlf
    ∷ bytes_of "Accept: application/json"
    ∷ crlf
    ∷ bytes_of "Content-Type: application/json"
    ∷ crlf
    ∷ bytes_of "Content-Length: "
    ∷ print_number (length body % 2 ^ 32)
    ∷ blank_line
    ∷ until_nul body
    ∷ [])

-- `sscanf(text, "HTTP/1.1 %u OK", &status_code) == EOF`: the text ends before the number.
abbrev pub ends_before : List ℕ → List ℕ → Bool
ends_before [] text = elim (skip_spaces text) [ [] ↦ true | c ∷ cs ↦ false ]
ends_before (p ∷ ps) [] = true
ends_before (p ∷ ps) (c ∷ cs) = let later = ends_before ps cs in if p == c then later else false

-- The payload of a response. Of `status_code` the program only prints what depends on it.
unfoldable pub read_response : List ℕ → Option (List ℕ)
unfolding find_body
read_response text = if ends_before (bytes_of "HTTP/1.1") text then none else find_body text

-- A string within quotes; and the list of users, which is closed behind the last one.
abbrev pub quoted : List ℕ → List ℕ
quoted ue = 34 ∷ (ue ++ 34 ∷ [])

abbrev pub ues_list : List (List ℕ) → List ℕ
ues_list [] = []
ues_list (ue ∷ []) = quoted ue ++ 93 ∷ []
ues_list (ue ∷ next ∷ ues) = quoted ue ++ 44 ∷ ues_list (next ∷ ues)

-- `message_body` of `send_prediction_request`
abbrev pub prediction_request : List (List ℕ) → List ℕ
prediction_request ues =
    bytes_of "{\"UEPredictionSet\": " ++ (bytes_of "[" ++ (ues_list ues ++ bytes_of "}"))

-- What the writer of rapidjson is given for a member of an object.
pub data Value : Type 0 where
  text : List ℕ → Value
  int : ℤ → Value

abbrev pub rc_addr : ℕ
rc_addr = 50331658

abbrev pub rc_port : ℕ
rc_port = 5000

abbrev pub qp_addr : ℕ
qp_addr = 33554442

-- What the program uses beside unimsg: `Parse` and `PrettyWriter` of rapidjson, `ctime` of the time, the
-- order of `unordered_map` and the comparison of floats.
pub record Libraries (World : Type 0) : Type 0 where
  pub parse : List ℕ → List Event
  pub write : List (List ℕ × Value) → List ℕ
  pub ctime : World → List ℕ
  pub iterate : Cells → Cells
  pub exceeds : ℤ → ℤ → Bool

abbrev pub no_desc : Desc
no_desc = record { addr = true; off = 0; bytes = [] }

-- The members of a message for the control application.
abbrev pub hand_off : ℕ → List ℕ → List ℕ → List ℕ → List ℕ → List (List ℕ × Value)
hand_off seq_number ue from to now =
    (bytes_of "command", text (bytes_of "HandOff"))
    ∷ (bytes_of "seqNo", int (to_i32 (pos seq_number)))
    ∷ (bytes_of "ue", text ue)
    ∷ (bytes_of "fromCell", text from)
    ∷ (bytes_of "toCell", text to)
    ∷ (bytes_of "timestamp", text now)
    ∷ (bytes_of "reason", text (bytes_of "HandOff Control Request from TS xApp"))
    ∷ (bytes_of "ttl", int (pos 10))
    ∷ []

module _ (u : Unimsg) (l : Libraries u.World) where
  open u use {
    World, buffer_get, buffer_put, recv, send, close, accept, socket, bind, listen, connect,
  }

  abbrev pub get_buffer : World → Ran (Desc × World)
  get_buffer w = or_exit (buffer_get w)

  -- A message is sent and one descriptor is received.
  abbrev pub exchange : ℕ → Desc → World → Ran (Desc × World)
  exchange sock desc w =
      let (rc1, w1) = send sock desc w in
      let (rc2, descs, w2) = recv sock 1 w1 in
      if is_ok rc1 && is_ok rc2 then done (get_or descs 0 no_desc, w2) else exits

  -- `do_post`, with the body and the descriptor that it returns.
  unfoldable pub do_post : ℕ → ℕ → List ℕ → List ℕ → World → Ran (List ℕ × Desc × World)
  unfolding read_response
  do_post addr port url body w =
      let (rc1, sock, w1) = socket w in
      let (rc2, w2) = connect sock addr port w1 in
      if is_ok rc1 && is_ok rc2
      then and_then (get_buffer w2) (λ (desc, w3).
        and_then (exchange sock (record desc { bytes = post_text url addr port body }) w3)
          (λ (resp, w4).
            and_then (or_exit (read_response (until_nul resp.bytes)))
              (λ answer. done (answer, resp, close sock w4))))
      else exits

  -- `msg` of `send_rest_control_request`. `pop_back` takes the end of the line off the time.
  abbrev pub control_message : ℕ → List ℕ → List ℕ → List ℕ → World → List ℕ
  control_message seq_number ue from to w =
      let now = l.ctime w in
      l.write (
        hand_off seq_number (until_nul ue) (until_nul from) (until_nul to)
          (until_nul (take (length now - 1) now)))

  -- `send_rest_control_request`, with `seq_number`.
  unfoldable pub send_rest_control_request : List ℕ → List ℕ → List ℕ → ℕ × World → Ran (ℕ × World)
  unfolding do_post
  send_rest_control_request ue from to (seq_number, w) =
      let next = (seq_number + 1) % 2 ^ 32 in
      and_then
        (do_post rc_addr rc_port (bytes_of "/api/echo") (control_message next ue from to w) w)
        (λ (answer, resp, w1). done (next, buffer_put (resp ∷ []) w1))

  -- `prediction_callback`
  unfoldable pub prediction_callback : Desc → ℕ × World → Ran (ℕ × World)
  unfolding send_rest_control_request read_prediction decide
  prediction_callback desc (seq_number, w) =
      let handler = read_prediction (l.parse (until_nul desc.bytes)) new_handler in
      and_then (or_undefined (decide l.iterate l.exceeds handler)) (λ (from, to).
        send_rest_control_request handler.ue_id from to (seq_number, buffer_put (desc ∷ []) w))

  -- `send_prediction_request`
  unfoldable pub send_prediction_request : ℕ → List (List ℕ) → ℕ × World → Ran (ℕ × World)
  unfolding prediction_callback
  send_prediction_request qp_sock ues (seq_number, w) = and_then (get_buffer w) (λ (desc, w1).
      and_then (exchange qp_sock (record desc { bytes = prediction_request ues }) w1)
        (λ (prediction, w2). prediction_callback prediction (seq_number, w2)))

  -- `ad_callback`: the message is sent back as it came.
  unfoldable pub ad_callback : ℕ → ℕ → Desc → ℕ × World → Ran (ℕ × World)
  unfolding send_prediction_request read_anomalies
  ad_callback ad_sock qp_sock desc st =
      let ues = read_anomalies (l.parse (until_nul desc.bytes)) [] in
      and_then (send_prediction_request qp_sock ues st) (λ (seq_number, w).
        let (rc, w') = send ad_sock desc w in if is_ok rc then done (seq_number, w') else exits)

  -- The loop of `main`.
  unfoldable pub control_loop : ℕ → ℕ → ℕ → ℕ × World → Ran (ℕ × World)
  unfolding ad_callback
  control_loop zero ad_sock qp_sock st = done st
  control_loop (suc iterations) ad_sock qp_sock (seq_number, w) =
      let (rc, descs, w1) = recv ad_sock 1 w in
      if is_ok rc
      then and_then (ad_callback ad_sock qp_sock (get_or descs 0 no_desc) (seq_number, w1))
          (control_loop iterations ad_sock qp_sock)
      else exits

  -- `main`
  unfoldable pub run_steering : List Opt → World → Ran World
  unfolding control_loop
  run_steering opts w = elim (parse_command_line opts) [
    | none ↦ exits
    | some opt_iterations ↦
        let (rc1, lsock, w1) = socket w in
        let (rc2, w2) = bind lsock 4560 w1 in
        let (rc3, w3) = listen lsock w2 in
        let (rc4, ad_sock, w4) = accept lsock w3 in
        let (rc5, qp_sock, w5) = socket (close lsock w4) in
        let (rc6, w6) = connect qp_sock qp_addr 4580 w5 in
        if is_ok rc1 && (is_ok rc2 && (is_ok rc3 && (is_ok rc4 && (is_ok rc5 && is_ok rc6))))
        then and_then (control_loop opt_iterations ad_sock qp_sock (0, w6))
            (λ (seq_number, w7). done (close ad_sock (close qp_sock w7)))
        else exits
  ]
