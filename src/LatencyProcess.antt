-- ===== src/LatencyProcess.antt =====
-- apps/rr-latency/process/main.c: a client and a server that exchange messages of a size over stream
-- sockets of Linux. Times and the acceleration by eBPF are not modelled.
pub mod Stream
pub mod Ends
pub mod Framing
mod Tests
use sure.Prelude.{
  ℕ, zero, suc, ◌+◌, ◌-◌, ◌%◌, ◌^◌, Bool, true, false, not, ◌&&◌, ltb, ◌==◌, if◌then◌else◌, List,
  [], ◌∷◌, ◌++◌, length, take, drop, replicate, Option, none, some,
}
use sure.Prelude.Bytes.{bytes_of}
use sure.Latency.{lines, http_req, http_resp, sizeof}
use sure.Ric.{print_number}

-- The static options and `http_body_size`. Of `opt_server_addr` it is kept whether it is LOCALHOST.
pub record Options : Type 0 where
  pub iterations : ℕ
  pub size : ℕ
  pub client : Bool
  pub busy_poll : Bool
  pub unix_sockets : Bool
  pub sk_msg : Bool
  pub localhost : Bool
  pub warmup : ℕ
  pub delay : ℕ
  pub http : Bool
  pub http_body_size : ℕ
  pub port : ℕ

abbrev pub defaults : Options
defaults = record {
  iterations = 0;
  size = 64;
  client = false;
  busy_poll = false;
  unix_sockets = false;
  sk_msg = false;
  localhost = false;
  warmup = 0;
  delay = 0;
  http = false;
  http_body_size = 0;
  port = 5000;
}

-- What `getopt_long` gives, with the number that `atoi` reads of the argument.
pub data Opt : Type 0 where
  opt_i opt_s opt_w opt_d opt_p : ℕ → Opt
  opt_c opt_b opt_u opt_m opt_l opt_h other : Opt

-- The `switch`; `usage` exits. A port has 16 bits.
abbrev pub set_option : Opt → Options → Option Options
set_option (opt_i n) o = some (record o { iterations = n })
set_option (opt_s n) o = some (record o { size = n })
set_option opt_c o = some (record o { client = true })
set_option opt_b o = some (record o { busy_poll = true })
set_option opt_u o = some (record o { unix_sockets = true })
set_option opt_m o = some (record o { sk_msg = true })
set_option opt_l o = some (record o { localhost = true })
set_option (opt_w n) o = some (record o { warmup = n })
set_option (opt_d n) o = some (record o { delay = n })
set_option opt_h o = some (record o { http = true })
set_option (opt_p n) o = some (record o { port = n % 2 ^ 16 })
set_option other o = none

-- `for (;;)`
abbrev pub set_options : List Opt → Options → Option Options
set_options [] o = some o
set_options (x ∷ xs) o = elim (set_option x o) [ none ↦ none | some o' ↦ set_options xs o' ]

-- The test for the body of a response, and the last one, behind it.
abbrev pub check_http : Bool → Options → Option Options
check_http enable_sk_msg o =
    let checked = if o.sk_msg && not enable_sk_msg then none else some o in
    if o.http && not o.client
    then (if ltb o.size (sizeof http_resp)
        then none
        else if o.sk_msg && not enable_sk_msg
        then none
        else some (record o { http_body_size = o.size - sizeof http_resp }))
    else checked

-- The tests behind the loop. `enable_sk_msg` says whether ENABLE_SK_MSG is defined.
abbrev pub check_options : Bool → Options → Option Options
check_options enable_sk_msg o =
    if o.size == 0
    then none
    else if o.client && o.iterations == 0
    then none
    else if o.unix_sockets && o.sk_msg
    then none
    else check_http enable_sk_msg o

-- `parse_command_line`
unfoldable pub parse_command_line : Bool → List Opt → Option Options
parse_command_line enable_sk_msg xs = elim (set_options xs defaults) [
  | none ↦ none
  | some o ↦ check_options enable_sk_msg o
]

-- What `recv` gives: bytes, the first of them and the others; 0, as the other side has closed the
-- connection; EAGAIN; or another error.
pub data Received : Type 0 where
  got : ℕ → List ℕ → Received
  closed eagain failed : Received

-- How the loops around `recv` end: with the bytes that were read and what the last call gave; or they wait
-- on. The list is what is received later.
pub data Gathered : Type 0 where
  gathered : List ℕ → Received → List Received → Gathered
  waits : Gathered

-- The two loops around `recv`, which the client and the server share.
unfoldable pub gather : Options → List ℕ → List Received → Gathered
gather o msg [] = waits
gather o msg (got b bs ∷ more) =
    let rest = gather o (msg ++ b ∷ bs) more in
    if not o.http && ltb (length (msg ++ b ∷ bs)) o.size
    then rest
    else gathered (msg ++ b ∷ bs) (got b bs) more
gather o msg (closed ∷ more) = gathered msg closed more
gather o msg (eagain ∷ more) =
    let rest = gather o msg more in if o.busy_poll then rest else gathered msg eagain more
gather o msg (failed ∷ more) = gathered msg failed more

-- What `send` gives: how many bytes it took, EAGAIN or another error.
pub data Sent : Type 0 where
  took : ℕ → Sent
  send_eagain send_failed : Sent

-- The loop around `send` and the test behind it: what `send` gives later, or nothing where the program
-- exits or waits for ever.
unfoldable pub send_all : Bool → ℕ → List Sent → Option (List Sent)
send_all busy size [] = none
send_all busy size (took n ∷ more) = if n == size then some more else none
send_all busy size (send_eagain ∷ more) =
    let rest = send_all busy size more in if busy then rest else none
send_all busy size (send_failed ∷ more) = none

-- A side: what it has sent and received, the last message first; what was received and not read; what is
-- received between its messages, and what `send` gives.
pub record Side : Type 0 where
  pub sent : List (List ℕ)
  pub received : List (List ℕ)
  pub unread : List Received
  pub incoming : List (List Received)
  pub sends : List Sent

abbrev pub next_parts : List (List Received) → List Received
next_parts [] = []
next_parts (parts ∷ more) = parts

abbrev pub later_parts : List (List Received) → List (List Received)
later_parts [] = []
later_parts (parts ∷ more) = more

-- The bytes of `msg` that `do_client_rr` sends; `junk` is what stands in the array, which it does not
-- write.
abbrev pub request : Options → List ℕ → List ℕ
request o junk = if o.http then take o.size (http_req ++ 0 ∷ junk) else take o.size junk

-- The end of `do_client_rr`. For HTTP it does not look at what `recv` has given.
abbrev pub check_response : Options → Side → List Sent → List ℕ → Gathered → Option Side
check_response o c sends msg waits = none
check_response o c sends msg (gathered bytes last more) =
    if not o.http && not (length bytes == o.size)
    then none
    else some (record {
      sent = msg ∷ c.sent;
      received = bytes ∷ c.received;
      unread = more;
      incoming = later_parts c.incoming;
      sends = sends;
    })

-- `do_client_rr`
unfoldable pub do_client_rr : Options → List ℕ → Side → Option Side
unfolding gather send_all
do_client_rr o junk c = elim (send_all o.busy_poll o.size c.sends) [
  | none ↦ none
  | some sends ↦
      check_response o c sends (request o junk) (gather o [] (c.unread ++ next_parts c.incoming))
]

-- `do_client_rr` so many times.
unfoldable pub client_rrs : ℕ → Options → List ℕ → Side → Option Side
unfolding do_client_rr
client_rrs zero o junk c = some c
client_rrs (suc n) o junk c = elim (do_client_rr o junk c) [
  | none ↦ none
  | some c' ↦ client_rrs n o junk c'
]

-- `if (opt_http) opt_size = sizeof(http_req) - 1;`
abbrev pub resized : Options → Options
resized o = if o.http then record o { size = sizeof http_req - 1 } else o

-- `client`, once it is connected.
unfoldable pub run_client : Options → List ℕ → Side → Option Side
unfolding client_rrs
run_client o junk c = elim (client_rrs o.warmup (resized o) junk c) [
  | none ↦ none
  | some c' ↦ client_rrs o.iterations (resized o) junk c'
]

-- `%4u`
abbrev pub print_width : ℕ → List ℕ
print_width n = replicate (4 - length (print_number n)) 32 ++ print_number n

-- What `sprintf` writes for `http_resp`, without the 0 behind it.
abbrev pub response_text : ℕ → List ℕ
response_text body_size = lines (
    bytes_of "HTTP/1.1 200 OK"
    ∷ bytes_of "Server: custom-server/1.0.0"
    ∷ bytes_of "Date: Thu, 07 Sep 2023 20:57:10 GMT"
    ∷ bytes_of "Content-Type: text/html"
    ∷ (bytes_of "Content-Length: " ++ print_width body_size)
    ∷ bytes_of "Connection: keep-alive"
    ∷ []
    ∷ [])

-- The array `msg` of the server, with bytes written to its front.
abbrev pub write_front : List ℕ → List ℕ → List ℕ
write_front bytes buffer = bytes ++ drop (length bytes) buffer

-- What a round comes to, with the array `msg`: the loop goes on; it was left by `break`; or the server exits
-- or waits for ever.
pub data Round : Type 0 where
  again broken : List ℕ → Side → Round
  stopped : Round

-- The part of the round behind the tests.
unfoldable pub reply : Options → List ℕ → Side → List ℕ → List Received → Round
unfolding send_all
reply o buffer s bytes more =
    let n = if o.http then o.size else length bytes in
    let buffer' =
      if o.http
      then write_front (response_text o.http_body_size ++ 0 ∷ []) (write_front bytes buffer)
      else write_front bytes buffer in
    elim (send_all o.busy_poll n s.sends) [
      | none ↦ stopped
      | some sends ↦ again buffer' (record {
        sent = take n buffer' ∷ s.sent;
        received = bytes ∷ s.received;
        unread = more;
        incoming = later_parts s.incoming;
        sends = sends;
      })
    ]

-- The tests of what was read.
abbrev pub check_request : Options → List ℕ → Side → Gathered → Round
check_request o buffer s waits = stopped
check_request o buffer s (gathered bytes closed more) = broken buffer s
check_request o buffer s (gathered bytes eagain more) = stopped
check_request o buffer s (gathered bytes failed more) = stopped
check_request o buffer s (gathered bytes (got b bs) more) =
    let answered = reply o buffer s bytes more in
    if not o.http && not (length bytes == o.size) then stopped else answered

-- The body of `for (;;)`.
unfoldable pub serve_message : Options → List ℕ → Side → Round
unfolding gather reply
serve_message o buffer s =
    check_request o buffer s (gather o [] (s.unread ++ next_parts s.incoming))

-- `for (;;)`, for so many rounds at most.
unfoldable pub serve_messages : ℕ → Options → List ℕ → Side → Round
unfolding serve_message
serve_messages zero o buffer s = again buffer s
serve_messages (suc rounds) o buffer s = elim (serve_message o buffer s) [
  | again buffer' s' ↦ serve_messages rounds o buffer' s'
  | broken buffer' s' ↦ broken buffer' s'
  | stopped ↦ stopped
]
