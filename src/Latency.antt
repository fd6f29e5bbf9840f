-- ===== src/Latency.antt =====
-- apps/rr-latency/sure/main.c: a client and a server that exchange messages of a size over unimsg. Times
-- are not modelled.
pub mod Sizes
pub mod Gather
pub mod Exchange
pub mod Client
pub mod Server
mod Tests
use sure.Prelude.{
  ℕ, zero, suc, ◌+◌, ◌-◌, ◌/◌, ◌%◌, Bool, true, false, not, ◌&&◌, ltb, ◌==◌, if◌then◌else◌, List,
  [], ◌∷◌, ◌++◌, length, set, take, drop, map, replicate, Option, none, some,
}
use sure.Prelude.Bytes.{bytes_of}
use sure.Service.Process.{add_u32}

abbrev pub crlf : List ℕ
crlf = 13 ∷ 10 ∷ []

abbrev pub lines : List (List ℕ) → List ℕ
lines [] = []
lines (l ∷ ls) = l ++ (crlf ++ lines ls)

-- `http_req`
abbrev pub http_req : List ℕ
http_req = lines (
    bytes_of "GET / HTTP/1.1"
    ∷ bytes_of "Host: localhost"
    ∷ bytes_of "User-Agent: custom-client/1.0.0"
    ∷ bytes_of "Accept: */*"
    ∷ []
    ∷ [])

-- `http_resp`, with its placeholder
abbrev pub http_resp : List ℕ
http_resp = lines (
    bytes_of "HTTP/1.1 200 OK"
    ∷ bytes_of "Server: custom-server/1.0.0"
    ∷ bytes_of "Date: Thu, 07 Sep 2023 20:57:10 GMT"
    ∷ bytes_of "Content-Type: text/html"
    ∷ bytes_of "Content-Length: %4u"
    ∷ bytes_of "Connection: keep-alive"
    ∷ []
    ∷ [])

-- `sizeof` of such an array, with the 0 at its end.
abbrev pub sizeof : List ℕ → ℕ
sizeof text = length text + 1

-- The static options and `http_body_size`.
pub record Options : Type 0 where
  pub iterations : ℕ
  pub size : ℕ
  pub client : Bool
  pub busy_poll : Bool
  pub warmup : ℕ
  pub delay : ℕ
  pub http : Bool
  pub http_body_size : ℕ
  pub buffers_reuse : Bool

abbrev pub defaults : Options
defaults = record {
  iterations = 0;
  size = 64;
  client = false;
  busy_poll = false;
  warmup = 0;
  delay = 0;
  http = false;
  http_body_size = 0;
  buffers_reuse = false;
}

-- What `getopt_long` gives, with the number that `atoi` reads of the argument.
pub data Opt : Type 0 where
  opt_i opt_s opt_w opt_d : ℕ → Opt
  opt_c opt_b opt_h opt_r other : Opt

-- The `switch`; `usage` exits.
abbrev pub set_option : Opt → Options → Option Options
set_option (opt_i n) o = some (record o { iterations = n })
set_option (opt_s n) o = some (record o { size = n })
set_option opt_c o = some (record o { client = true })
set_option opt_b o = some (record o { busy_poll = true })
set_option (opt_w n) o = some (record o { warmup = n })
set_option (opt_d n) o = some (record o { delay = n })
set_option opt_h o = some (record o { http = true })
set_option opt_r o = some (record o { buffers_reuse = true })
set_option other o = none

-- `for (;;)`
abbrev pub set_options : List Opt → Options → Option Options
set_options [] o = some o
set_options (x ∷ xs) o = elim (set_option x o) [ none ↦ none | some o' ↦ set_options xs o' ]

-- The tests behind the loop.
abbrev pub check_options : Options → Option Options
check_options o =
    if o.size == 0
    then none
    else if o.client && o.iterations == 0
    then none
    else if o.http && not o.client
    then (if ltb o.size (sizeof http_resp)
        then none
        else some (record o { http_body_size = o.size - sizeof http_resp }))
    else some o

-- `parse_command_line`
unfoldable pub parse_command_line : List Opt → Option Options
parse_command_line xs = elim (set_options xs defaults) [ none ↦ none | some o ↦ check_options o ]

-- The number of descriptors of a message: `ndescs` and `nsend`. `available` is UNIMSG_BUFFER_AVAILABLE,
-- the room of a buffer.
abbrev pub count_descs : ℕ → ℕ → ℕ
count_descs available size = (size - 1) / available + 1

-- The size of the last descriptor.
abbrev pub last_size : ℕ → ℕ → ℕ
last_size available size = if size % available == 0 then available else size % available

-- The sizes of the descriptors of `do_client_rr` before it sends them.
unfoldable pub request_sizes : ℕ → Options → List ℕ → List ℕ
request_sizes available o descs =
    let ndescs = count_descs available o.size in
    let sized = set (map (λ _. available) descs) (ndescs - 1) (last_size available o.size) in
    if o.http then set sized 0 (sizeof http_req) else sized

-- What `unimsg_recv` gives: descriptors, with their sizes; -EAGAIN; -ECONNRESET; another error.
pub data Received : Type 0 where
  got : List ℕ → Received
  eagain econnreset failed : Received

-- How the receiving loops end: with the descriptors of a message; with an error; or they wait on. The list
-- is what is received later.
pub data Gathered : Type 0 where
  message : List ℕ → List Received → Gathered
  ends : Received → List Received → Gathered
  waits : Gathered

-- `rsize += descs[rdescs + i].size`
abbrev pub add_sizes : ℕ → List ℕ → ℕ
add_sizes rsize [] = rsize
add_sizes rsize (n ∷ ns) = add_sizes (add_u32 rsize n) ns

-- The two loops around `unimsg_recv`, which the client and the server share.
unfoldable pub gather : Options → List ℕ → ℕ → List Received → Gathered
gather o descs rsize [] = waits
gather o descs rsize (got ds ∷ more) =
    let rest = gather o (descs ++ ds) (add_sizes rsize ds) more in
    if not o.http && ltb (add_sizes rsize ds) o.size then rest else message (descs ++ ds) more
gather o descs rsize (eagain ∷ more) =
    let rest = gather o descs rsize more in if o.busy_poll then rest else ends eagain more
gather o descs rsize (econnreset ∷ more) = ends econnreset more
gather o descs rsize (failed ∷ more) = ends failed more

-- The number of buffers that a side has, beside those on their way, and the descriptors that it sends.
pub record Turn : Type 0 where
  pub buffers : ℕ
  pub sent : List ℕ

-- `do_client_rr` up to `unimsg_send`; there are always buffers.
unfoldable pub client_sends : ℕ → Options → ℕ → Turn
unfolding request_sizes
client_sends available o buffers =
    let ndescs = count_descs available o.size in
    let buffers' = if o.buffers_reuse then buffers else buffers + ndescs in
    record { buffers = buffers' - ndescs; sent = request_sizes available o (replicate ndescs 0) }

-- The end of `do_client_rr`, with the descriptors that were received: the buffers that it has then.
unfoldable pub client_puts : ℕ → Options → ℕ → List ℕ → ℕ
client_puts available o buffers descs =
    let ndescs = count_descs available o.size in
    let buffers' = buffers + length descs in
    if not o.buffers_reuse
    then buffers' - length descs
    else if ltb ndescs (length descs)
    then buffers' - (length descs - ndescs)
    else buffers'

-- The sizes of the response that the server sends for HTTP.
abbrev pub response_sizes : ℕ → Options → List ℕ → List ℕ
response_sizes available o descs =
    let nsend = count_descs available o.size in
    set (map (λ _. available) (take nsend descs ++ replicate (nsend - length descs) 0)) (nsend - 1)
      (last_size available o.size)

-- What `server` does with a message: it sends the buffers back, or for HTTP as many as the response needs.
unfoldable pub server_answers : ℕ → Options → ℕ → List ℕ → Turn
server_answers available o buffers descs =
    let nsend = count_descs available o.size in
    let rdescs = length descs in
    let held = buffers + rdescs in
    if o.http
    then record {
      buffers =
          (if ltb rdescs nsend
            then held + (nsend - rdescs)
            else if ltb nsend rdescs
            then held - (rdescs - nsend)
            else held)
          - nsend;
      sent = response_sizes available o descs;
    }
    else record { buffers = held - rdescs; sent = descs }
