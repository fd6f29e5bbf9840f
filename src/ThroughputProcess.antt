-- ===== src/ThroughputProcess.antt =====
-- apps/throughput/process/main.c: a client of many connections and its server, over stream sockets of
-- Linux. The clock is modelled by the number of rounds that it leaves time for.
pub mod Server
pub mod Opened
pub mod Table
mod Tests
use sure.Prelude.{
  ℕ, zero, suc, ◌+◌, ◌-◌, ◌%◌, ◌^◌, Bool, true, false, not, ◌&&◌, ltb, ◌==◌, if◌then◌else◌, List,
  [], ◌∷◌, ◌++◌, length, Option, none, some,
}
use sure.Latency.{http_req, http_resp, sizeof}

-- The static options and `http_body_size`. Of `opt_server_addr` it is kept whether it is LOCALHOST.
pub record Options : Type 0 where
  pub duration : ℕ
  pub size : ℕ
  pub connections : ℕ
  pub unix_sockets : Bool
  pub sk_msg : Bool
  pub localhost : Bool
  pub http : Bool
  pub http_body_size : ℕ
  pub port : ℕ

abbrev pub defaults : Options
defaults = record {
  duration = 0;
  size = 64;
  connections = 0;
  unix_sockets = false;
  sk_msg = false;
  localhost = false;
  http = false;
  http_body_size = 0;
  port = 5000;
}

-- What `getopt_long` gives, with the number that `atoi` reads of the argument. For `-b` there is no case.
pub data Opt : Type 0 where
  opt_d opt_s opt_c opt_p : ℕ → Opt
  opt_u opt_m opt_l opt_h other : Opt

-- The `switch`; `usage` exits. A port has 16 bits.
abbrev pub set_option : Opt → Options → Option Options
set_option (opt_d n) o = some (record o { duration = n })
set_option (opt_s n) o = some (record o { size = n })
set_option (opt_c n) o = some (record o { connections = n })
set_option opt_u o = some (record o { unix_sockets = true })
set_option opt_m o = some (record o { sk_msg = true })
set_option opt_l o = some (record o { localhost = true })
set_option opt_h o = some (record o { http = true })
set_option (opt_p n) o = some (record o { port = n % 2 ^ 16 })
set_option other o = none

-- `for (;;)`
abbrev pub set_options : List Opt → Options → Option Options
set_options [] o = some o
set_options (x ∷ xs) o = elim (set_option x o) [ none ↦ none | some o' ↦ set_options xs o' ]

-- The tests for HTTP, and for the acceleration that was not compiled in.
abbrev pub check_http : Options → Option Options
check_http o =
    if o.http && o.connections == 0
    then (if ltb o.size (sizeof http_resp)
        then none
        else some (record o { http_body_size = o.size - sizeof http_resp }))
    else some o

abbrev pub check_sk_msg : Bool → Options → Option Options
check_sk_msg enable_sk_msg o = if not enable_sk_msg && o.sk_msg then none else some o

-- The tests behind the loop. `enable_sk_msg` says whether ENABLE_SK_MSG is defined.
abbrev pub check_options : Bool → Options → Option Options
check_options enable_sk_msg o =
    if o.size == 0
    then none
    else if not (o.connections == 0) && o.duration == 0
    then none
    else if o.unix_sockets && o.sk_msg
    then none
    else elim (check_http o) [ none ↦ none | some o' ↦ check_sk_msg enable_sk_msg o' ]

-- `parse_command_line`
unfoldable pub parse_command_line : Bool → List Opt → Option Options
parse_command_line enable_sk_msg xs = elim (set_options xs defaults) [
  | none ↦ none
  | some o ↦ check_options enable_sk_msg o
]

-- What `recv` gives: how many bytes, 0 if the other side has closed the connection; EAGAIN; or another
-- error.
pub data Received : Type 0 where
  got : ℕ → Received
  eagain failed : Received

-- `revents`: nothing, POLLIN or something else.
pub data Event : Type 0 where
  silent pollin unexpected : Event

pub record Pollfd : Type 0 where
  pub fd : ℕ
  pub revents : Event

-- What `poll` gives: what it writes to `revents`; or an error, EINTR among them, and then it writes
-- nothing.
pub data Polled : Type 0 where
  events : List Event → Polled
  interrupted poll_failed : Polled

-- The calls of the system.
pub record System : Type 1 where
  pub World : Type 0
  -- `socket`, `connect` and `ioctl`
  pub connect : World → Option (ℕ × World)
  -- `accept` and `ioctl`
  pub accept : World → Option (ℕ × World)
  -- how many bytes were sent, of so many, or an error
  pub send : ℕ → ℕ → World → Option ℕ × World
  pub recv : ℕ → World → Received × World
  pub poll : List ℕ → World → Polled × World
  pub close : ℕ → World → World
  -- `revents` of a place that `poll` has not written
  pub unpolled : World → Event
  -- `stop`, which the handler of SIGINT sets
  pub stop : World → Bool

abbrev pub and_then : {A B : Type 0} → Option A → (A → Option B) → Option B
and_then none k = none
and_then (some a) k = k a

-- The events as `poll` writes them.
abbrev pub set_events : List Pollfd → List Event → List Pollfd
set_events [] es = []
set_events (p ∷ ps) [] = p ∷ ps
set_events (p ∷ ps) (e ∷ es) = record p { revents = e } ∷ set_events ps es

abbrev pub fds : List Pollfd → List ℕ
fds [] = []
fds (p ∷ ps) = p.fd ∷ fds ps

abbrev pub pollfds : Event → List ℕ → List Pollfd
pollfds e [] = []
pollfds e (s ∷ socks) = record { fd = s; revents = e } ∷ pollfds e socks

-- `if (opt_http) opt_size = sizeof(http_req) - 1;`
abbrev pub resized : Options → Options
resized o = if o.http then record o { size = sizeof http_req - 1 } else o

module _ (sys : System) (o : Options) where
  open sys use {World}

  -- `size != opt_size` behind `send`.
  abbrev pub sent_all : ℕ → Option ℕ × World → Option World
  sent_all size (none, w) = none
  sent_all size (some n, w) = if n == size then some w else none

  -- `client_send`
  abbrev pub client_send : ℕ → World → Option World
  client_send s w = sent_all o.size (sys.send s o.size w)

  -- `client_recv`, with the calls of `recv` that are made at most.
  unfoldable pub client_recv : ℕ → ℕ → Bool → World → Option World
  client_recv zero s busy_poll w = none
  client_recv (suc calls) s busy_poll w =
      let (r, w') = sys.recv s w in
      let again = client_recv calls s busy_poll w' in
      elim r [
        | got n ↦ if not o.http && not (n == o.size) then none else some w'
        | eagain ↦ if busy_poll then again else none
        | failed ↦ none
      ]

  -- The first loop of `client`: the sockets.
  unfoldable pub open_connections : ℕ → World → Option (List ℕ × World)
  open_connections zero w = some ([], w)
  open_connections (suc left) w =
      and_then (sys.connect w)
        (λ (s, w'). and_then (open_connections left w') (λ (socks, w''). some (s ∷ socks, w'')))

  -- The loop that sends the first message on each connection.
  unfoldable pub send_first : List ℕ → World → Option World
  send_first [] w = some w
  send_first (s ∷ socks) w = and_then (client_send s w) (send_first socks)

  -- The loop over what `poll` has given.
  unfoldable pub exchange : ℕ → List Pollfd → World → Option World
  unfolding client_recv
  exchange calls [] w = some w
  exchange calls (p ∷ ps) w = elim p.revents [
    | silent ↦ exchange calls ps w
    | pollin ↦
        and_then (client_recv calls p.fd false w)
          (λ w'. and_then (client_send p.fd w') (exchange calls ps))
    | unexpected ↦ none
  ]

  -- `do ... while` of the client, with the rounds that the clock leaves time for.
  unfoldable pub client_rounds : ℕ → ℕ → List Pollfd → World → Option World
  unfolding exchange
  client_rounds calls zero ps w = some w
  client_rounds calls (suc rounds) ps w =
      let (polled, w') = sys.poll (fds ps) w in
      elim polled [
        | events es ↦
            and_then (exchange calls (set_events ps es) w')
              (client_rounds calls rounds (set_events ps es))
        | interrupted ↦ none
        | poll_failed ↦ none
      ]

  -- The last loop of `client`.
  unfoldable pub close_connections : ℕ → List ℕ → World → Option World
  unfolding client_recv
  close_connections calls [] w = some w
  close_connections calls (s ∷ socks) w =
      and_then (client_recv calls s true w) (λ w'. close_connections calls socks (sys.close s w'))

  -- `client` behind its first loop.
  unfoldable pub run_connections : ℕ → ℕ → List ℕ → World → Option World
  unfolding send_first client_rounds close_connections
  run_connections calls rounds socks w = and_then (send_first socks w) (λ w'.
      and_then (client_rounds calls (rounds + 1) (pollfds (sys.unpolled w') socks) w')
        (close_connections calls socks))
