-- ===== src/Throughput.antt =====
-- apps/throughput/sure/main.c: a client that keeps a message under way on each of its connections, and
-- the server of them. The clock is modelled by the number of rounds that it leaves time for.
pub mod Counts
pub mod Server
pub mod Serves
mod Tests
use sure.Prelude.{
  ℕ, zero, suc, ◌+◌, ◌-◌, Bool, true, false, not, ◌&&◌, ltb, ◌==◌, if◌then◌else◌, List, [], ◌∷◌,
  length, get_or, Option, none, some,
}
use sure.Latency.{http_resp, sizeof}

-- The static options and `http_body_size`.
pub record Options : Type 0 where
  pub duration : ℕ
  pub size : ℕ
  pub connections : ℕ
  pub http : Bool
  pub http_body_size : ℕ
  pub buffers_reuse : Bool

abbrev pub defaults : Options
defaults = record {
  duration = 0;
  size = 64;
  connections = 0;
  http = false;
  http_body_size = 0;
  buffers_reuse = false;
}

-- What `getopt_long` gives, with the number that `atoi` reads of the argument.
pub data Opt : Type 0 where
  opt_d opt_s opt_c : ℕ → Opt
  opt_h opt_r other : Opt

-- The `switch`; `usage` exits.
abbrev pub set_option : Opt → Options → Option Options
set_option (opt_d n) o = some (record o { duration = n })
set_option (opt_s n) o = some (record o { size = n })
set_option (opt_c n) o = some (record o { connections = n })
set_option opt_h o = some (record o { http = true })
set_option opt_r o = some (record o { buffers_reuse = true })
set_option other o = none

-- `for (;;)`
abbrev pub set_options : List Opt → Options → Option Options
set_options [] o = some o
set_options (x ∷ xs) o = elim (set_option x o) [ none ↦ none | some o' ↦ set_options xs o' ]

-- The tests behind the loop.
abbrev pub check_options : Options → Option Options
check_options o =
    if o.size == 0
    then none
    else if not (o.connections == 0) && o.duration == 0
    then none
    else if o.http && o.connections == 0
    then (if ltb o.size (sizeof http_resp)
        then none
        else some (record o { http_body_size = o.size - sizeof http_resp }))
    else some o

-- `parse_command_line`
unfoldable pub parse_command_line : List Opt → Option Options
parse_command_line xs = elim (set_options xs defaults) [ none ↦ none | some o ↦ check_options o ]

-- `struct unimsg_shm_desc`
pub record Desc : Type 0 where
  pub addr : ℕ
  pub size : ℕ

-- What `unimsg_recv` gives: descriptors; -ECONNRESET; or another error.
pub data Received : Type 0 where
  got : List Desc → Received
  econnreset failed : Received

-- The calls of unimsg. A socket is a number, the client's by the order of their creation.
pub record Unimsg : Type 1 where
  pub World : Type 0
  -- `unimsg_socket` and `unimsg_connect`
  pub connect : ℕ → World → Option World
  pub buffer_get : ℕ → World → Option (List Desc × World)
  pub buffer_put : List Desc → World → World
  pub send : ℕ → List Desc → World → Option World
  -- with the room that there is for descriptors, and whether it does not block
  pub recv : ℕ → ℕ → Bool → World → Received × World
  pub close : ℕ → World → World
  -- what is ready, of the sockets
  pub poll : List ℕ → World → Option (List Bool × World)
  pub accept : World → Option (ℕ × World)

-- The client exits at an error, so its steps are chained by this.
abbrev pub and_then : {A B : Type 0} → Option A → (A → Option B) → Option B
and_then none k = none
and_then (some a) k = k a

-- `descs[id]` set.
abbrev pub set_descs : ℕ → List Desc → (ℕ → List Desc) → ℕ → List Desc
set_descs id ds descs j = if j == id then ds else descs j

-- 0, 1, ... up to a number of sockets.
abbrev pub from_to : ℕ → ℕ → List ℕ
from_to i zero = []
from_to i (suc left) = i ∷ from_to (i + 1) left

-- `reuse` is `opt_buffers_reuse`. Of `descs[id]` the first `ndescs` places are kept.
module _ (u : Unimsg) (reuse : Bool) (ndescs : ℕ) where
  -- The array `descs`, and what unimsg keeps.
  abbrev pub State : Type 0
  State = (ℕ → List Desc) × u.World

  abbrev pub send_descs : ℕ → ℕ → State → Option State
  send_descs s id (descs, w) = and_then (u.send s (descs id) w) (λ w'. some (descs, w'))

  -- `client_send`
  unfoldable pub client_send : ℕ → ℕ → State → Option State
  client_send s id (descs, w) =
      if reuse
      then send_descs s id (descs, w)
      else and_then (u.buffer_get ndescs w)
          (λ (ds, w'). send_descs s id (set_descs id ds descs, w'))

  abbrev pub received : ℕ → (ℕ → List Desc) → Received × u.World → Option State
  received id descs (got ds, w) =
      if ltb (length ds) ndescs
      then none
      else some (set_descs id ds descs, if reuse then w else u.buffer_put ds w)
  received id descs (econnreset, w) = none
  received id descs (failed, w) = none

  -- `client_recv`
  unfoldable pub client_recv : ℕ → ℕ → Bool → State → Option State
  client_recv s id nonblock (descs, w) = received id descs (u.recv s ndescs nonblock w)

  -- The first loop of `client`, with the rounds that are left.
  unfoldable pub open_connections : ℕ → ℕ → State → Option State
  open_connections zero i st = some st
  open_connections (suc left) i (descs, w) = and_then (u.connect i w) (λ w'.
      and_then (u.buffer_get ndescs w')
        (λ (ds, w''). open_connections left (i + 1) (set_descs i ds descs, w'')))

  -- The loop that sends the first message on each connection.
  unfoldable pub send_all : ℕ → ℕ → State → Option State
  unfolding client_send
  send_all zero i st = some st
  send_all (suc left) i st = and_then (client_send i i st) (send_all left (i + 1))

  -- The loop over the connections that are ready.
  unfoldable pub exchange_ready : ℕ → ℕ → List Bool → State → Option State
  unfolding client_send client_recv
  exchange_ready zero i ready st = some st
  exchange_ready (suc left) i ready st =
      if get_or ready i false
      then and_then (client_recv i i true st)
          (λ st'. and_then (client_send i i st') (exchange_ready left (i + 1) ready))
      else exchange_ready left (i + 1) ready st

  -- `do ... while`, with the rounds that the clock leaves time for.
  unfoldable pub exchange_rounds : ℕ → ℕ → State → Option State
  unfolding exchange_ready
  exchange_rounds connections zero st = some st
  exchange_rounds connections (suc rounds) (descs, w) =
      and_then (u.poll (from_to 0 connections) w) (λ (ready, w').
        and_then (exchange_ready connections 0 ready (descs, w'))
          (exchange_rounds connections rounds))

  -- The last loop of `client`: every connection's last message is received to `descs[0]`.
  unfoldable pub close_connections : ℕ → ℕ → State → Option State
  unfolding client_recv
  close_connections zero i st = some st
  close_connections (suc left) i st = and_then (client_recv i 0 false st) (λ (descs, w).
      let w' = if reuse then u.buffer_put (descs i) w else w in
      close_connections left (i + 1) (descs, u.close i w'))

  -- `client`
  unfoldable pub client : ℕ → ℕ → State → Option State
  unfolding open_connections send_all exchange_rounds close_connections
  client connections rounds st = and_then (open_connections connections 0 st) (λ st'.
      and_then (send_all connections 0 st') (λ st''.
        and_then (exchange_rounds connections (rounds + 1) st'') (close_connections connections 0)))
