-- ===== src/ThroughputProcess/Server.antt =====
-- apps/throughput/process/main.c: `client` as a whole, and the server.
use sure.Prelude.{
  ℕ, zero, suc, ◌+◌, Bool, true, false, not, ◌&&◌, ltb, ◌==◌, if◌then◌else◌, List, [], ◌∷◌, ◌++◌,
  length, Option, none, some,
}
use sure.ThroughputProcess.{
  Options, Received, got, eagain, failed, Event, silent, pollin, unexpected, Pollfd, Polled, events,
  interrupted, poll_failed, System, and_then, set_events, fds, resized, sent_all, open_connections,
  run_connections,
}

-- MAX_NSOCKS
abbrev pub max_nsocks : ℕ
max_nsocks = 256

-- `client`, with the rounds that the clock leaves time for behind the first one. More connections than
-- `pollfds` has places for would be written behind its end.
unfoldable pub client : (sys : System) → Options → ℕ → ℕ → sys.World → Option sys.World
unfolding open_connections run_connections
client sys o calls rounds w =
    if ltb max_nsocks o.connections
    then none
    else and_then (open_connections sys o o.connections w)
        (λ (socks, w'). run_connections sys (resized o) calls rounds socks w')

-- `pollfds`, the listening socket first, and `rrs`.
pub record Serving : Type 0 where
  pub listener : Pollfd
  pub conns : List Pollfd
  pub rrs : ℕ

-- What comes of a connection that has something to read: it goes on, or it is closed.
pub data Answered : Type 0 where
  answered closed_by_client : Answered

module _ (sys : System) (o : Options) where
  open sys use {World}

  -- What is done with what `recv` gives.
  abbrev pub answer_received : ℕ → Received × World → Option (Answered × World)
  answer_received s (got n, w) =
      if n == 0
      then some (closed_by_client, w)
      else (let size = if o.http then o.size else n in
          and_then (sent_all sys o size (sys.send s size w)) (λ w'. some (answered, w')))
  answer_received s (eagain, w) = none
  answer_received s (failed, w) = none

  -- `do_server_rr`
  unfoldable pub do_server_rr : ℕ → World → Option (Answered × World)
  do_server_rr s w = answer_received s (sys.recv s w)

  abbrev pub keep : Pollfd → Serving × World → Option (Serving × World)
  keep p (st, w) = some (record st { conns = p ∷ st.conns }, w)

  -- The loop over the connections. Where one is closed the others move up by a place, and the next of
  -- them is passed over.
  unfoldable pub serve_ready : Bool → List Pollfd → Serving → World → Option (Serving × World)
  unfolding do_server_rr
  serve_ready moved [] st w = some (record st { conns = [] }, w)
  serve_ready true (p ∷ ps) st w = and_then (serve_ready false ps st w) (keep p)
  serve_ready false (p ∷ ps) st w = elim p.revents [
    | silent ↦ and_then (serve_ready false ps st w) (keep p)
    | pollin ↦ and_then (do_server_rr p.fd w) (λ (answer, w'). elim answer [
      | answered ↦ and_then (serve_ready false ps (record st { rrs = st.rrs + 1 }) w') (keep p)
      | closed_by_client ↦ serve_ready true ps st (sys.close p.fd w')
    ])
    | unexpected ↦ none
  ]

  -- A connection is accepted; behind the end of `pollfds` none is written.
  abbrev pub accept_one : Serving → World → Option (Serving × World)
  accept_one st w = and_then (sys.accept w) (λ (s, w').
      if ltb (length st.conns + 1) max_nsocks
      then some (
        record st { conns = st.conns ++ (record { fd = s; revents = sys.unpolled w' } ∷ []) },
        w',
      )
      else none)

  -- `if (pollfds[0].revents && POLLIN)`, which any event satisfies.
  abbrev pub accept_ready : Event → Serving → World → Option (Serving × World)
  accept_ready silent st w = some (st, w)
  accept_ready pollin st w = accept_one st w
  accept_ready unexpected st w = accept_one st w

  -- What is behind `poll`, with `revents` as it has left them.
  abbrev pub after_poll : Serving → World → Option (Serving × World)
  after_poll st w =
      and_then (serve_ready false st.conns st w)
        (λ (st', w'). accept_ready st.listener.revents st' w')

  -- The first event is the listening socket's.
  abbrev pub with_events : List Event → Serving → Serving
  with_events [] st = st
  with_events (e ∷ es) st = record st {
    listener = record (st.listener) { revents = e };
    conns = set_events st.conns es;
  }

  -- An interrupted `poll` leaves the events of the one before.
  abbrev pub after_polled : Serving → Polled × World → Option (Serving × World)
  after_polled st (events es, w) = after_poll (with_events es st) w
  after_polled st (interrupted, w) = after_poll st w
  after_polled st (poll_failed, w) = none

  -- The body of `do ... while`.
  unfoldable pub server_round : Serving → World → Option (Serving × World)
  unfolding serve_ready
  server_round st w = after_polled st (sys.poll (st.listener.fd ∷ fds st.conns) w)

  -- `while (nsocks > 1 && !stop)`, for so many rounds at most, and `close(pollfds[0].fd)`. The number says
  -- how many rounds are left.
  unfoldable pub server_rounds : ℕ → Serving → World → Option (ℕ × Serving × World)
  unfolding server_round
  server_rounds zero st w = some (0, st, w)
  server_rounds (suc rounds) st w = and_then (server_round st w) (λ (st', w').
      if ltb 0 (length st'.conns) && not (sys.stop w')
      then server_rounds rounds st' w'
      else some (suc rounds, st', sys.close st'.listener.fd w'))
