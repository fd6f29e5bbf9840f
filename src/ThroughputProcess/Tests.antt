-- ===== src/ThroughputProcess/Tests.antt =====
-- apps/throughput/process/main.c, over a system that counts the open sockets.
use sure.Prelude.{
  ℕ, ◌+◌, ◌-◌, ◌≡◌, refl, true, false, [], ◌∷◌, ◌==◌, if◌then◌else◌, map, some, none, arith,
}
use sure.ThroughputProcess.{
  defaults, opt_u, opt_m, parse_command_line, got, silent, pollin, events, interrupted, System,
}
use sure.ThroughputProcess.Server.{Serving, client, server_round, server_rounds}
use sure.Prelude.{Option, List}
use sure.ThroughputProcess.{Pollfd}
use sure.ThroughputProcess.Opened.{same_fd, UnlessExit, CountsOpen}
use sure.ThroughputProcess.Table.{GoesOnOrEnded, server_rounds-Ended}

-- How often each descriptor is open. Every connection has something to read: of socket 1 it is a message of
-- 64 bytes, and all others have been closed by their clients.
abbrev busy_system : System
busy_system = record {
  World = ℕ → ℕ;
  connect = λ w. some (1, λ x. w x + same_fd x 1);
  accept = λ w. some (7, λ x. w x + same_fd x 7);
  send = λ s n w. (some n, w);
  recv = λ s w. (got (if s == 1 then 64 else 0), w);
  poll = λ socks w. (events (silent ∷ map (λ s. pollin) socks), w);
  close = λ s w x. w x - same_fd x s;
  unpolled = λ w. silent;
  stop = λ w. false;
}

busy_system-CountsOpen : CountsOpen busy_system (λ w. w)
busy_system-CountsOpen = record {
  by_accept = λ x w. refl;
  by_send = λ s n x w. refl;
  by_recv = λ s x w. refl;
  by_poll = λ socks x w. refl;
  by_close = λ s x h w e. omega (arith, e);
}

abbrev serving : Serving
serving = record {
  listener = record { fd = 0; revents = silent };
  conns = record { fd = 1; revents = silent } ∷ record { fd = 2; revents = silent } ∷ [];
  rrs = 0;
}

-- The descriptors 0, 1, 2 and 3 are open.
abbrev four_open : ℕ → ℕ
four_open x = same_fd x 0 + (same_fd x 1 + (same_fd x 2 + same_fd x 3))

server_rounds-Ended_example :
    UnlessExit
      (GoesOnOrEnded busy_system defaults (λ w. w) busy_system-CountsOpen 2 0 0)
      (server_rounds busy_system defaults 3 serving four_open)
server_rounds-Ended_example =
    server_rounds-Ended busy_system defaults (λ w. w) busy_system-CountsOpen 2 0 3 0 serving
      four_open (refl, refl)

-- What is seen of a round: the connections, the answers, and the descriptors up to 3 that are open.
abbrev seen : Option (Serving × (ℕ → ℕ)) → Option (List Pollfd × ℕ × List ℕ)
seen none = none
seen (some (st, w)) = some (st.conns, st.rrs, w 0 ∷ w 1 ∷ w 2 ∷ w 3 ∷ [])

-- Socket 1 was answered, and socket 2 is closed and gone from the table.
first_round :
    seen (server_round busy_system defaults serving four_open)
    ≡ some (record { fd = 1; revents = pollin } ∷ [], 1, 1 ∷ 1 ∷ 0 ∷ 1 ∷ [])
unfolding server_round
first_round = refl

-- When `poll` is interrupted, the events of the round before are taken once more: socket 1 is read again.
abbrev interrupted_system : System
interrupted_system = record busy_system { poll = λ socks w. (interrupted, w) }

second_round :
    seen (
      server_round interrupted_system defaults
        (record {
          listener = record { fd = 0; revents = silent };
          conns = record { fd = 1; revents = pollin } ∷ [];
          rrs = 1;
        })
        four_open)
    ≡ some (record { fd = 1; revents = pollin } ∷ [], 2, 1 ∷ 1 ∷ 1 ∷ 1 ∷ [])
unfolding server_round
second_round = refl

abbrev open_after : Option (ℕ → ℕ) → List ℕ
open_after none = []
open_after (some w) = w 0 ∷ w 1 ∷ []

a_client :
    open_after (client busy_system (record defaults { connections = 1 }) 1 2 (λ x. 5)) ≡ 5 ∷ 5 ∷ []
unfolding client
a_client = refl

unix_with_sk_msg : parse_command_line true (opt_u ∷ opt_m ∷ []) ≡ none
unfolding parse_command_line
unix_with_sk_msg = refl
