-- ===== src/Throughput/Tests.antt =====
-- apps/throughput/sure/main.c, over a network that counts the buffers that are held and on which each
-- message comes back at once.
use sure.Prelude.{
  ℕ, ◌+◌, ◌-◌, ◌≡◌, refl, true, [], ◌∷◌, length, map, replicate, some, none, arith, ◌==◌,
  if◌then◌else◌, Bool-cases, inl, inr, length-replicate,
}
use sure.Throughput.{
  Desc, got, econnreset, Unimsg, Options, defaults, opt_c, opt_d, opt_r, opt_h, opt_s,
  parse_command_line,
}
use sure.Throughput.Counts.{Gives, Counts, CameOrClosed}
use sure.Throughput.Server.{Serving, server_rounds}
use sure.Throughput.Serves.{Holding, server_rounds-Holding}

abbrev blank_desc : Desc
blank_desc = record { addr = 0; size = 0 }

-- Every socket is ready.
abbrev echo : Unimsg
echo = record {
  World = ℕ;
  connect = λ i w. some w;
  buffer_get = λ n w. some (replicate n blank_desc, w + n);
  buffer_put = λ ds w. w - length ds;
  send = λ s ds w. some (w - length ds);
  recv = λ s room nonblock w. (got (replicate room blank_desc), w + room);
  close = λ s w. w;
  poll = λ socks w. some (map (λ s. true) socks, w);
  accept = λ w. some (7, w);
}

-- Socket 1 sends two descriptors each time and socket 2 has been closed by the client.
abbrev clients : Unimsg
clients = record echo {
  recv = λ s room nonblock w.
      if s == 1 then (got (replicate 2 blank_desc), w + 2) else (econnreset, w);
}

clients-Counts : Counts clients (λ w. w) (CameOrClosed (λ w. w))
clients-Counts = record {
  by_connect = λ i w. refl;
  by_buffer_get = λ n w. (length-replicate n blank_desc, refl);
  by_buffer_put = λ ds h w e. omega (arith, e);
  by_send = λ s ds h w e. omega (arith, e);
  by_recv =
      λ s room nonblock w. elim (Bool-cases (s == 1)) [ inl e ↦ rw (e) refl | inr e ↦ rw (e) refl ];
  by_close = λ s w. refl;
  by_poll = λ socks w. refl;
  by_accept = λ w. refl;
}

abbrev serving : Serving
serving = record { socks = 1 ∷ 2 ∷ []; rrs = 0; started = true }

abbrev http_options : Options
http_options = record defaults { size = 9000; http = true }

server_rounds-Holding_example :
    Gives
      (Holding clients 4096 16 0 http_options (λ w. w) clients-Counts 5)
      (server_rounds clients 4096 16 0 http_options 3 serving 5)
server_rounds-Holding_example =
    server_rounds-Holding clients 4096 16 0 http_options (λ w. w) clients-Counts 3 serving 5 5 refl

-- In the first round socket 2 is removed and a new one accepted.
first_round :
    server_rounds clients 4096 16 0 http_options 1 serving 5
    ≡ some (record { socks = 1 ∷ 7 ∷ []; rrs = 1; started = true }, 5)
unfolding server_rounds
first_round = refl

a_server_with_a_small_message : parse_command_line (opt_h ∷ opt_s 64 ∷ []) ≡ none
unfolding parse_command_line
a_server_with_a_small_message = refl

a_client :
    parse_command_line (opt_c 3 ∷ opt_d 10 ∷ opt_r ∷ [])
    ≡ some (record defaults { connections = 3; duration = 10; buffers_reuse = true })
unfolding parse_command_line
a_client = refl
