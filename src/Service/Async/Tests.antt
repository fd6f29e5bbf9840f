-- ===== src/Service/Async/Tests.antt =====
-- apps/boutique/sure/common/service/service_async.h over sockets that always give the same request.
use sure.Prelude.{false, refl, ℕ, ◌+◌, ◌≡◌, true, some, [], ◌∷◌, map, replicate, arith}
use sure.Service.Unimsg.{Desc, Unimsg, ok}
use sure.Service.Sync.{Server, no_pending}
use sure.Service.Async.{
  Coroutines, set_waiting, run_step, id_of, calls, responds, Handler, with_id, resume_co,
  on_response,
}
use sure.Service.Async.Run.{start_coroutines}
use sure.Service.Async.Start.{Started, start_async, start_async-Started}
use sure.Service.Async.Whole.{do_rpc-on_response}

-- A message of the command CART_EMPTY_CART.
abbrev message : Desc
message = record { addr = true; off = 64; bytes = 0 ∷ 0 ∷ 0 ∷ 0 ∷ 2 ∷ 0 ∷ 0 ∷ 0 ∷ replicate 50 1 }

abbrev net : Unimsg
net = record {
  World = ℕ;
  buffer_size = 4096;
  buffer_get = λ w. some (record message { bytes = [] }, w);
  buffer_put = λ ds w. w;
  recv = λ s n w. (ok, message ∷ [], w + 1);
  send = λ s d w. (ok, w + 1);
  close = λ s w. w;
  max_descs_bulk = 64;
  max_nsocks = 8;
  poll = λ socks w. (ok, map (λ _. true) socks, w);
  accept = λ s w. (ok, w, w);
  socket = λ w. (ok, w, w);
  bind = λ s port w. (ok, w);
  listen = λ s w. (ok, w);
  connect = λ s addr port w. (ok, w);
}

-- Asks one service, and then responds.
abbrev asking : Handler ℕ
asking = record { begin = λ co d t. calls d 0 (t + 1); resume = λ co d t. responds d (t + 1) }

abbrev table : Server
table = record { socks = 1 ∷ 2 ∷ 3 ∷ []; ready = []; pending_buffers = replicate 8 no_pending }

-- The same sockets, and what was sent last.
abbrev net_with_last : Unimsg
net_with_last = record net {
  World = Desc;
  buffer_get = λ w. some (record message { bytes = [] }, w);
  buffer_put = λ ds w. w;
  recv = λ s n w. (ok, message ∷ [], w);
  send = λ s d w. (ok, d);
  close = λ s w. w;
  poll = λ socks w. (ok, map (λ _. true) socks, w);
  accept = λ s w. (ok, 1, w);
  socket = λ w. (ok, 1, w);
  bind = λ s port w. (ok, w);
  listen = λ s w. (ok, w);
  connect = λ s addr port w. (ok, w);
}

abbrev waiting_seventh : Coroutines
waiting_seventh = set_waiting 7 true start_coroutines

do_rpc-on_response_example :
    (waiting_seventh.waiting 7 ≡ true)
    × (on_response net_with_last asking (2 ∷ []) (with_id 7 message) (message, (waiting_seventh, 0))
        ≡ resume_co net_with_last asking
            (2 ∷ [])
            7
            (with_id 7 message)
            (message, (set_waiting 7 false waiting_seventh, 0)))
unfolding run_step id_of with_id
do_rpc-on_response_example =
    do_rpc-on_response net_with_last asking (2 ∷ []) (λ w. w) 7 0 message 0 0 message
      (with_id 7 message) start_coroutines waiting_seventh (with_id 7 message) message
      waiting_seventh 0 (omega arith) (λ s m w. refl) refl refl refl

start_async-Started_example :
    Started net (3 ∷ 6 ∷ []) (start_async net 9 (3 ∷ 6 ∷ []) (replicate 10 0) 0)
start_async-Started_example =
    start_async-Started net 9 (3 ∷ 6 ∷ []) (replicate 10 0) 0 ((omega arith, tt), (tt, tt))
      (omega arith, (omega arith, tt))
