-- ===== src/Service/Sync.antt =====
-- apps/boutique/sure/common/service/service_sync.h: a service that answers each request before it reads on.
pub mod Table
use sure.Prelude.{
  ℕ, zero, suc, ◌+◌, Bool, true, false, ◌&&◌, ltb, ◌==◌, if◌then◌else◌, none, some, List, [], ◌∷◌,
  ◌++◌, length, get_or, set, take, drop, replicate,
}
use sure.Message.Size.{get_rpc_size}
use sure.Service.Unimsg.{Desc, size, Rc, ok, econnreset, error, Unimsg}
use sure.Service.Process.{Exec, returns, exits, PendingBuffer, command_at}
use sure.Service.Loop.{
  Reaction, proceeds, closes, aborts, LoopEnd, finished, closed, aborted, unfinished, desc_loop,
}

-- What `handle_socket` returns, with the new pending buffer: 0, 1, never (it calls `exit`), or not yet.
pub data Handled {ℓ} (W : Type ℓ) : Type ℓ where
  stays : PendingBuffer → W → Handled W
  leaves : PendingBuffer → W → Handled W
  dies : Handled W
  hangs : Handled W

-- The variables of `run_service`: the first `nsocks` places of `socks` and of `ready`, and all of
-- `pending_buffers`.
pub record Server : Type 0 where
  pub socks : List ℕ
  pub ready : List Bool
  pub pending_buffers : List PendingBuffer

-- What a part of a round of `run_service` does.
pub data Served {ℓ} (W : Type ℓ) : Type ℓ where
  serves : Server → W → Served W
  stops : Served W

-- `!rc`
abbrev pub is_ok : Rc → Bool
is_ok ok = true
is_ok econnreset = false
is_ok error = false

abbrev pub no_pending : PendingBuffer
no_pending = record { desc = record { addr = false; off = 0; bytes = [] }; expected_sz = 0 }

-- `for (j = i; j < nsocks; j++) a[j] = a[j + 1]`, on the places that are used.
abbrev pub shift_down {ℓ} : {A : Type ℓ} → ℕ → List A → List A
shift_down i xs = take i xs ++ drop (suc i) xs

-- The socket at a place was closed. `pending_buffers` stays as it is.
abbrev pub forget_socket : ℕ → Server → Server
forget_socket i srv = record srv { socks = shift_down i srv.socks; ready = shift_down i srv.ready }

module _ (u : Unimsg) {S : Type 0} (handle_request : Desc → S → Desc × S) where
  open u use {
    World, buffer_put, recv, send, close, max_descs_bulk, max_nsocks, poll, accept, socket, bind,
    listen,
  }

  -- What `handle_socket` does with a complete message. `handle_request` works on the descriptor of the
  -- pending buffer, where its response is left when the connection turns out to be closed. The descriptors
  -- that go back then are those received; one of them may have the buffer of the pending message, whose
  -- bytes stand there until the library gives the buffer to someone else.
  unfoldable pub answer : ℕ → List Desc → Desc → World × S → Reaction (World × S)
  answer s descs d (w, st) = elim (get_rpc_size (command_at d.bytes)) [
    | none ↦ aborts
    | some n ↦
        if size d == n
        then (let (d', st') = handle_request d st in
            let (rc, w') = send s d' w in
            elim rc [
              | ok ↦ proceeds (w', st')
              | econnreset ↦ closes d' (close s (buffer_put descs w'), st')
              | error ↦ aborts
            ])
        else aborts
  ]

  -- The end of `handle_socket`, behind its loop.
  abbrev pub handled : LoopEnd (World × S) → Handled (World × S)
  handled (finished p ws) = stays p ws
  handled (closed p ws) = leaves p ws
  handled aborted = dies
  handled (unfinished _ _ _) = hangs

  -- `handle_socket`; the first argument bounds the rounds of its loop.
  unfoldable pub handle_socket : ℕ → ℕ → PendingBuffer → World × S → Handled (World × S)
  unfolding answer
  handle_socket fuel s pending (w, st) =
      let (rc, descs, w') = recv s max_descs_bulk w in
      elim rc [
        | ok ↦ handled (desc_loop u (answer s descs) fuel descs pending (w', st))
        | econnreset ↦ leaves pending (close s w', st)
        | error ↦ dies
      ]

  -- The loop of `run_service` over the sockets behind the first, from a place on; `left` is at least the
  -- number of sockets from there on.
  unfoldable pub serve : ℕ → ℕ → ℕ → Server → World × S → Served (World × S)
  serve fuel zero i srv ws = serves srv ws
  serve fuel (suc left) i srv ws =
      if ltb i (length srv.socks)
      then (if get_or srv.ready i false
          then elim (handle_socket fuel (get_or srv.socks i 0)
              (get_or srv.pending_buffers i no_pending) ws) [
                | stays p ws' ↦
                    serve fuel left (i + 1)
                      (record srv { pending_buffers = set srv.pending_buffers i p }) ws'
                | leaves p ws' ↦
                    serve fuel left (i + 1)
                      (forget_socket i
                        (record srv { pending_buffers = set srv.pending_buffers i p }))
                      ws'
                | dies ↦ stops
                | hangs ↦ stops
              ]
          else serve fuel left (i + 1) srv ws)
      else serves srv ws

  -- `if (ready[0])`: a new connection.
  unfoldable pub accept_client : Server → World × S → Served (World × S)
  accept_client srv (w, st) =
      if get_or srv.ready 0 false
      then (if length srv.socks == max_nsocks
          then stops
          else (let (rc, s, w') = accept (get_or srv.socks 0 0) w in
              elim rc [
                | ok ↦ serves (record srv { socks = srv.socks ++ s ∷ [] }) (w', st)
                | econnreset ↦ stops
                | error ↦ stops
              ]))
      else serves srv (w, st)

  -- A part of a round behind another.
  abbrev pub then_serve :
      Served (World × S) → (Server → World × S → Served (World × S)) → Served (World × S)
  then_serve (serves srv ws) k = k srv ws
  then_serve stops k = stops

  -- A round of `while (1)` of `run_service`.
  unfoldable pub service_round : ℕ → Server → World × S → Served (World × S)
  service_round fuel srv (w, st) =
      let (rc, ready, w') = poll srv.socks w in
      elim rc [
        | ok ↦
            then_serve (serve fuel (length srv.socks) 1 (record srv { ready = ready }) (w', st))
              accept_client
        | econnreset ↦ stops
        | error ↦ stops
      ]

  -- Some rounds.
  unfoldable pub service_rounds : ℕ → ℕ → Server → World × S → Served (World × S)
  service_rounds fuel zero srv ws = serves srv ws
  service_rounds fuel (suc n) srv ws =
      then_serve (service_round fuel srv ws) (service_rounds fuel n)

  -- What `run_service` does before its first round.
  unfoldable pub start_service : ℕ → World × S → Served (World × S)
  start_service port (w, st) =
      let (rc1, s, w1) = socket w in
      let (rc2, w2) = bind s port w1 in
      let (rc3, w3) = listen s w2 in
      if is_ok rc1 && (is_ok rc2 && is_ok rc3)
      then serves
          (record { socks = s ∷ []; ready = []; pending_buffers = replicate max_nsocks no_pending })
          (w3, st)
      else stops

-- `do_rpc` of a service that waits for its answer: the new descriptor.
unfoldable pub do_rpc : (u : Unimsg) → ℕ → Desc → u.World → Exec (Desc × u.World)
do_rpc u s d w =
    let (rc1, w1) = u.send s d w in
    let (rc2, ds, w2) = u.recv s 1 w1 in
    let d' = get_or ds 0 d in
    if is_ok rc1 && is_ok rc2
    then elim (get_rpc_size (command_at d'.bytes)) [
      | none ↦ exits
      | some n ↦ if size d' == n then returns (d', w2) else exits
    ]
    else exits
