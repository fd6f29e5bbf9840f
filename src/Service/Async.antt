-- ===== src/Service/Async.antt =====
-- apps/boutique/sure/common/service/service_async.h: the coroutines that serve requests while others wait
-- for the services they depend on. The rounds over the sockets are in the child `Run`.
pub mod Run
pub mod Pool
pub mod Requests
pub mod Rounds
pub mod Whole
pub mod Start
mod Tests
use sure.Prelude.{
  ℕ, zero, suc, ◌+◌, ◌*◌, Bool, true, false, ltb, leb, ◌==◌, if◌then◌else◌, none, some, List, [],
  ◌∷◌, ◌++◌, length, get_or, set, take, drop, replicate,
}
use sure.Message.Size.{get_rpc_size}
use sure.Service.Unimsg.{Desc, size, Rc, ok, econnreset, error, Unimsg}
use sure.Service.Process.{returns, exits, PendingBuffer, command_at, process_desc}
use sure.Service.Loop.{
  Reaction, proceeds, closes, aborts, LoopEnd, finished, closed, aborted, unfinished, cleared,
  advance, desc_loop,
}
use sure.Service.Sync.{is_ok}

-- MAX_COROUTINES
abbrev pub max_coroutines : ℕ
max_coroutines = 32

-- The static variables: `available_cos` with its top in front, and the socket that each coroutine
-- answers (`up_sock`). `waiting` tells of which coroutines `down_desc` points to a descriptor of theirs, as
-- they wait in `do_rpc`.
pub record Coroutines : Type 0 where
  pub available_cos : List ℕ
  pub up_socks : List ℕ
  pub disable_upstream : Bool
  pub waiting : ℕ → Bool

-- What a handler does next: it calls `do_rpc` for a service, or it returns, with the response in the
-- descriptor. The state of the suspended handlers is in `T`.
pub data Step (T : Type 0) : Type 0 where
  calls : Desc → ℕ → T → Step T
  responds : Desc → T → Step T

-- The handlers, which libaco runs up to their next call or their end: from the request, and from the
-- response to the call at which the coroutine waits.
pub record Handler (T : Type 0) : Type 0 where
  pub begin : ℕ → Desc → T → Step T
  pub resume : ℕ → Desc → T → Step T

-- `rpc->id`: the first word of the header, and its update by a small number.
unfoldable pub id_of : List ℕ → ℕ
id_of bs = get_or bs 0 0 + 256 * (get_or bs 1 0 + 256 * (get_or bs 2 0 + 256 * get_or bs 3 0))

unfoldable pub with_id : ℕ → Desc → Desc
with_id co d = record d { bytes = co ∷ 0 ∷ 0 ∷ 0 ∷ drop 4 d.bytes }

-- The end of `coroutine_fn`: a coroutine becomes available again.
abbrev pub release : ℕ → Coroutines → Coroutines
release co c = record c {
  available_cos = co ∷ c.available_cos;
  disable_upstream = if length c.available_cos == 0 then false else c.disable_upstream;
}

-- A coroutine begins to wait, or it stops.
abbrev pub set_waiting : ℕ → Bool → Coroutines → Coroutines
set_waiting co b c = record c { waiting = λ co'. if co' == co then b else c.waiting co' }

-- `n_available_cos--`, with the new `up_sock` of the coroutine.
abbrev pub acquire : ℕ → ℕ → List ℕ → Coroutines → Coroutines
acquire co s rest c = record c { available_cos = rest; up_socks = set c.up_socks co s }

module _ (u : Unimsg) {T : Type 0} (h : Handler T) (downstream_socks : List ℕ) where
  open u use {World, buffer_put, recv, send, close, max_descs_bulk}

  abbrev pub State : Type 0
  State = World × (Coroutines × T)

  -- The first half of `do_rpc` and the end of `coroutine_fn`, up to `aco_yield`.
  unfoldable pub run_step : ℕ → Step T → World → Coroutines → Reaction State
  unfolding with_id
  run_step co (calls d service t) w c =
      let (rc, w') = send (get_or downstream_socks service 0) (with_id co d) w in
      if is_ok rc then proceeds (w', (set_waiting co true c, t)) else aborts
  run_step co (responds d t) w c =
      let (rc, w') = send (get_or c.up_socks co 0) d w in
      if is_ok rc then proceeds (w', (release co c, t)) else aborts

  -- The second half of `do_rpc`, and on from there.
  unfoldable pub resume_co : ℕ → Desc → State → Reaction State
  resume_co co d (w, (c, t)) = elim (get_rpc_size (command_at d.bytes)) [
    | none ↦ aborts
    | some n ↦ if size d == n then run_step co (h.resume co d t) w c else aborts
  ]

  -- What `handle_downstream` does with a complete message. For a coroutine that does not wait it writes
  -- through a pointer that is null or that points to what was freed: what follows is not modelled, and it
  -- is as if the program ended there.
  unfoldable pub on_response : Desc → State → Reaction State
  unfolding id_of
  on_response d (w, (c, t)) =
      let co = id_of d.bytes in
      if leb max_coroutines co
      then aborts
      else if c.waiting co
      then resume_co co d (w, (set_waiting co false c, t))
      else aborts

  -- How a handler of a socket ends: it returns 0, 1 or 2, or does not return.
  pub data Upstream : Type 0 where
    served : PendingBuffer → State → Upstream
    disconnected : PendingBuffer → State → Upstream
    no_coroutine : State → Upstream
    fails : Upstream

  abbrev pub of_loop : LoopEnd State → Upstream
  of_loop (finished p st) = served p st
  of_loop (closed p st) = disconnected p st
  of_loop aborted = fails
  of_loop (unfinished _ _ _) = fails

  -- `handle_downstream`; the first argument bounds the rounds of its loop.
  unfoldable pub handle_downstream : ℕ → ℕ → PendingBuffer → State → Upstream
  handle_downstream fuel s pending (w, st) =
      let (rc, descs, w') = recv s max_descs_bulk w in
      if is_ok rc then of_loop (desc_loop u on_response fuel descs pending (w', st)) else fails

  -- `disable_upstream = 1; return 2;`
  abbrev pub refuse : State → Upstream
  refuse (w, (c, t)) = no_coroutine (w, (record c { disable_upstream = true }, t))

  -- Starts a coroutine with a request.
  abbrev pub start_co : ℕ → ℕ → List ℕ → Desc → State → Reaction State
  start_co s co rest d (w, (c, t)) = run_step co (h.begin co d t) w (acquire co s rest c)

  abbrev pub of_reaction : PendingBuffer → Reaction State → Upstream
  of_reaction p (proceeds st) = served p st
  of_reaction p (closes d st) = disconnected p st
  of_reaction p aborts = fails

  -- `handle_upstream_http`: one descriptor is one request. `unimsg_recv` without an error gives one.
  unfoldable pub handle_upstream_http : ℕ → PendingBuffer → State → Upstream
  unfolding run_step
  handle_upstream_http s pending (w, (c, t)) = elim c.available_cos [
    | [] ↦ refuse (w, (c, t))
    | co ∷ rest ↦
        let (rc, descs, w') = recv s 1 w in
        elim rc [
          | ok ↦ of_reaction pending (start_co s co rest (get_or descs 0 pending.desc) (w', (c, t)))
          | econnreset ↦ disconnected pending (close s w', (c, t))
          | error ↦ fails
        ]
  ]

  -- What `handle_upstream_grpc` does with a complete message, when a coroutine is available.
  unfoldable pub on_request : ℕ → ℕ → List ℕ → Desc → State → Reaction State
  on_request s co rest d st = elim (get_rpc_size (command_at d.bytes)) [
    | none ↦ aborts
    | some n ↦ if size d == n then start_co s co rest d st else aborts
  ]

  -- The loop of `handle_upstream_grpc`, which looks for a coroutine before each descriptor.
  unfoldable pub grpc_loop : ℕ → ℕ → List Desc → PendingBuffer → State → Upstream
  grpc_loop zero s ds p st = fails
  grpc_loop (suc fuel) s [] p st = served p st
  grpc_loop (suc fuel) s (d ∷ ds) p (w, (c, t)) = elim c.available_cos [
    | [] ↦ fails
    | co ∷ rest ↦ elim (process_desc u p d w) [
      | exits ↦ fails
      | returns (false, p', d', w') ↦ grpc_loop fuel s (advance d' ds) p' (w', (c, t))
      | returns (true, p', d', w') ↦ elim (on_request s co rest p'.desc (w', (c, t))) [
        | proceeds st' ↦ grpc_loop fuel s (advance d' ds) (cleared p') st'
        | closes left st' ↦ fails
        | aborts ↦ fails
      ]
    ]
  ]

  -- `handle_upstream_grpc`
  unfoldable pub handle_upstream_grpc : ℕ → ℕ → PendingBuffer → State → Upstream
  handle_upstream_grpc fuel s pending (w, (c, t)) =
      if length c.available_cos == 0
      then refuse (w, (c, t))
      else (let (rc, descs, w') = recv s max_descs_bulk w in
          elim rc [
            | ok ↦ grpc_loop fuel s descs pending (w', (c, t))
            | econnreset ↦ disconnected pending (close s w', (c, t))
            | error ↦ fails
          ])
