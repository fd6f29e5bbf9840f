-- ===== src/Service/Async/Run.antt =====
-- `run_service` of apps/boutique/sure/common/service/service_async.h.
use sure.Prelude.{
  ℕ, zero, suc, ◌+◌, ◌-◌, false, ltb, ◌==◌, if◌then◌else◌, List, [], ◌∷◌, ◌++◌, length, get_or, set,
  take, replicate,
}
use sure.Service.Unimsg.{Unimsg}
use sure.Service.Process.{PendingBuffer}
use sure.Service.Sync.{Server, is_ok, no_pending, forget_socket}
use sure.Service.Async.{
  Coroutines, Handler, State, Upstream, served, disconnected, no_coroutine, fails,
  handle_downstream, max_coroutines,
}

-- `available_cos[i] = i` for all coroutines: the last is the top.
abbrev pub countdown : ℕ → List ℕ
countdown zero = []
countdown (suc n) = n ∷ countdown n

abbrev pub start_coroutines : Coroutines
start_coroutines = record {
  available_cos = countdown max_coroutines;
  up_socks = replicate max_coroutines 0;
  disable_upstream = false;
  waiting = λ co. false;
}

module _ (u : Unimsg) {T : Type 0} (h : Handler T) (downstream_socks : List ℕ)
    -- `handle_upstream`, which UPSTREAM_HTTP selects
    (handle_upstream : ℕ
      → PendingBuffer
      → State u h downstream_socks
      → Upstream u h downstream_socks) where
  open u use {max_nsocks, poll, accept}

  abbrev pub St : Type 0
  St = State u h downstream_socks

  -- What a part of a round does.
  pub data Round : Type 0 where
    continues : Server → St → Round
    stops : Round

  abbrev pub then_round : Round → (Server → St → Round) → Round
  then_round (continues srv st) k = k srv st
  then_round stops k = stops

  abbrev pub keep_pending : ℕ → PendingBuffer → Server → Server
  keep_pending i p srv = record srv { pending_buffers = set srv.pending_buffers i p }

  -- `for (i = 1; i <= ndependencies; i++)`, with the rounds that are left.
  unfoldable pub serve_downstream : ℕ → ℕ → ℕ → Server → St → Round
  serve_downstream fuel zero i srv st = continues srv st
  serve_downstream fuel (suc left) i srv st =
      if get_or srv.ready i false
      then elim (handle_downstream u h downstream_socks fuel (get_or srv.socks i 0)
          (get_or srv.pending_buffers i no_pending) st) [
            | served p st' ↦ serve_downstream fuel left (i + 1) (keep_pending i p srv) st'
            | disconnected p st' ↦ stops
            | no_coroutine st' ↦ stops
            | fails ↦ stops
          ]
      else serve_downstream fuel left (i + 1) srv st

  -- `for (; i < npoll; i++)`, with `npoll` before `i`; the first number bounds the rounds by the length of
  -- the table. A closed socket makes `npoll` smaller and moves the others down; `return 2` breaks the loop.
  unfoldable pub serve_upstream : ℕ → ℕ → ℕ → Server → St → Round
  serve_upstream zero n i srv st = continues srv st
  serve_upstream (suc left) n i srv st =
      if ltb i n
      then (if get_or srv.ready i false
          then elim (handle_upstream (get_or srv.socks i 0)
              (get_or srv.pending_buffers i no_pending) st) [
                | served p st' ↦ serve_upstream left n (i + 1) (keep_pending i p srv) st'
                | disconnected p st' ↦
                    serve_upstream left (n - 1) (i + 1) (forget_socket i (keep_pending i p srv)) st'
                | no_coroutine st' ↦ continues srv st'
                | fails ↦ stops
              ]
          else serve_upstream left n (i + 1) srv st)
      else continues srv st

  -- `if (ready[0])`: a new connection.
  unfoldable pub accept_upstream : Server → St → Round
  accept_upstream srv (w, st) =
      if get_or srv.ready 0 false
      then (if length srv.socks == max_nsocks
          then stops
          else (let (rc, s, w') = accept (get_or srv.socks 0 0) w in
              if is_ok rc
              then continues (record srv { socks = srv.socks ++ s ∷ [] }) (w', st)
              else stops))
      else continues srv (w, st)

  -- `npoll`
  abbrev pub npoll : ℕ → Server → St → ℕ
  npoll ndependencies srv (_, (c, _)) =
      if c.disable_upstream then ndependencies + 1 else length srv.socks

  -- A round of `while (1)`.
  unfoldable pub async_round : ℕ → ℕ → Server → St → Round
  async_round fuel ndependencies srv (w, st) =
      let n = npoll ndependencies srv (w, st) in
      let (rc, ready, w') = poll (take n srv.socks) w in
      if is_ok rc
      then then_round
          (then_round
            (serve_downstream fuel ndependencies 1 (record srv { ready = ready }) (w', st))
            (serve_upstream (length srv.socks) n (ndependencies + 1)))
          accept_upstream
      else stops

  -- Some rounds.
  unfoldable pub async_rounds : ℕ → ℕ → ℕ → Server → St → Round
  async_rounds fuel ndependencies zero srv st = continues srv st
  async_rounds fuel ndependencies (suc n) srv st =
      then_round (async_round fuel ndependencies srv st) (async_rounds fuel ndependencies n)
