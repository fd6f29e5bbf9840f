-- ===== src/Throughput/Server.antt =====
-- apps/throughput/sure/main.c: the server, and what it holds behind each of its rounds.
use sure.Prelude.{
  ℕ, zero, suc, ◌+◌, ◌-◌, Bool, true, false, not, ◌||◌, ltb, if◌then◌else◌, List, [], ◌∷◌, ◌++◌,
  length, get_or, take, drop, Option, none, some,
}
use sure.Latency.{count_descs, last_size}
use sure.Throughput.{Desc, Received, got, econnreset, failed, Unimsg, and_then, Options}

-- The sizes of the descriptors of a response for HTTP.
abbrev pub with_sizes : ℕ → ℕ → List Desc → List Desc
with_sizes available size [] = []
with_sizes available size (d ∷ []) = record d { size = last_size available size } ∷ []
with_sizes available size (d ∷ d' ∷ ds) =
    record d { size = available } ∷ with_sizes available size (d' ∷ ds)

-- The connections with what `unimsg_poll` says of them.
abbrev pub zip_ready : List ℕ → List Bool → List (ℕ × Bool)
zip_ready [] flags = []
zip_ready (s ∷ socks) [] = (s, false) ∷ zip_ready socks []
zip_ready (s ∷ socks) (r ∷ flags) = (s, r) ∷ zip_ready socks flags

-- `socks` without the listening socket at its head, `rrs` and `started`.
pub record Serving : Type 0 where
  pub socks : List ℕ
  pub rrs : ℕ
  pub started : Bool

abbrev pub keep : ℕ → Serving → Serving
keep s st = record st { socks = s ∷ st.socks }

-- `available` is UNIMSG_BUFFER_AVAILABLE and `bulk` UNIMSG_MAX_DESCS_BULK; `listener` is `socks[0]`.
module _ (u : Unimsg) (available bulk listener : ℕ) (o : Options) where
  abbrev pub respond : ℕ → List Desc → u.World → Option (Bool × u.World)
  respond s ds w = and_then (u.send s ds w) (λ w'. some (false, w'))

  abbrev pub http_descs : List Desc → u.World → Option (List Desc × u.World)
  http_descs ds w =
      let nrecv = length ds in
      let nsend = count_descs available o.size in
      if ltb nrecv nsend
      then and_then (u.buffer_get (nsend - nrecv) w) (λ (more, w'). some (ds ++ more, w'))
      else if ltb nsend nrecv
      then some (take nsend ds, u.buffer_put (drop nsend ds) w)
      else some (ds, w)

  abbrev pub answer_received : ℕ → Received × u.World → Option (Bool × u.World)
  answer_received s (got ds, w) =
      if o.http
      then and_then (http_descs ds w) (λ (ds', w'). respond s (with_sizes available o.size ds') w')
      else respond s ds w
  answer_received s (econnreset, w) = some (true, w)
  answer_received s (failed, w) = none

  -- `do_server_rr`, which gives whether the connection is closed
  unfoldable pub do_server_rr : ℕ → u.World → Option (Bool × u.World)
  do_server_rr s w = answer_received s (u.recv s bulk true w)

  -- The loop of `server` over the connections. Where one is closed the others move up by a place, and
  -- the next of them is passed over.
  unfoldable pub serve_ready :
      Bool → List (ℕ × Bool) → Serving → u.World → Option (Serving × u.World)
  unfolding do_server_rr
  serve_ready moved [] st w = some (record st { socks = [] }, w)
  serve_ready true ((s, r) ∷ rest) st w =
      and_then (serve_ready false rest st w) (λ (st', w'). some (keep s st', w'))
  serve_ready false ((s, r) ∷ rest) st w =
      if r
      then and_then (do_server_rr s w) (λ (closed, w').
        if closed
        then serve_ready true rest st (u.close s w')
        else and_then (serve_ready false rest (record st { rrs = st.rrs + 1 }) w')
            (λ (st', w''). some (keep s st', w'')))
      else and_then (serve_ready false rest st w) (λ (st', w'). some (keep s st', w'))

  -- `if (ready[0])`
  abbrev pub accept_ready : Bool → Serving → u.World → Option (Serving × u.World)
  accept_ready false st w = some (st, w)
  accept_ready true st w =
      and_then (u.accept w)
        (λ (s, w'). some (record st { socks = st.socks ++ (s ∷ []); started = true }, w'))

  -- The body of `do ... while`.
  unfoldable pub server_round : Serving → u.World → Option (Serving × u.World)
  unfolding serve_ready
  server_round st w = and_then (u.poll (listener ∷ st.socks) w) (λ (flags, w').
      and_then (serve_ready false (zip_ready st.socks (drop 1 flags)) st w')
        (λ (st', w''). accept_ready (get_or flags 0 false) st' w''))

  -- `while (nsocks > 1 || !started)`
  abbrev pub goes_on : Serving → Bool
  goes_on st = ltb 0 (length st.socks) || not st.started

  -- `do ... while`, for so many rounds at most.
  unfoldable pub server_rounds : ℕ → Serving → u.World → Option (Serving × u.World)
  unfolding server_round
  server_rounds zero st w = some (st, w)
  server_rounds (suc rounds) st w =
      and_then (server_round st w)
        (λ (st', w'). if goes_on st' then server_rounds rounds st' w' else some (st', w'))
