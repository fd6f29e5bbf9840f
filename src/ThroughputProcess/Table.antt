-- ===== src/ThroughputProcess/Table.antt =====
-- apps/throughput/process/main.c: the table of the server and the connections that are open.
use sure.Prelude.{
  ℕ, zero, suc, ◌+◌, ◌≡◌, ◌⊎◌, inl, inr, refl, sym, ap, ◌∙◌, Bool, true, false, not, ◌&&◌, ltb,
  ◌==◌, if◌then◌else◌, Bool-cases, List, [], ◌∷◌, length, Option, none, some, arith,
}
use sure.ThroughputProcess.{
  Options, Received, got, eagain, failed, Event, silent, pollin, unexpected, Pollfd, Polled, events,
  interrupted, poll_failed, System, and_then, fds, sent_all,
}
use sure.ThroughputProcess.Server.{
  Serving, Answered, answered, closed_by_client, answer_received, do_server_rr, keep, serve_ready,
  accept_ready, after_poll, after_polled, with_events, server_round, server_rounds,
}
use sure.ThroughputProcess.Server.{accept_one, max_nsocks}
use sure.ThroughputProcess.Opened.{
  UnlessExit, UnlessExit-and_then, CountsOpen, same_fd, places, places-with_events,
  listener-with_events, places-append, event-cases,
}

module _ (sys : System) (o : Options) (open_socks : sys.World → ℕ → ℕ)
    (counts : CountsOpen sys open_socks) (x l : ℕ) where
  -- `l` is the listening socket; and the descriptor `x` is open as often as it stands among the connections,
  -- and some times more.
  abbrev pub Tracks : ℕ → Serving × sys.World → Type 0
  Tracks h (st, w) = (st.listener.fd ≡ l) × (open_socks w x ≡ h + places x st.conns)

  sent_all-open :
      (size h : ℕ) (r : Option ℕ × sys.World)
      → open_socks r.1 x ≡ h
      → UnlessExit (λ w. open_socks w x ≡ h) (sent_all sys o size r)
  sent_all-open size h (none, w) e = tt
  sent_all-open size h (some n, w) e = elim (Bool-cases (n == size)) [
    | inl f ↦ rw (f) e
    | inr f ↦ rw (f) tt
  ]

  keep-Tracks :
      (h : ℕ) (p : Pollfd) (r : Option (Serving × sys.World))
      → UnlessExit (Tracks (h + same_fd x p.fd)) r
      → UnlessExit (Tracks h) (and_then r (keep sys o p))
  keep-Tracks h p r t =
      UnlessExit-and_then (Tracks (h + same_fd x p.fd)) (Tracks h) r (keep sys o p) t
        (λ (st, w) (same, e). (same, omega (arith, e)))

  by_answer :
      (p : Pollfd) (ps : List Pollfd) (st : Serving) (h : ℕ) (w : sys.World)
      → open_socks w x ≡ h + places x (p ∷ ps)
      → ((st' : Serving) (w' : sys.World)
          → st'.listener.fd ≡ st.listener.fd
          → open_socks w' x ≡ h + same_fd x p.fd + places x ps
          → UnlessExit (Tracks (h + same_fd x p.fd)) (serve_ready sys o false ps st' w'))
      → ((w' : sys.World)
          → open_socks w' x ≡ h + places x ps
          → UnlessExit (Tracks h) (serve_ready sys o true ps st w'))
      → (a : Answered × sys.World) → open_socks a.1 x ≡ open_socks w x
      → UnlessExit (Tracks h) (elim a.0 [
        | answered ↦
            and_then
              (serve_ready sys o false ps (record st { rrs = st.rrs + 1 }) a.1)
              (keep sys o p)
        | closed_by_client ↦ serve_ready sys o true ps st (sys.close p.fd a.1)
      ])
  by_answer p ps st h w e next moved (answered, w') e' =
      keep-Tracks h p _ (next (record st { rrs = st.rrs + 1 }) w' refl (omega (arith, e, e')))
  by_answer p ps st h w e next moved (closed_by_client, w') e' =
      moved (sys.close p.fd w') (counts.by_close p.fd x (h + places x ps) w' (omega (arith, e, e')))

  accepted :
      (st : Serving) (h : ℕ) (w : sys.World)
      → Tracks h (st, w)
      → UnlessExit (Tracks h) (accept_one sys o st w)
  accepted st h w (same, t) =
      UnlessExit-and_then (λ (s, w'). open_socks w' x ≡ open_socks w x + same_fd x s) (Tracks h)
        (sys.accept w) _ (counts.by_accept x w)
        (λ (s, w') e. elim (Bool-cases (ltb (length st.conns + 1) max_nsocks)) [
          | inl f ↦
              let p : Pollfd = record { fd = s; revents = sys.unpolled w' } in
              rw (f) (same, omega (arith, t, e, places-append x st.conns p))
          | inr f ↦ rw (f) tt
        ])

  answer_received-open :
      (s h : ℕ) (r : Received × sys.World)
      → open_socks r.1 x ≡ h
      → UnlessExit (λ (a, w). open_socks w x ≡ h) (answer_received sys o s r)
  answer_received-open s h (got n, w) e = elim (Bool-cases (n == 0)) [
    | inl f ↦ rw (f) e
    | inr f ↦
        let size : ℕ = if o.http then o.size else n in
        rw (f) (
          UnlessExit-and_then (λ w'. open_socks w' x ≡ h) (λ (a, w'). open_socks w' x ≡ h)
            (sent_all sys o size (sys.send s size w)) _
            (sent_all-open size h (sys.send s size w) (counts.by_send s size x w ∙ e))
            (λ w' e'. e'))
  ]
  answer_received-open s h (eagain, w) e = tt
  answer_received-open s h (failed, w) e = tt

  do_server_rr-open :
      (s : ℕ) (w : sys.World)
      → UnlessExit (λ (a, w'). open_socks w' x ≡ open_socks w x) (do_server_rr sys o s w)
  unfolding do_server_rr
  do_server_rr-open s w =
      answer_received-open s (open_socks w x) (sys.recv s w) (counts.by_recv s x w)

  serve_ready-Tracks :
      (moved : Bool) (ps : List Pollfd) (st : Serving) (h : ℕ) (w : sys.World)
      → st.listener.fd ≡ l
      → open_socks w x ≡ h + places x ps
      → UnlessExit (Tracks h) (serve_ready sys o moved ps st w)
  unfolding serve_ready
  serve_ready-Tracks moved [] st h w same e = (same, e)
  serve_ready-Tracks true (p ∷ ps) st h w same e =
      keep-Tracks h p _
        (serve_ready-Tracks false ps st (h + same_fd x p.fd) w same (omega (arith, e)))
  serve_ready-Tracks false (p ∷ ps) st h w same e = elim (event-cases p.revents) [
    | inl f ↦ rw (f) (
        keep-Tracks h p _
          (serve_ready-Tracks false ps st (h + same_fd x p.fd) w same (omega (arith, e))))
    | inr (inl f) ↦ rw (f) (
        UnlessExit-and_then (λ (a, w'). open_socks w' x ≡ open_socks w x) (Tracks h)
          (do_server_rr sys o p.fd w) _ (do_server_rr-open p.fd w)
          (by_answer p ps st h w e
            (λ st' w' unmoved e'.
              serve_ready-Tracks false ps st' (h + same_fd x p.fd) w' (unmoved ∙ same) e')
            (λ w' e'. serve_ready-Tracks true ps st h w' same e')))
    | inr (inr f) ↦ rw (f) tt
  ]

  accept_ready-Tracks :
      (e : Event) (st : Serving) (h : ℕ) (w : sys.World)
      → Tracks h (st, w)
      → UnlessExit (Tracks h) (accept_ready sys o e st w)
  accept_ready-Tracks silent st h w t = t
  accept_ready-Tracks pollin st h w t = accepted st h w t
  accept_ready-Tracks unexpected st h w t = accepted st h w t

  after_poll-Tracks :
      (st : Serving) (h : ℕ) (w : sys.World)
      → Tracks h (st, w)
      → UnlessExit (Tracks h) (after_poll sys o st w)
  after_poll-Tracks st h w (same, t) =
      UnlessExit-and_then (Tracks h) (Tracks h) (serve_ready sys o false st.conns st w) _
        (serve_ready-Tracks false st.conns st h w same t)
        (λ (st', w') t'. accept_ready-Tracks st.listener.revents st' h w' t')

  after_polled-Tracks :
      (st : Serving) (h : ℕ) (r : Polled × sys.World)
      → Tracks h (st, r.1)
      → UnlessExit (Tracks h) (after_polled sys o st r)
  after_polled-Tracks st h (events es, w) (same, t) =
      after_poll-Tracks (with_events sys o es st) h w (
        listener-with_events sys o es st ∙ same,
        t ∙ ap (λ n. h + n) (sym (places-with_events sys o x es st)),
      )
  after_polled-Tracks st h (interrupted, w) t = after_poll-Tracks st h w t
  after_polled-Tracks st h (poll_failed, w) t = tt

  server_round-Tracks :
      (st : Serving) (h : ℕ) (w : sys.World)
      → Tracks h (st, w)
      → UnlessExit (Tracks h) (server_round sys o st w)
  unfolding server_round
  server_round-Tracks st h w (same, t) =
      let socks : List ℕ = st.listener.fd ∷ fds st.conns in
      after_polled-Tracks st h (sys.poll socks w) (same, counts.by_poll socks x w ∙ t)

  -- The server goes on, or it has ended: then the listening socket is closed, and so is every connection,
  -- unless SIGINT has stopped it.
  abbrev pub GoesOnOrEnded : ℕ → ℕ × Serving × sys.World → Type 0
  GoesOnOrEnded h (zero, st, w) = open_socks w x ≡ h + same_fd x l + places x st.conns
  GoesOnOrEnded h (suc left, st, w) =
      (open_socks w x ≡ h + places x st.conns)
      × ((st.conns ≡ [])
          ⊎ ((v : sys.World) × (w ≡ sys.close st.listener.fd v) × (sys.stop v ≡ true)))

  none_left : (ps : List Pollfd) → ltb 0 (length ps) ≡ false → ps ≡ []
  none_left [] e = refl
  none_left (p ∷ ps) e = absurd (ground (arith, e))

  ended :
      (rounds h : ℕ) (st : Serving) (w : sys.World)
      → Tracks (h + same_fd x l) (st, w)
      → (ltb 0 (length st.conns) && not (sys.stop w)) ≡ false
      → GoesOnOrEnded h (suc rounds, st, sys.close st.listener.fd w)
  ended rounds h st w (same, t) e = (
    counts.by_close st.listener.fd x (h + places x st.conns) w (
        let fd : same_fd x st.listener.fd ≡ same_fd x l = ap (same_fd x) same in
        omega (arith, t, fd)),
    elim (Bool-cases (sys.stop w)) [
      | inl f ↦ inr (w, refl, f)
      | inr f ↦
          let all : (ltb 0 (length st.conns) && not false) ≡ false =
            ap (λ b. ltb 0 (length st.conns) && not b) (sym f) ∙ e in
          inl (none_left st.conns (ground (arith, all)))
    ],
  )

  -- For every descriptor, and however `poll`, `recv`, `send` and `accept` go, unless the server exits or
  -- accepts more connections than its table has places for: behind so many rounds, also those whose `poll`
  -- was interrupted, the descriptor is open if it is that of the listening socket or of a connection of the
  -- table, or if it was open beside these at the start, and not otherwise. If the loop has ended within
  -- these rounds, the listening socket is closed, and no connection is left or SIGINT has stopped the loop.
  pub server_rounds-Ended :
      (rounds h : ℕ) (st : Serving) (w : sys.World)
      → Tracks (h + same_fd x l) (st, w)
      → UnlessExit (GoesOnOrEnded h) (server_rounds sys o rounds st w)
  unfolding server_rounds
  server_rounds-Ended zero h st w (same, t) = t
  server_rounds-Ended (suc rounds) h st w t =
      UnlessExit-and_then (Tracks (h + same_fd x l)) (GoesOnOrEnded h) (server_round sys o st w) _
        (server_round-Tracks st (h + same_fd x l) w t)
        (λ (st', w') t'. elim (Bool-cases (ltb 0 (length st'.conns) && not (sys.stop w'))) [
          | inl e ↦ rw (e) (server_rounds-Ended rounds h st' w' t')
          | inr e ↦ rw (e) (ended rounds h st' w' t' e)
        ])
