-- ===== src/Throughput/Serves.antt =====
-- apps/throughput/sure/main.c: how many buffers the server holds.
use sure.Prelude.{
  ℕ, zero, suc, ◌+◌, ◌-◌, ◌≡◌, refl, sym, ap, ◌∙◌, Bool, true, false, ltb, List, [], ◌∷◌, length,
  length-append, length-take, length-drop, get_or, take, drop, Option, some, arith, Bool-cases, inl,
  inr,
}
use sure.Latency.{count_descs}
use sure.Throughput.{Desc, Received, got, econnreset, failed, Unimsg, and_then, Options}
use sure.Throughput.Counts.{Gives, Gives-and_then, Counts, CameOrClosed}
use sure.Throughput.Server.{
  with_sizes, zip_ready, Serving, keep, respond, http_descs, answer_received, do_server_rr,
  serve_ready, accept_ready, server_round, goes_on, server_rounds,
}

length-with_sizes :
    (available size : ℕ) (ds : List Desc) → length (with_sizes available size ds) ≡ length ds
length-with_sizes available size [] = refl
length-with_sizes available size (d ∷ []) = refl
length-with_sizes available size (d ∷ d' ∷ ds) = ap suc (length-with_sizes available size (d' ∷ ds))

module _ (u : Unimsg) (available bulk listener : ℕ) (o : Options) (held : u.World → ℕ)
    (counts : Counts u held (CameOrClosed held)) where
  -- So many buffers are held.
  abbrev pub Holding : {A : Type 0} → ℕ → A × u.World → Type 0
  Holding h (a, w) = held w ≡ h

  http_descs-Holding :
      (h : ℕ) (ds : List Desc) (w : u.World)
      → held w ≡ h + length ds
      → Gives (λ (ds', w'). held w' ≡ h + length ds') (http_descs u available bulk listener o ds w)
  http_descs-Holding h ds w e =
      let nsend : ℕ = count_descs available o.size in
      elim (Bool-cases (ltb (length ds) nsend)) [
        | inl f ↦ rw (f) (
            Gives-and_then
              (λ (more, w').
                (length more ≡ nsend - length ds) × (held w' ≡ held w + (nsend - length ds)))
              (λ (ds', w'). held w' ≡ h + length ds') (u.buffer_get (nsend - length ds) w) _
              (counts.by_buffer_get (nsend - length ds) w)
              (λ (more, w') (len, e'). omega (arith, e, e', len, length-append ds more)))
        | inr f ↦ elim (Bool-cases (ltb nsend (length ds))) [
          | inl g ↦
              rw (f, g)
                (counts.by_buffer_put (drop nsend ds) (h + length (take nsend ds)) w
                  (omega (arith, e, length-take nsend ds, length-drop nsend ds)))
          | inr g ↦ rw (f, g) e
        ]
      ]

  respond-Holding :
      (s h : ℕ) (ds : List Desc) (w : u.World)
      → held w ≡ h + length ds
      → Gives (Holding h) (respond u available bulk listener o s ds w)
  respond-Holding s h ds w e =
      Gives-and_then (λ w'. held w' ≡ h) (Holding h) (u.send s ds w) _ (counts.by_send s ds h w e)
        (λ w' e'. e')

  answer_received-Holding :
      (s h : ℕ) (r : Received × u.World)
      → CameOrClosed held bulk h r
      → Gives (Holding h) (answer_received u available bulk listener o s r)
  answer_received-Holding s h (got ds, w) e = elim (Bool-cases o.http) [
    | inl f ↦ rw (f) (
        Gives-and_then (λ (ds', w'). held w' ≡ h + length ds') (Holding h)
          (http_descs u available bulk listener o ds w) _ (http_descs-Holding h ds w e)
          (λ (ds', w') e'.
            respond-Holding s h (with_sizes available o.size ds') w'
              (e' ∙ ap (λ x. h + x) (sym (length-with_sizes available o.size ds')))))
    | inr f ↦ rw (f) (respond-Holding s h ds w e)
  ]
  answer_received-Holding s h (econnreset, w) e = e
  answer_received-Holding s h (failed, w) e = absurd e

  do_server_rr-Holding :
      (s : ℕ) (w : u.World)
      → Gives (Holding (held w)) (do_server_rr u available bulk listener o s w)
  unfolding do_server_rr
  do_server_rr-Holding s w =
      answer_received-Holding s (held w) (u.recv s bulk true w) (counts.by_recv s bulk true w)

  keep-Holding :
      (s h : ℕ) (r : Option (Serving × u.World))
      → Gives (Holding h) r
      → Gives (Holding h) (and_then r (λ (st, w). some (keep s st, w)))
  keep-Holding s h r holding = Gives-and_then (Holding h) (Holding h) r _ holding (λ (st, w) e. e)

  serve_ready-Holding :
      (moved : Bool) (socks : List (ℕ × Bool)) (st : Serving) (h : ℕ) (w : u.World)
      → held w ≡ h
      → Gives (Holding h) (serve_ready u available bulk listener o moved socks st w)
  unfolding serve_ready
  serve_ready-Holding moved [] st h w e = e
  serve_ready-Holding true ((s, r) ∷ rest) st h w e =
      keep-Holding s h _ (serve_ready-Holding false rest st h w e)
  serve_ready-Holding false ((s, false) ∷ rest) st h w e =
      keep-Holding s h _ (serve_ready-Holding false rest st h w e)
  serve_ready-Holding false ((s, true) ∷ rest) st h w e =
      Gives-and_then (Holding (held w)) (Holding h) (do_server_rr u available bulk listener o s w) _
        (do_server_rr-Holding s w)
        (λ (closed, w') e'. elim (Bool-cases closed) [
          | inl f ↦
              rw (f)
                (serve_ready-Holding true rest st h (u.close s w') (counts.by_close s w' ∙ e' ∙ e))
          | inr f ↦ rw (f) (
              keep-Holding s h _
                (serve_ready-Holding false rest (record st { rrs = st.rrs + 1 }) h w' (e' ∙ e)))
        ])

  accept_ready-Holding :
      (ready : Bool) (st : Serving) (h : ℕ) (w : u.World)
      → held w ≡ h
      → Gives (Holding h) (accept_ready u available bulk listener o ready st w)
  accept_ready-Holding false st h w e = e
  accept_ready-Holding true st h w e =
      Gives-and_then (λ (s, w'). held w' ≡ held w) (Holding h) (u.accept w) _ (counts.by_accept w)
        (λ (s, w') e'. e' ∙ e)

  server_round-Holding :
      (st : Serving) (h : ℕ) (w : u.World)
      → held w ≡ h
      → Gives (Holding h) (server_round u available bulk listener o st w)
  unfolding server_round
  server_round-Holding st h w e =
      Gives-and_then (λ (flags, w'). held w' ≡ held w) (Holding h) (u.poll (listener ∷ st.socks) w)
        _ (counts.by_poll (listener ∷ st.socks) w)
        (λ (flags, w') e'.
          Gives-and_then (Holding h) (Holding h)
            (serve_ready u available bulk listener o false (zip_ready st.socks (drop 1 flags)) st
              w')
            _ (serve_ready-Holding false (zip_ready st.socks (drop 1 flags)) st h w' (e' ∙ e))
            (λ (st', w'') e''. accept_ready-Holding (get_or flags 0 false) st' h w'' e''))

  -- When no call fails, whatever is ready in each round, however many descriptors each message has and
  -- whichever connections are closed: the server does not exit, and behind each of its rounds it holds
  -- as many buffers as before, with HTTP and without.
  pub server_rounds-Holding :
      (rounds : ℕ) (st : Serving) (h : ℕ) (w : u.World)
      → held w ≡ h
      → Gives (Holding h) (server_rounds u available bulk listener o rounds st w)
  unfolding server_rounds
  server_rounds-Holding zero st h w e = e
  server_rounds-Holding (suc rounds) st h w e =
      Gives-and_then (Holding h) (Holding h) (server_round u available bulk listener o st w) _
        (server_round-Holding st h w e)
        (λ (st', w') e'. elim (Bool-cases (goes_on u available bulk listener o st')) [
          | inl f ↦ rw (f) (server_rounds-Holding rounds st' h w' e')
          | inr f ↦ rw (f) e'
        ])
