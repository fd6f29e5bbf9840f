-- ===== src/Latency/Exchange.antt =====
-- apps/rr-latency/sure/main.c: a request and its response, from the client to the server and back.
use sure.Prelude.{
  ℕ, ◌+◌, ◌-◌, ◌^◌, ◌≤◌, ◌<◌, ◌≡◌, ◌≢◌, refl, sym, ap, ◌∙◌, Bool, true, false, not, ltb,
  if◌then◌else◌, List, [], ◌∷◌, length, All, arith,
}
use sure.Latency.{
  Options, count_descs, Received, message, gather, client_sends, client_puts, server_answers,
}
use sure.Latency.Sizes.{total, request, request-total}
use sure.Latency.Gather.{Arrives, gather_lem}

-- The buffers that the client has between two exchanges.
abbrev pub idle_buffers : ℕ → Options → ℕ
idle_buffers available o = if o.buffers_reuse then count_descs available o.size else 0

not_empty :
    (available : ℕ) (ns : List ℕ) → All (λ m. (1 ≤ m) × (m ≤ available)) ns → All (λ m. 1 ≤ m) ns
not_empty available [] all = tt
not_empty available (n ∷ ns) ((low, _), all) = (low, not_empty available ns all)

module _ (available : ℕ) (o : Options) (plain : o.http ≡ false) (small : o.size < 2 ^ 32)
    (a : 1 ≤ available) (b : 1 ≤ o.size) where
  request-ne-nil : request available o ≢ []
  request-ne-nil e =
      let (sum, _, _) = request-total available o plain a b in
      let z : o.size ≡ 0 = sym sum ∙ ap total e in absurd (omega (arith, b, z))

  received :
      (outs : List Received)
      → Arrives o.busy_poll outs (request available o)
      → gather o [] 0 outs ≡ message (request available o) []
  received outs arrives =
      let (sum, bounds, _) = request-total available o plain a b in
      gather_lem o plain small outs [] (request available o) 0 arrives
        (not_empty available (request available o) bounds) request-ne-nil (omega (arith, sum))

  sends_lem :
      (reuse : Bool) (nd : ℕ)
      → (if reuse then (if reuse then nd else 0) else (if reuse then nd else 0) + nd) - nd ≡ 0
  sends_lem true nd = omega arith
  sends_lem false nd = omega arith

  nothing_left : (client_sends available o (idle_buffers available o)).buffers ≡ 0
  unfolding client_sends
  nothing_left = sends_lem o.buffers_reuse (count_descs available o.size)

  puts_lem :
      (reuse : Bool) (nd len : ℕ)
      → len ≡ nd
      → (if not reuse then 0 + len - len else if ltb nd len then 0 + len - (len - nd) else 0 + len)
        ≡ (if reuse then nd else 0)
  puts_lem true nd len e = ground (arith, e)
  puts_lem false nd len e = omega arith

  if_false : {A : Type 0} (b : Bool) (x y : A) → b ≡ false → (if b then x else y) ≡ y
  if_false b x y e = rw (e) refl

  sends_back :
      (n : ℕ) (ds : List ℕ) → server_answers available o n ds ≡ record { buffers = n; sent = ds }
  unfolding server_answers
  sends_back n ds =
      let same : n + length ds - length ds ≡ n = omega arith in
      if_false o.http _ _ plain ∙ ap (λ k. record { buffers = k; sent = ds }) same

  puts_all :
      (ds : List ℕ)
      → length ds ≡ count_descs available o.size
      → client_puts available o 0 ds ≡ idle_buffers available o
  unfolding client_puts
  puts_all ds e = puts_lem o.buffers_reuse (count_descs available o.size) (length ds) e

  -- An exchange without HTTP, whatever the parts are in which the descriptors arrive on both ways: the server
  -- receives what the client has sent and sends just that back, with as many buffers as before; the client
  -- receives it; and then it has the buffers that it had before the exchange, whether it reuses them or not.
  pub exchange_lem :
      (n : ℕ) (outs outs' : List Received)
      → Arrives o.busy_poll outs (request available o)
      → Arrives o.busy_poll outs' (request available o)
      → (let turn = client_sends available o (idle_buffers available o) in
          (gather o [] 0 outs ≡ message turn.sent [])
          × (server_answers available o n turn.sent ≡ record { buffers = n; sent = turn.sent })
          × (gather o [] 0 outs' ≡ message turn.sent [])
          × (client_puts available o turn.buffers turn.sent ≡ idle_buffers available o))
  unfolding client_sends
  exchange_lem n outs outs' there back =
      let (_, _, len) = request-total available o plain a b in
      (
        received outs there,
        sends_back n (request available o),
        received outs' back,
        ap (λ k. client_puts available o k (request available o)) nothing_left
            ∙ puts_all (request available o) len,
      )
