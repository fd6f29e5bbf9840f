-- ===== src/Latency/Client.antt =====
-- apps/rr-latency/sure/main.c: the client as a whole.
use sure.Prelude.{
  ℕ, zero, suc, ◌+◌, ◌-◌, ◌^◌, ◌≤◌, ◌<◌, ◌≡◌, refl, sym, ap, ◌∙◌, Bool, true, false, if◌then◌else◌,
  List, [], ◌∷◌, ◌++◌, length, replicate, All, Option, none, some, arith, append-nil, subst,
}
use sure.Latency.{
  Options, Received, message, ends, waits, count_descs, gather, client_sends, client_puts,
}
use sure.Latency.Sizes.{request}
use sure.Latency.Gather.{Arrives}
use sure.Latency.Exchange.{idle_buffers, exchange_lem}

-- The buffers that the client has; the messages that it has sent, the last one first; what was received
-- and not read; and what is received behind each of the messages that it sends from now on.
pub record Client : Type 0 where
  pub buffers : ℕ
  pub sent : List (List ℕ)
  pub unread : List Received
  pub incoming : List (List Received)

abbrev pub next_parts : List (List Received) → List Received
next_parts [] = []
next_parts (parts ∷ more) = parts

abbrev pub later : List (List Received) → List (List Received)
later [] = []
later (parts ∷ more) = more

-- `do_client_rr`; it gives nothing if the client exits or waits for ever.
unfoldable pub do_client_rr : ℕ → Options → Client → Option Client
unfolding client_sends gather client_puts
do_client_rr available o c =
    let turn = client_sends available o c.buffers in
    elim (gather o [] 0 (c.unread ++ next_parts c.incoming)) [
      | message descs more ↦ some (record {
        buffers = client_puts available o turn.buffers descs;
        sent = turn.sent ∷ c.sent;
        unread = more;
        incoming = later c.incoming;
      })
      | ends r more ↦ none
      | waits ↦ none
    ]

-- `do_client_rr` so many times.
unfoldable pub client_rrs : ℕ → ℕ → Options → Client → Option Client
unfolding do_client_rr
client_rrs zero available o c = some c
client_rrs (suc n) available o c = elim (do_client_rr available o c) [
  | none ↦ none
  | some c' ↦ client_rrs n available o c'
]

-- `client`, which holds no buffers before.
unfoldable pub run_client : ℕ → Options → List (List Received) → Option Client
unfolding client_rrs
run_client available o incoming =
    let nd = count_descs available o.size in
    let start : Client = record {
      buffers = if o.buffers_reuse then nd else 0;
      sent = [];
      unread = [];
      incoming = incoming;
    } in
    elim (client_rrs o.warmup available o start) [
      | none ↦ none
      | some c ↦ elim (client_rrs o.iterations available o c) [
        | none ↦ none
        | some c' ↦
            some (record c' { buffers = if o.buffers_reuse then c'.buffers - nd else c'.buffers })
      ]
    ]

module _ (available : ℕ) (o : Options) (plain : o.http ≡ false) (small : o.size < 2 ^ 32)
    (a : 1 ≤ available) (b : 1 ≤ o.size) where
  -- The client between two exchanges, with so many messages sent.
  abbrev pub idle : ℕ → List (List Received) → Client
  idle n incoming = record {
    buffers = idle_buffers available o;
    sent = replicate n (request available o);
    unread = [];
    incoming = incoming;
  }

  do_client_rr-idle :
      (n : ℕ) (parts : List Received) (more : List (List Received))
      → Arrives o.busy_poll parts (request available o)
      → do_client_rr available o (idle n (parts ∷ more)) ≡ some (idle (suc n) more)
  unfolding do_client_rr client_sends
  do_client_rr-idle n parts more arrives =
      let (got_it, _, _, put) =
        exchange_lem available o plain small a b 0 parts parts arrives arrives in
      rw (got_it) (ap (λ k. some (record (idle (suc n) more) { buffers = k })) put)

  client_rrs-idle :
      (now more : List (List Received)) (n : ℕ)
      → All (λ parts. Arrives o.busy_poll parts (request available o)) now
      → client_rrs (length now) available o (idle n (now ++ more))
        ≡ some (idle (length now + n) more)
  unfolding client_rrs
  client_rrs-idle [] more n all = let z : n ≡ 0 + n = omega arith in ap (λ k. some (idle k more)) z
  client_rrs-idle (parts ∷ now) more n (arrives, all) =
      let count : length now + suc n ≡ suc (length now) + n = omega arith in
      rw (do_client_rr-idle n parts (now ++ more) arrives, client_rrs)
        (client_rrs-idle now more (suc n) all ∙ ap (λ k. some (idle k more)) count)

  client_rrs_lem :
      (count n : ℕ) (now more : List (List Received))
      → length now ≡ count
      → All (λ parts. Arrives o.busy_poll parts (request available o)) now
      → client_rrs count available o (idle n (now ++ more)) ≡ some (idle (count + n) more)
  client_rrs_lem count n now more len all =
      subst (λ k. client_rrs k available o (idle n (now ++ more)) ≡ some (idle (k + n) more)) len
        (client_rrs-idle now more n all)

  ends_empty :
      (reuse : Bool) (nd : ℕ)
      → (let left = if reuse then nd else 0 in if reuse then left - nd else left) ≡ 0
  ends_empty true nd = omega arith
  ends_empty false nd = refl

  -- A client without HTTP, each of whose messages comes back to it in whatever parts: it ends, it has sent
  -- one message for each warmup round and one for each iteration, it has read all that came back, and it
  -- holds no buffers, whether it reuses them or not.
  pub run_client_lem :
      (warm timed : List (List Received))
      → length warm ≡ o.warmup
      → length timed ≡ o.iterations
      → All (λ parts. Arrives o.busy_poll parts (request available o)) warm
      → All (λ parts. Arrives o.busy_poll parts (request available o)) timed
      → run_client available o (warm ++ timed)
        ≡ some (record {
          buffers = 0;
          sent = replicate (o.iterations + o.warmup) (request available o);
          unread = [];
          incoming = [];
        })
  unfolding run_client
  run_client_lem warm timed w t all all' =
      let none_sent : o.warmup + 0 ≡ o.warmup = omega arith in
      let first : client_rrs o.warmup available o (idle 0 (warm ++ timed))
          ≡ some (idle o.warmup timed) =
        client_rrs_lem o.warmup 0 warm timed w all ∙ ap (λ k. some (idle k timed)) none_sent in
      let second : client_rrs o.iterations available o (idle o.warmup timed)
          ≡ some (idle (o.iterations + o.warmup) []) =
        ap (λ x. client_rrs o.iterations available o (idle o.warmup x)) (sym (append-nil timed))
        ∙ client_rrs_lem o.iterations o.warmup timed [] t all' in
      rw (first, second, run_client)
        (ap (λ k. some (record (idle (o.iterations + o.warmup) []) { buffers = k }))
          (ends_empty o.buffers_reuse (count_descs available o.size)))
