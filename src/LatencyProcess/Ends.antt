-- ===== src/LatencyProcess/Ends.antt =====
-- apps/rr-latency/process/main.c: how the client and the server end.
use sure.Prelude.{
  ℕ, suc, ◌+◌, ◌-◌, ◌≤◌, ◌≡◌, ◌≢◌, refl, sym, ap, subst, ◌∙◌, Bool, true, false, not, ◌&&◌, ◌==◌,
  if◌then◌else◌, List, [], ◌∷◌, ◌++◌, append-nil, length, take, drop, replicate, some, arith,
}
use sure.Latency.{http_req, sizeof}
use sure.LatencyProcess.{
  Options, Received, closed, gather, Sent, send_all, Side, request, do_client_rr, client_rrs,
  resized, run_client, write_front, Round, again, broken, stopped, reply, serve_message,
  serve_messages,
}
use sure.LatencyProcess.Stream.{Arrives, Takes, send_all-Takes, gather-Reads}

-- The messages, in front of those that are there, the last one first.
abbrev pub pushed : List (List ℕ) → List (List ℕ) → List (List ℕ)
pushed [] acc = acc
pushed (m ∷ ms) acc = pushed ms (m ∷ acc)

-- Messages of a size arrive, each in its parts.
abbrev pub AllArrive : Bool → ℕ → List (List Received) → List (List ℕ) → Type 0
AllArrive busy size [] [] = Unit
AllArrive busy size [] (m ∷ ms) = ⊥
AllArrive busy size (parts ∷ outs) [] = ⊥
AllArrive busy size (parts ∷ outs) (m ∷ ms) =
    Arrives busy parts m × (length m ≡ size) × AllArrive busy size outs ms

take-front : (xs ys : List ℕ) → take (length xs) (xs ++ ys) ≡ xs
take-front [] ys = refl
take-front (x ∷ xs) ys = ap (λ zs. x ∷ zs) (take-front xs ys)

-- A side that has read all it has received.
abbrev pub idle : List (List ℕ) → List (List ℕ) → List (List Received) → List Sent → Side
idle sent received incoming sends = record {
  sent = sent;
  received = received;
  unread = [];
  incoming = incoming;
  sends = sends;
}

-- The server has left its loop, and has sent these messages and received those.
abbrev pub Broke : List (List ℕ) → List (List ℕ) → Round → Type 0
Broke sent received (again buffer s) = ⊥
Broke sent received (broken buffer s) = (s.sent ≡ sent) × (s.received ≡ received)
Broke sent received stopped = ⊥

module _ (o : Options) (plain : o.http ≡ false) (some_bytes : 1 ≤ o.size) where
  not-nil : (m : List ℕ) → length m ≡ o.size → m ≢ []
  not-nil m e z = let y : length m ≡ 0 = ap length z in absurd (omega (arith, e, y, some_bytes))

  whole : (m : List ℕ) → length m ≡ o.size → (not o.http && not (length m == o.size)) ≡ false
  whole m e = let same : (length m == o.size) ≡ true = ground (arith, e) in rw (plain, same) refl

  reply-idle :
      (buffer m : List ℕ) (parts : List Received) (more : List (List Received))
      (sent received : List (List ℕ)) (sends later : List Sent)
      → length m ≡ o.size
      → send_all o.busy_poll o.size sends ≡ some later
      → reply o buffer (idle sent received (parts ∷ more) sends) m []
        ≡ again (write_front m buffer) (idle (m ∷ sent) (m ∷ received) more later)
  unfolding reply
  reply-idle buffer m parts more sent received sends later e t =
      let size : (if o.http then o.size else length m) ≡ length m =
        ap (λ c. if c then o.size else length m) plain in
      let sends_all : send_all o.busy_poll (if o.http then o.size else length m) sends
          ≡ some later =
        ap (λ n. send_all o.busy_poll n sends) (size ∙ e) ∙ t in
      rw (sends_all, plain, reply)
        (ap (λ x. again (write_front m buffer) (idle (x ∷ sent) (m ∷ received) more later))
          (take-front m (drop (length m) buffer)))

  serve_message-idle :
      (buffer m : List ℕ) (parts : List Received) (more : List (List Received))
      (sent received : List (List ℕ)) (sends later : List Sent)
      → Arrives o.busy_poll parts m
      → length m ≡ o.size
      → send_all o.busy_poll o.size sends ≡ some later
      → serve_message o buffer (idle sent received (parts ∷ more) sends)
        ≡ again (write_front m buffer) (idle (m ∷ sent) (m ∷ received) more later)
  unfolding serve_message
  serve_message-idle buffer m parts more sent received sends later a e t =
      let zero_read : 0 + length m ≡ o.size = omega (arith, e) in
      let (b, bs, r) = gather-Reads o plain parts [] m a (not-nil m e) zero_read in
      rw (r, whole m e) (reply-idle buffer m parts more sent received sends later e t)

  -- Without HTTP, when messages of the size arrive, each in whatever parts, every `send` takes the whole of a
  -- message, and then the client closes the connection: the server leaves its loop, whatever more rounds
  -- there are, and it has sent back just these messages, byte by byte and in their order.
  pub serve_messages-Broke :
      (ms : List (List ℕ)) (outs : List (List Received)) (more : ℕ) (buffer : List ℕ)
      (sent received : List (List ℕ)) (sends : List Sent)
      → AllArrive o.busy_poll o.size outs ms
      → Takes o.busy_poll o.size (length ms) sends
      → Broke (pushed ms sent) (pushed ms received) (
          serve_messages
            (length ms + suc more)
            o
            buffer
            (idle sent received (outs ++ (closed ∷ []) ∷ []) sends))
  unfolding serve_messages serve_message gather
  serve_messages-Broke [] [] more buffer sent received sends a t =
      let rounds : 0 + suc more ≡ suc more = omega arith in rw (rounds, serve_messages) (refl, refl)
  serve_messages-Broke [] (parts ∷ outs) more buffer sent received sends a t = absurd a
  serve_messages-Broke (m ∷ ms) [] more buffer sent received sends a t = absurd a
  serve_messages-Broke (m ∷ ms) (parts ∷ outs) more buffer sent received sends (a, e, rest) t =
      let rounds : suc (length ms) + suc more ≡ suc (length ms + suc more) = omega arith in
      let (later, taken, t') = send_all-Takes o.busy_poll o.size (length ms) sends t in
      rw
        (
          rounds,
          serve_message-idle buffer m parts (outs ++ (closed ∷ []) ∷ []) sent received sends later a
              e taken,
          serve_messages,
        )
        (serve_messages-Broke ms outs more (write_front m buffer) (m ∷ sent) (m ∷ received) later
          rest t')

  do_client_rr-idle :
      (junk m : List ℕ) (parts : List Received) (more : List (List Received))
      (sent received : List (List ℕ)) (sends later : List Sent)
      → Arrives o.busy_poll parts m
      → length m ≡ o.size
      → send_all o.busy_poll o.size sends ≡ some later
      → do_client_rr o junk (idle sent received (parts ∷ more) sends)
        ≡ some (idle (request o junk ∷ sent) (m ∷ received) more later)
  unfolding do_client_rr
  do_client_rr-idle junk m parts more sent received sends later a e t =
      let zero_read : 0 + length m ≡ o.size = omega (arith, e) in
      let (b, bs, r) = gather-Reads o plain parts [] m a (not-nil m e) zero_read in
      rw (t, r, whole m e, do_client_rr) refl

  client_rrs-idle :
      (junk : List ℕ) (ms : List (List ℕ)) (outs more : List (List Received))
      (sent received : List (List ℕ)) (n : ℕ) (sends : List Sent)
      → AllArrive o.busy_poll o.size outs ms
      → Takes o.busy_poll o.size (length ms + n) sends
      → (later : List Sent) × (client_rrs
            (length ms)
            o
            junk
            (idle sent received (outs ++ more) sends)
          ≡ some (
              idle
                (pushed (replicate (length ms) (request o junk)) sent)
                (pushed ms received)
                more
                later))
        × Takes o.busy_poll o.size n later
  unfolding client_rrs
  client_rrs-idle junk [] [] more sent received n sends a t =
      let none_left : 0 + n ≡ n = omega arith in
      (sends, refl, subst (λ k. Takes o.busy_poll o.size k sends) none_left t)
  client_rrs-idle junk [] (parts ∷ outs) more sent received n sends a t = absurd a
  client_rrs-idle junk (m ∷ ms) [] more sent received n sends a t = absurd a
  client_rrs-idle junk (m ∷ ms) (parts ∷ outs) more sent received n sends (a, e, rest) t =
      let count : suc (length ms) + n ≡ suc (length ms + n) = omega arith in
      let (later, taken, t') =
        send_all-Takes o.busy_poll o.size (length ms + n) sends
          (subst (λ k. Takes o.busy_poll o.size k sends) count t) in
      let (last, r, t'') =
        client_rrs-idle junk ms outs more (request o junk ∷ sent) (m ∷ received) n later rest t' in
      (
        last,
        rw
            (
              do_client_rr-idle junk m parts (outs ++ more) sent received sends later a e taken,
              client_rrs,
            )
            r,
        t'',
      )

  -- As `client` calls them.
  client_rrs_lem :
      (junk : List ℕ) (count : ℕ) (ms : List (List ℕ)) (outs more : List (List Received))
      (sent received : List (List ℕ)) (n : ℕ) (sends : List Sent)
      → length ms ≡ count
      → AllArrive o.busy_poll o.size outs ms
      → Takes o.busy_poll o.size (count + n) sends
      → (later : List Sent) × (client_rrs count
            (resized o)
            junk
            (idle sent received (outs ++ more) sends)
          ≡ some (
              idle
                (pushed (replicate count (request o junk)) sent)
                (pushed ms received)
                more
                later))
        × Takes o.busy_poll o.size n later
  client_rrs_lem junk count ms outs more sent received n sends e a t =
      let same : resized o ≡ o =
        ap (λ c. if c then record o { size = sizeof http_req - 1 } else o) plain in
      let (later, r, t') =
        client_rrs-idle junk ms outs more sent received n sends a
          (subst (λ k. Takes o.busy_poll o.size (k + n) sends) (sym e) t) in
      (
        later,
        ap (λ x. client_rrs count x junk (idle sent received (outs ++ more) sends)) same
            ∙ subst
                (λ k.
                  client_rrs k o junk (idle sent received (outs ++ more) sends)
                  ≡ some (
                      idle (pushed (replicate k (request o junk)) sent) (pushed ms received) more
                        later))
                e r,
        t',
      )

  -- Without HTTP, when each message comes back, in whatever parts, and every `send` takes the whole of one:
  -- the client ends, it has sent one message for each warmup round and one for each iteration, and it has
  -- received the bytes that came back, all of them and in their order.
  pub run_client-idle :
      (junk : List ℕ) (warm timed : List (List ℕ)) (outs outs' : List (List Received))
      (sends : List Sent)
      → length warm ≡ o.warmup
      → length timed ≡ o.iterations
      → AllArrive o.busy_poll o.size outs warm
      → AllArrive o.busy_poll o.size outs' timed
      → Takes o.busy_poll o.size (o.warmup + o.iterations) sends
      → (later : List Sent) × (run_client o junk (idle [] [] (outs ++ outs') sends)
          ≡ some (
              idle
                (pushed
                  (replicate o.iterations (request o junk))
                  (pushed (replicate o.warmup (request o junk)) []))
                (pushed timed (pushed warm []))
                []
                later))
  unfolding run_client
  run_client-idle junk warm timed outs outs' sends w i a a' t =
      let (middle, r, t') =
        client_rrs_lem junk o.warmup warm outs outs' [] [] o.iterations sends w a t in
      let all : o.iterations ≡ o.iterations + 0 = omega arith in
      let end : outs' ++ [] ≡ outs' = append-nil outs' in
      let (later, r', _) =
        client_rrs_lem junk o.iterations timed outs' []
          (pushed (replicate o.warmup (request o junk)) []) (pushed warm []) 0 middle i a'
          (subst (λ k. Takes o.busy_poll o.size k middle) all t') in
      (
        later,
        rw
            (
              r,
              ap
                    (λ x. client_rrs o.iterations (resized o) junk (
                      idle (pushed (replicate o.warmup (request o junk)) []) (pushed warm []) x
                        middle))
                    (sym end)
                  ∙ r',
              run_client,
            )
            refl,
      )
