-- ===== src/LatencyProcess/Stream.antt =====
-- apps/rr-latency/process/main.c: a message that arrives in parts, and one that is sent.
use sure.Prelude.{
  ℕ, zero, suc, ◌+◌, ◌≤◌, ◌<◌, ◌≡◌, ◌≢◌, refl, sym, ap, ◌∙◌, Bool, true, false, not, ◌&&◌, ltb,
  ◌==◌, List, [], ◌∷◌, ◌++◌, append_assoc, append-nil, length, length-append, some, arith,
}
use sure.LatencyProcess.{
  Options, Received, got, closed, eagain, failed, gathered, gather, Sent, took, send_eagain,
  send_failed, send_all,
}

-- The bytes arrive in parts; while polling, a call may also find nothing, but only before the last part.
abbrev pub Arrives : Bool → List Received → List ℕ → Type 0
Arrives busy [] bytes = bytes ≡ []
Arrives busy (got b bs ∷ more) bytes =
    (rest : List ℕ) × (bytes ≡ (b ∷ bs) ++ rest) × Arrives busy more rest
Arrives busy (closed ∷ more) bytes = ⊥
Arrives busy (eagain ∷ more) bytes = (busy ≡ true) × (bytes ≢ []) × Arrives busy more bytes
Arrives busy (failed ∷ more) bytes = ⊥

-- So many messages of a size are sent: each `send` takes all of one, or while polling may find no room.
abbrev pub Takes : Bool → ℕ → ℕ → List Sent → Type 0
Takes busy size zero sends = Unit
Takes busy size (suc n) [] = ⊥
Takes busy size (suc n) (took k ∷ more) = (k ≡ size) × Takes busy size n more
Takes busy size (suc n) (send_eagain ∷ more) = (busy ≡ true) × Takes busy size (suc n) more
Takes busy size (suc n) (send_failed ∷ more) = ⊥

pub send_all-Takes :
    (busy : Bool) (size n : ℕ) (sends : List Sent)
    → Takes busy size (suc n) sends
    → (more : List Sent) × (send_all busy size sends ≡ some more) × Takes busy size n more
unfolding send_all
send_all-Takes busy size n [] t = absurd t
send_all-Takes busy size n (took k ∷ more) (e, t) =
    let same : (k == size) ≡ true = ground (arith, e) in (more, rw (same) refl, t)
send_all-Takes busy size n (send_eagain ∷ more) (polling, t) =
    let (later, e, t') = send_all-Takes busy size n more t in (later, rw (polling) e, t')
send_all-Takes busy size n (send_failed ∷ more) t = absurd t

nothing_more : (busy : Bool) (more : List Received) → Arrives busy more [] → more ≡ []
nothing_more busy [] a = refl
nothing_more busy (got b bs ∷ more) (rest, e, _) =
    let z : 0 ≡ suc (length (bs ++ rest)) = ap length e in absurd (omega (arith, z))
nothing_more busy (closed ∷ more) a = absurd a
nothing_more busy (eagain ∷ more) (_, some_left, _) = absurd (some_left refl)
nothing_more busy (failed ∷ more) a = absurd a

-- A message is there, and the last call of `recv` gave some of it.
abbrev pub Reads : Options → List ℕ → List Received → List ℕ → Type 0
Reads o msg outs bytes =
    (b : ℕ) × (bs : List ℕ) × (gather o msg outs ≡ gathered (msg ++ bytes) (got b bs) [])

module _ (o : Options) (plain : o.http ≡ false) where
  last_part :
      (msg : List ℕ) (b : ℕ) (bs : List ℕ)
      → o.size ≤ length (msg ++ b ∷ bs)
      → gather o msg (got b bs ∷ []) ≡ gathered (msg ++ b ∷ bs) (got b bs) []
  unfolding gather
  last_part msg b bs h =
      let enough : ltb (length (msg ++ b ∷ bs)) o.size ≡ false = ground (arith, h) in
      rw (plain, enough) refl

  next_part :
      (msg : List ℕ) (b : ℕ) (bs : List ℕ) (more : List Received)
      → length (msg ++ b ∷ bs) < o.size
      → gather o msg (got b bs ∷ more) ≡ gather o (msg ++ b ∷ bs) more
  unfolding gather
  next_part msg b bs more h =
      let short : ltb (length (msg ++ b ∷ bs)) o.size ≡ true = ground (arith, h) in
      let again : (not o.http && ltb (length (msg ++ b ∷ bs)) o.size) ≡ true =
        ap (λ c. not c && ltb (length (msg ++ b ∷ bs)) o.size) plain ∙ short in
      rw (again) refl

  -- Whatever the parts are in which the bytes of a message arrive, and however often a polling side finds
  -- nothing in between: the loops end behind the last part, with all bytes in their order.
  pub gather-Reads :
      (outs : List Received) (msg bytes : List ℕ)
      → Arrives o.busy_poll outs bytes
      → bytes ≢ []
      → length msg + length bytes ≡ o.size
      → Reads o msg outs bytes
  unfolding gather
  gather-Reads [] msg bytes a some_left h = absurd (some_left a)
  gather-Reads (got b bs ∷ more) msg bytes ([], e, a) some_left h =
      let all : bytes ≡ b ∷ bs = e ∙ append-nil (b ∷ bs) in
      let none_left : more ≡ [] = nothing_more o.busy_poll more a in
      let long : length (msg ++ b ∷ bs) ≡ o.size =
        length-append msg (b ∷ bs) ∙ ap (λ x. length msg + length x) (sym all) ∙ h in
      (
        b,
        bs,
        ap (λ x. gather o msg (got b bs ∷ x)) none_left
            ∙ last_part msg b bs (omega (arith, long))
            ∙ ap (λ x. gathered (msg ++ x) (got b bs) []) (sym all),
      )
  gather-Reads (got b bs ∷ more) msg bytes (c ∷ cs, e, a) some_left h =
      let sum : length bytes ≡ length (b ∷ bs) + length (c ∷ cs) =
        ap length e ∙ length-append (b ∷ bs) (c ∷ cs) in
      let so_far : length (msg ++ b ∷ bs) ≡ length msg + length (b ∷ bs) =
        length-append msg (b ∷ bs) in
      let (b', bs', r) =
        gather-Reads more (msg ++ b ∷ bs) (c ∷ cs) a
          (λ z. let y : suc (length cs) ≡ 0 = ap length z in absurd (omega (arith, y)))
          (omega (arith, h, sum, so_far)) in
      (
        b',
        bs',
        next_part msg b bs more (omega (arith, h, sum, so_far))
            ∙ r
            ∙ ap (λ x. gathered x (got b' bs') [])
                (append_assoc msg (b ∷ bs) (c ∷ cs) ∙ ap (λ x. msg ++ x) (sym e)),
      )
  gather-Reads (closed ∷ more) msg bytes a some_left h = absurd a
  gather-Reads (eagain ∷ more) msg bytes (busy, _, a) some_left h =
      let (b, bs, r) = gather-Reads more msg bytes a some_left h in (b, bs, rw (busy) r)
  gather-Reads (failed ∷ more) msg bytes a some_left h = absurd a
