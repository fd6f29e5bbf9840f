-- ===== src/Latency/Gather.antt =====
-- apps/rr-latency/sure/main.c: how a side receives a message.
use sure.Prelude.{
  ℕ, suc, ◌+◌, ◌^◌, ◌≤◌, ◌<◌, ◌≡◌, ◌≢◌, refl, sym, ap, subst, ◌∙◌, Bool, true, false, not, ◌&&◌,
  ltb, List, [], ◌∷◌, ◌++◌, append_assoc, append-nil, length, All, arith,
}
use sure.Service.Process.{add_u32}
use sure.Latency.{Options, Received, got, eagain, econnreset, failed, message, add_sizes, gather}
use sure.Latency.Sizes.{total}

-- The descriptors arrive in parts that are not empty; while polling, a call may also find nothing, but
-- only before the last of them.
abbrev pub Arrives : Bool → List Received → List ℕ → Type 0
Arrives busy [] ds = ds ≡ []
Arrives busy (got [] ∷ more) ds = ⊥
Arrives busy (got (n ∷ ns) ∷ more) ds =
    (rest : List ℕ) × (ds ≡ (n ∷ ns) ++ rest) × Arrives busy more rest
Arrives busy (eagain ∷ more) ds = (busy ≡ true) × (ds ≢ []) × Arrives busy more ds
Arrives busy (econnreset ∷ more) ds = ⊥
Arrives busy (failed ∷ more) ds = ⊥

total-append : (a b : List ℕ) → total (a ++ b) ≡ total a + total b
total-append [] b = omega arith
total-append (x ∷ a) b = omega (arith, total-append a b)

add_sizes_lem :
    (rsize : ℕ) (ds : List ℕ) → rsize + total ds < 2 ^ 32 → add_sizes rsize ds ≡ rsize + total ds
add_sizes_lem rsize [] h = omega arith
add_sizes_lem rsize (n ∷ ns) h =
    let e : add_u32 rsize n ≡ rsize + n = omega (arith, h) in
    ap (λ k. add_sizes k ns) e ∙ add_sizes_lem (rsize + n) ns (omega (arith, h)) ∙ (omega arith)

nothing_more : (busy : Bool) (more : List Received) → Arrives busy more [] → more ≡ []
nothing_more busy [] a = refl
nothing_more busy (got [] ∷ more) a = absurd a
nothing_more busy (got (n ∷ ns) ∷ more) (rest, e, _) =
    let z : 0 ≡ suc (length (ns ++ rest)) = ap length e in absurd (omega (arith, z))
nothing_more busy (eagain ∷ more) (_, some_left, _) = absurd (some_left refl)
nothing_more busy (econnreset ∷ more) a = absurd a
nothing_more busy (failed ∷ more) a = absurd a

cons-ne-nil : (n : ℕ) (ns : List ℕ) → n ∷ ns ≢ []
cons-ne-nil n ns e = let z : suc (length ns) ≡ 0 = ap length e in absurd (omega (arith, z))

All-suffix : (a b : List ℕ) → All (λ n. 1 ≤ n) (a ++ b) → All (λ n. 1 ≤ n) b
All-suffix [] b all = all
All-suffix (x ∷ a) b (_, all) = All-suffix a b all

module _ (o : Options) (plain : o.http ≡ false) (small : o.size < 2 ^ 32) where
  -- The last part of a message, and one that is not the last.
  last_part :
      (descs part : List ℕ) (rsize : ℕ) (more : List Received)
      → rsize + total part ≡ o.size
      → more ≡ []
      → gather o descs rsize (got part ∷ more) ≡ message (descs ++ part) []
  unfolding gather
  last_part descs part rsize more h e =
      let sum : add_sizes rsize part ≡ rsize + total part =
        add_sizes_lem rsize part (omega (arith, h, small)) in
      let enough : ltb (add_sizes rsize part) o.size ≡ false = ground (arith, sum, h) in
      rw (plain, enough) (ap (message (descs ++ part)) e)

  next_part :
      (descs part : List ℕ) (rsize : ℕ) (more : List Received)
      → rsize + total part < o.size
      → gather o descs rsize (got part ∷ more) ≡ gather o (descs ++ part) (rsize + total part) more
  unfolding gather
  next_part descs part rsize more h =
      let sum : add_sizes rsize part ≡ rsize + total part =
        add_sizes_lem rsize part (omega (arith, h, small)) in
      let short : ltb (add_sizes rsize part) o.size ≡ true = ground (arith, sum, h) in
      let again : (not o.http && ltb (add_sizes rsize part) o.size) ≡ true =
        ap (λ b. not b && ltb (add_sizes rsize part) o.size) plain ∙ short in
      rw (again) (ap (λ k. gather o (descs ++ part) k more) sum)

  -- Without HTTP, whatever the parts are in which descriptors of a message arrive, and however often a polling
  -- side finds nothing in between: the loops end behind the last of them, with all of them in their order,
  -- if each holds a byte at least and together they hold as many as the message has.
  pub gather_lem :
      (outs : List Received) (descs ds : List ℕ) (rsize : ℕ)
      → Arrives o.busy_poll outs ds
      → All (λ n. 1 ≤ n) ds
      → ds ≢ []
      → rsize + total ds ≡ o.size
      → gather o descs rsize outs ≡ message (descs ++ ds) []
  unfolding gather
  gather_lem [] descs ds rsize a left some_left h = absurd (some_left a)
  gather_lem (got [] ∷ more) descs ds rsize a left some_left h = absurd a
  gather_lem (got (n ∷ ns) ∷ more) descs ds rsize ([], e, a) left some_left h =
      let whole : ds ≡ n ∷ ns = e ∙ append-nil (n ∷ ns) in
      last_part descs (n ∷ ns) rsize more (ap (λ x. rsize + total x) (sym whole) ∙ h)
        (nothing_more o.busy_poll more a)
      ∙ ap (λ x. message (descs ++ x) []) (sym whole)
  gather_lem (got (n ∷ ns) ∷ more) descs ds rsize (c ∷ cs, e, a) left some_left h =
      let part : List ℕ = n ∷ ns in
      let all : All (λ k. 1 ≤ k) (c ∷ cs) =
        All-suffix part (c ∷ cs) (subst (All (λ k. 1 ≤ k)) e left) in
      let sum : total ds ≡ total part + total (c ∷ cs) = ap total e ∙ total-append part (c ∷ cs) in
      next_part descs part rsize more (omega (arith, h, sum, all.0))
      ∙ gather_lem more (descs ++ part) (c ∷ cs) (rsize + total part) a all (cons-ne-nil c cs)
          (omega (arith, h, sum))
      ∙ ap (λ x. message x []) (append_assoc descs part (c ∷ cs) ∙ ap (λ x. descs ++ x) (sym e))
  gather_lem (eagain ∷ more) descs ds rsize (busy, _, a) left some_left h =
      rw (busy) (gather_lem more descs ds rsize a left some_left h)
  gather_lem (econnreset ∷ more) descs ds rsize a left some_left h = absurd a
  gather_lem (failed ∷ more) descs ds rsize a left some_left h = absurd a
