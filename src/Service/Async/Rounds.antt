-- ===== src/Service/Async/Rounds.antt =====
-- The rounds of `run_service` in apps/boutique/sure/common/service/service_async.h keep the coroutines in order.
use sure.Prelude.{
  ℕ, zero, suc, ◌+◌, ◌-◌, ◌≡◌, ◌⊎◌, inl, inr, refl, subst, false, Bool-cases, ltb, ◌==◌, List,
  length, get_or, take,
}
use sure.Service.Unimsg.{Unimsg}
use sure.Service.Process.{PendingBuffer}
use sure.Service.Sync.{Server, is_ok, no_pending}
use sure.Service.Async.{
  Coroutines, Handler, State, Upstream, served, disconnected, no_coroutine, fails,
  handle_downstream,
}
use sure.Service.Async.Run.{
  Round, continues, stops, then_round, keep_pending, serve_downstream, serve_upstream,
  accept_upstream, npoll, async_round, async_rounds,
}
use sure.Service.Async.Pool.{IsPool, UpKeeps, handle_downstream-UpKeeps}

Upstream-cases :
    {u : Unimsg} {T : Type 0} {h : Handler T} {d : List ℕ} (r : Upstream u h d)
    → ((p : PendingBuffer) × (st : State u h d) × (r ≡ served p st))
      ⊎ (((p : PendingBuffer) × (st : State u h d) × (r ≡ disconnected p st))
          ⊎ (((st : State u h d) × (r ≡ no_coroutine st)) ⊎ (r ≡ fails)))
Upstream-cases (served p st) = inl (p, st, refl)
Upstream-cases (disconnected p st) = inr (inl (p, st, refl))
Upstream-cases (no_coroutine st) = inr (inr (inl (st, refl)))
Upstream-cases fails = inr (inr (inr refl))

module _ (u : Unimsg) {T : Type 0} (h : Handler T) (downstream_socks : List ℕ)
    (up : ℕ → PendingBuffer → State u h downstream_socks → Upstream u h downstream_socks) where
  abbrev pub RoundKeeps : Round u h downstream_socks up → Type 0
  RoundKeeps (continues _ (_, (c, _))) = IsPool c
  RoundKeeps stops = Unit {0}

module _ (u : Unimsg) {T : Type 0} (h : Handler T) (downstream_socks : List ℕ)
    (up : ℕ → PendingBuffer → State u h downstream_socks → Upstream u h downstream_socks)
    (up_keeps : (s : ℕ) (p : PendingBuffer) (w : u.World) (c : Coroutines) (t : T)
      → IsPool c
      → UpKeeps u h downstream_socks (up s p (w, (c, t)))) where
  serve_downstream-RoundKeeps :
      (fuel left i : ℕ) (srv : Server) (w : u.World) (c : Coroutines) (t : T)
      → IsPool c
      → RoundKeeps u h downstream_socks up
          (serve_downstream u h downstream_socks up fuel left i srv (w, (c, t)))
  unfolding serve_downstream
  serve_downstream-RoundKeeps fuel zero i srv w c t k = k
  serve_downstream-RoundKeeps fuel (suc left) i srv w c t k =
      elim (Bool-cases (get_or srv.ready i false)) [
        | inr e ↦
            rw (e, serve_downstream) (serve_downstream-RoundKeeps fuel left (i + 1) srv w c t k)
        | inl e ↦
            let s = get_or srv.socks i 0 in
            let p = get_or srv.pending_buffers i no_pending in
            let kept : _ = handle_downstream-UpKeeps u h downstream_socks fuel s p w c t k in
            elim (Upstream-cases (handle_downstream u h downstream_socks fuel s p (w, (c, t)))) [
              | inl (p', (w', (c', t')), r) ↦
                  rw (e, r, serve_downstream)
                    (serve_downstream-RoundKeeps fuel left (i + 1)
                      (keep_pending u h downstream_socks up i p' srv) w' c' t'
                      (subst (UpKeeps u h downstream_socks) r kept))
              | inr (inl (p', st', r)) ↦ rw (e, r, serve_downstream) tt
              | inr (inr (inl (st', r))) ↦ rw (e, r, serve_downstream) tt
              | inr (inr (inr r)) ↦ rw (e, r, serve_downstream) tt
            ]
      ]

  serve_upstream-RoundKeeps :
      (left n i : ℕ) (srv : Server) (w : u.World) (c : Coroutines) (t : T)
      → IsPool c
      → RoundKeeps u h downstream_socks up
          (serve_upstream u h downstream_socks up left n i srv (w, (c, t)))
  unfolding serve_upstream
  serve_upstream-RoundKeeps zero n i srv w c t k = k
  serve_upstream-RoundKeeps (suc left) n i srv w c t k = elim (Bool-cases (ltb i n)) [
    | inr f ↦ rw (f, serve_upstream) k
    | inl f ↦ elim (Bool-cases (get_or srv.ready i false)) [
      | inr e ↦ rw (f, e, serve_upstream) (serve_upstream-RoundKeeps left n (i + 1) srv w c t k)
      | inl e ↦
          let s = get_or srv.socks i 0 in
          let p = get_or srv.pending_buffers i no_pending in
          let kept : _ = up_keeps s p w c t k in
          elim (Upstream-cases (up s p (w, (c, t)))) [
            | inl (p', (w', (c', t')), r) ↦
                rw (f, e, r, serve_upstream)
                  (serve_upstream-RoundKeeps left n (i + 1) _ w' c' t'
                    (subst (UpKeeps u h downstream_socks) r kept))
            | inr (inl (p', (w', (c', t')), r)) ↦
                rw (f, e, r, serve_upstream)
                  (serve_upstream-RoundKeeps left (n - 1) (i + 1) _ w' c' t'
                    (subst (UpKeeps u h downstream_socks) r kept))
            | inr (inr (inl ((w', (c', t')), r))) ↦
                rw (f, e, r, serve_upstream) (subst (UpKeeps u h downstream_socks) r kept)
            | inr (inr (inr r)) ↦ rw (f, e, r, serve_upstream) tt
          ]
    ]
  ]

  accept_upstream-RoundKeeps :
      (srv : Server) (w : u.World) (c : Coroutines) (t : T)
      → IsPool c
      → RoundKeeps u h downstream_socks up (accept_upstream u h downstream_socks up srv (w, (c, t)))
  unfolding accept_upstream
  accept_upstream-RoundKeeps srv w c t k = elim (Bool-cases (get_or srv.ready 0 false)) [
    | inr e ↦ rw (e, accept_upstream) k
    | inl e ↦ elim (Bool-cases (length srv.socks == u.max_nsocks)) [
      | inl f ↦ rw (e, f, accept_upstream) tt
      | inr f ↦ elim (Bool-cases (is_ok (u.accept (get_or srv.socks 0 0) w).0)) [
        | inl r ↦ rw (e, f, r, accept_upstream) k
        | inr r ↦ rw (e, f, r, accept_upstream) tt
      ]
    ]
  ]

  then_round-RoundKeeps :
      (r : Round u h downstream_socks up)
      (k : Server → State u h downstream_socks → Round u h downstream_socks up)
      → RoundKeeps u h downstream_socks up r
      → ((srv : Server) (w : u.World) (c : Coroutines) (t : T)
          → IsPool c
          → RoundKeeps u h downstream_socks up (k srv (w, (c, t))))
      → RoundKeeps u h downstream_socks up (then_round u h downstream_socks up r k)
  then_round-RoundKeeps (continues srv (w, (c, t))) k i next = next srv w c t i
  then_round-RoundKeeps stops k i next = tt

  async_round-RoundKeeps :
      (fuel ndependencies : ℕ) (srv : Server) (w : u.World) (c : Coroutines) (t : T)
      → IsPool c
      → RoundKeeps u h downstream_socks up
          (async_round u h downstream_socks up fuel ndependencies srv (w, (c, t)))
  unfolding async_round
  async_round-RoundKeeps fuel ndependencies srv w c t k =
      let n = npoll u h downstream_socks up ndependencies srv (w, (c, t)) in
      elim (Bool-cases (is_ok (u.poll (take n srv.socks) w).0)) [
        | inr e ↦ rw (e, async_round) tt
        | inl e ↦
            rw (e, async_round)
              (then_round-RoundKeeps _ _
                (then_round-RoundKeeps _ _
                  (serve_downstream-RoundKeeps fuel ndependencies 1 _ _ c t k)
                  (serve_upstream-RoundKeeps (length srv.socks) n (ndependencies + 1)))
                accept_upstream-RoundKeeps)
      ]

  -- However long the service runs, whatever its clients and the services it depends on do: each available
  -- coroutine is one of the 32, and reception from upstream is disabled only while no coroutine is
  -- available.
  pub async_rounds-RoundKeeps :
      (fuel ndependencies n : ℕ) (srv : Server) (w : u.World) (c : Coroutines) (t : T)
      → IsPool c
      → RoundKeeps u h downstream_socks up
          (async_rounds u h downstream_socks up fuel ndependencies n srv (w, (c, t)))
  unfolding async_rounds
  async_rounds-RoundKeeps fuel ndependencies zero srv w c t k = k
  async_rounds-RoundKeeps fuel ndependencies (suc n) srv w c t k =
      then_round-RoundKeeps _ _ (async_round-RoundKeeps fuel ndependencies srv w c t k)
        (async_rounds-RoundKeeps fuel ndependencies n)
