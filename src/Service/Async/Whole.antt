-- ===== src/Service/Async/Whole.antt =====
-- What holds of a whole run of a service of apps/boutique/sure/common/service/service_async.h, and of a
-- response on its way to its coroutine.
use sure.Prelude.{
  Bool, true, ◌==◌, ltb, Bool-cases, inl, inr, get_or, refl, ℕ, zero, suc, ◌<◌, ◌≡◌, ap, ◌∙◌, false,
  leb, if◌then◌else◌, List, true-ne-false, sym, arith,
}
use sure.Service.Unimsg.{Rc, Desc, Unimsg}
use sure.Service.Loop.{Reaction, proceeds, closes, aborts}
use sure.Service.Sync.{is_ok, Server}
use sure.Service.Async.{
  Coroutines, calls, set_waiting, run_step, Handler, State, max_coroutines, id_of, with_id,
  resume_co, on_response, handle_upstream_http, handle_upstream_grpc,
}
use sure.Service.Async.Run.{countdown, start_coroutines, async_rounds}
use sure.Service.Async.Pool.{one, times, IsPool}
use sure.Service.Async.Requests.{handle_upstream_http-UpKeeps, handle_upstream_grpc-UpKeeps}
use sure.Service.Async.Rounds.{RoundKeeps, async_rounds-RoundKeeps}

times-countdown : (n co : ℕ) → times co (countdown n) ≡ one (ltb co n)
times-countdown zero co = let none_below : ltb co 0 ≡ false = ground arith in rw (none_below) refl
times-countdown (suc n) co = elim (Bool-cases (co == n)) [
  | inl e ↦
      let low : ltb co (suc n) ≡ true = ground (arith, e) in
      let high : ltb co n ≡ false = ground (arith, e) in
      rw (e, low, times-countdown n co, high) refl
  | inr e ↦
      let same : ltb co (suc n) ≡ ltb co n = ground (arith, e) in
      rw (e, same) (omega (arith, times-countdown n co))
]

start_coroutines-IsPool : IsPool start_coroutines
start_coroutines-IsPool =
    (λ co. omega (arith, times-countdown 32 co), λ e. absurd (true-ne-false (sym e)))

module _ (u : Unimsg) {T : Type 0} (h : Handler T) (downstream_socks : List ℕ) where
  -- A service with gRPC clients.
  pub run_service-grpc :
      (fuel ndependencies n : ℕ) (srv : Server) (w : u.World) (t : T)
      → RoundKeeps u h downstream_socks (handle_upstream_grpc u h downstream_socks fuel) (
          async_rounds u h downstream_socks
            (handle_upstream_grpc u h downstream_socks fuel)
            fuel
            ndependencies
            n
            srv
            (w, (start_coroutines, t)))
  run_service-grpc fuel ndependencies n srv w t =
      async_rounds-RoundKeeps u h downstream_socks (handle_upstream_grpc u h downstream_socks fuel)
        (handle_upstream_grpc-UpKeeps u h downstream_socks fuel) fuel ndependencies n srv w
        start_coroutines t start_coroutines-IsPool

  -- A service with HTTP clients.
  pub run_service-http :
      (fuel ndependencies n : ℕ) (srv : Server) (w : u.World) (t : T)
      → RoundKeeps u h downstream_socks (handle_upstream_http u h downstream_socks) (
          async_rounds u h downstream_socks
            (handle_upstream_http u h downstream_socks)
            fuel
            ndependencies
            n
            srv
            (w, (start_coroutines, t)))
  run_service-http fuel ndependencies n srv w t =
      async_rounds-RoundKeeps u h downstream_socks (handle_upstream_http u h downstream_socks)
        (handle_upstream_http-UpKeeps u h downstream_socks) fuel ndependencies n srv w
        start_coroutines t start_coroutines-IsPool

  id_of-with_id : (co : ℕ) (d : Desc) → id_of (with_id co d).bytes ≡ co
  unfolding id_of with_id
  id_of-with_id co d = omega arith

  -- The state that is gone on with, if it is.
  abbrev state_of :
      State u h downstream_socks
      → Reaction (State u h downstream_socks)
      → State u h downstream_socks
  state_of st (proceeds st') = st'
  state_of st (closes left st') = st
  state_of st aborts = st

  abbrev runs_on : Reaction (State u h downstream_socks) → Bool
  runs_on (proceeds st) = true
  runs_on (closes left st) = false
  runs_on aborts = false

  -- What `do_rpc` sends is what the library was given last; the coroutine then waits.
  do_rpc-sent :
      (sent : u.World → Desc) (co service : ℕ) (d : Desc) (t t' : T) (w w' : u.World)
      (c c' : Coroutines)
      → ((s : ℕ) (m : Desc) (w : u.World) → sent (u.send s m w).1 ≡ m)
      → run_step u h downstream_socks co (calls d service t) w c ≡ proceeds (w', (c', t'))
      → (sent w' ≡ with_id co d) × (c'.waiting co ≡ true)
  unfolding run_step
  do_rpc-sent sent co service d t t' w w' c c' last e =
      let itself : (co == co) ≡ true = ground arith in
      let s : ℕ = get_or downstream_socks service 0 in
      let r : Rc × u.World = u.send s (with_id co d) w in
      let went : Reaction (State u h downstream_socks) =
        proceeds (r.1, (set_waiting co true c, t)) in
      elim (Bool-cases (is_ok r.0)) [
        | inl f ↦
            let same : went ≡ proceeds (w', (c', t')) =
              ap (λ b. if b then went else Reaction.aborts) (sym f) ∙ e in
            let state : (r.1, (set_waiting co true c, t)) ≡ (w', (c', t')) =
              ap (state_of (w, (c, t))) same in
            (
              ap (λ (v, (k, a)). sent v) (sym state) ∙ last s (with_id co d) w,
              ap (λ (v, (k, a)). k.waiting co) (sym state) ∙ (rw (itself) refl),
            )
        | inr f ↦
            let gone : Reaction.aborts ≡ proceeds (w', (c', t')) =
              ap (λ b. if b then went else Reaction.aborts) (sym f) ∙ e in
            absurd (true-ne-false (sym (ap runs_on gone)))
      ]

  -- When `do_rpc` has sent a request for a coroutine, that coroutine waits. A response with the id that stands
  -- in the message which was sent, in whatever state it comes in while the coroutine waits, goes on with
  -- that coroutine, which then no longer waits. Of the library it is asked that one can tell what was sent
  -- last.
  pub do_rpc-on_response :
      (sent : u.World → Desc) (co service : ℕ) (d : Desc) (t t' : T) (w w' : u.World)
      (c c' : Coroutines) (r : Desc) (later_w : u.World) (later_c : Coroutines) (later_t : T)
      → co < max_coroutines
      → ((s : ℕ) (m : Desc) (w : u.World) → sent (u.send s m w).1 ≡ m)
      → run_step u h downstream_socks co (calls d service t) w c ≡ proceeds (w', (c', t'))
      → id_of r.bytes ≡ id_of (sent w').bytes
      → later_c.waiting co ≡ true
      → (c'.waiting co ≡ true)
        × (on_response u h downstream_socks r (later_w, (later_c, later_t))
            ≡ resume_co u h downstream_socks co r
                (later_w, (set_waiting co false later_c, later_t)))
  unfolding on_response
  do_rpc-on_response sent co service d t t' w w' c c' r later_w later_c later_t k last e answers
        waits =
      let (same, waited) = do_rpc-sent sent co service d t t' w w' c c' last e in
      let id : id_of r.bytes ≡ co = answers ∙ ap (λ m. id_of m.bytes) same ∙ id_of-with_id co d in
      let within : leb max_coroutines co ≡ false = ground (arith, k) in
      (waited, rw (id, within, waits, on_response) refl)
