-- ===== src/Service/Async/Start.antt =====
-- What `run_service` of apps/boutique/sure/common/service/service_async.h does before its first round: the
-- connections to the services it depends on, and the socket that it listens on.
use sure.Prelude.{
  ℕ, ◌+◌, ◌*◌, ◌^◌, ◌<◌, ◌≡◌, ◌≢◌, refl, sym, subst, ◌∙◌, inl, inr, ◌&&◌, Bool-cases, if◌then◌else◌,
  List, [], ◌∷◌, ◌++◌, append_assoc, append-nil, length, get_or, set, replicate, All, get_or-set,
  get_or-set_other, length-set,
}
use sure.Service.Unimsg.{Unimsg}
use sure.Service.Process.{Exec, returns, exits}
use sure.Service.Sync.{Server, is_ok, no_pending}

-- DEFAULT_SERVICE of apps/boutique/sure/common/service/service.h: the address and the port of a service.
abbrev pub service_addr : ℕ → ℕ
service_addr id = 10 + (id + 1) * 2 ^ 24

abbrev pub service_port : ℕ → ℕ
service_port id = 5000 + (id + 1)

module _ (u : Unimsg) where
  open u use {World, max_nsocks, socket, connect, bind, listen}

  -- The loop over the dependencies: the sockets behind the first, and `downstream_socks`.
  unfoldable pub connect_dependencies :
      List ℕ → List ℕ → List ℕ → World → Exec (List ℕ × List ℕ × World)
  connect_dependencies [] socks downstream w = returns (socks, downstream, w)
  connect_dependencies (id ∷ ids) socks downstream w =
      let (rc1, s, w1) = socket w in
      let (rc2, w2) = connect s (service_addr id) (service_port id) w1 in
      let rest = connect_dependencies ids (socks ++ s ∷ []) (set downstream id s) w2 in
      if is_ok rc1 && is_ok rc2 then rest else exits

  -- The socket for new connections, in front of the others.
  abbrev pub listen_first : ℕ → List ℕ → World → Exec (Server × World)
  listen_first id socks w =
      let (rc1, s, w1) = socket w in
      let (rc2, w2) = bind s (service_port id) w1 in
      let (rc3, w3) = listen s w2 in
      if is_ok rc1 && (is_ok rc2 && is_ok rc3)
      then returns (
        record { socks = s ∷ socks; ready = []; pending_buffers = replicate max_nsocks no_pending },
        w3,
      )
      else exits

  -- The service with this number, with its dependencies and the static array `downstream_socks`.
  unfoldable pub start_async : ℕ → List ℕ → List ℕ → World → Exec (Server × List ℕ × World)
  unfolding connect_dependencies
  start_async id dependencies downstream w =
      elim (connect_dependencies dependencies [] downstream w) [
        | exits ↦ exits
        | returns (socks, downstream', w') ↦ elim (listen_first id socks w') [
          | exits ↦ exits
          | returns (srv, w'') ↦ returns (srv, downstream', w'')
        ]
      ]

  -- No dependency is listed twice.
  abbrev pub IsDistinct : List ℕ → Type 0
  IsDistinct [] = Unit {0}
  IsDistinct (id ∷ ids) = All (λ other. other ≢ id) ids × IsDistinct ids

  -- The sockets for the dependencies, in their order.
  abbrev pub Reaches : List ℕ → List ℕ → List ℕ → Type 0
  Reaches [] [] downstream = Unit {0}
  Reaches [] (s ∷ socks) downstream = ⊥
  Reaches (id ∷ ids) [] downstream = ⊥
  Reaches (id ∷ ids) (s ∷ socks) downstream =
      (get_or downstream id 0 ≡ s) × Reaches ids socks downstream

  -- The sockets that are new, and the entries that stay.
  abbrev Connected : List ℕ → List ℕ → List ℕ → Exec (List ℕ × List ℕ × World) → Type 0
  Connected ids socks downstream exits = Unit {0}
  Connected ids socks downstream (returns (socks', downstream', w)) =
      (new : List ℕ) × (socks' ≡ socks ++ new)
      × Reaches ids new downstream'
      × ((k : ℕ) → All (λ id. id ≢ k) ids → get_or downstream' k 0 ≡ get_or downstream k 0)

  Connected-step :
      (id s : ℕ) (ids socks downstream : List ℕ) (r : Exec (List ℕ × List ℕ × World))
      → id < length downstream
      → All (λ other. other ≢ id) ids
      → Connected ids (socks ++ s ∷ []) (set downstream id s) r
      → Connected (id ∷ ids) socks downstream r
  Connected-step id s ids socks downstream exits h d c = tt
  Connected-step id s ids socks downstream (returns (socks', downstream', w)) h d
        (new, e, reaches, same) =
      (
        s ∷ new,
        e ∙ append_assoc socks (s ∷ []) new,
        (same id d ∙ get_or-set downstream id s 0 h, reaches),
        λ k (other, others). same k others ∙ get_or-set_other downstream id k s 0 other,
      )

  all_below :
      (id s : ℕ) (downstream ids : List ℕ)
      → All (λ k. k < length downstream) ids
      → All (λ k. k < length (set downstream id s)) ids
  all_below id s downstream ids h =
      subst (λ n. All (λ k. k < n) ids) (sym (length-set downstream id s)) h

  connect_dependencies-Connected :
      (ids socks downstream : List ℕ) (w : World)
      → IsDistinct ids
      → All (λ k. k < length downstream) ids
      → Connected ids socks downstream (connect_dependencies ids socks downstream w)
  unfolding connect_dependencies
  connect_dependencies-Connected [] socks downstream w d h =
      ([], sym (append-nil socks), tt, λ k _. refl)
  connect_dependencies-Connected (id ∷ ids) socks downstream w (other, d) (below, h) =
      let (rc1, s, w1) = socket w in
      let (rc2, w2) = connect s (service_addr id) (service_port id) w1 in
      elim (Bool-cases (is_ok rc1 && is_ok rc2)) [
        | inl e ↦ rw (e) (
            Connected-step id s ids socks downstream _ below other (
              connect_dependencies-Connected ids (socks ++ s ∷ []) (set downstream id s) w2 d
                (all_below id s downstream ids h)))
        | inr e ↦ rw (e) tt
      ]

  -- What holds when the rounds begin.
  abbrev pub Started : List ℕ → Exec (Server × List ℕ × World) → Type 0
  Started dependencies exits = Unit {0}
  Started dependencies (returns (srv, downstream, w)) =
      (s : ℕ) × (socks : List ℕ) × (srv.socks ≡ s ∷ socks) × Reaches dependencies socks downstream

  started :
      (dependencies : List ℕ) (id : ℕ) (r : Exec (List ℕ × List ℕ × World)) (downstream : List ℕ)
      → Connected dependencies [] downstream r
      → Started dependencies (elim r [
        | exits ↦ exits
        | returns (socks, downstream', w') ↦ elim (listen_first id socks w') [
          | exits ↦ exits
          | returns (srv, w'') ↦ returns (srv, downstream', w'')
        ]
      ])
  started dependencies id exits downstream c = tt
  started dependencies id (returns (socks, downstream', w)) downstream (new, e, reaches, _) =
      let (rc1, s, w1) = socket w in
      let (rc2, w2) = bind s (service_port id) w1 in
      let (rc3, w3) = listen s w2 in
      elim (Bool-cases (is_ok rc1 && (is_ok rc2 && is_ok rc3))) [
        | inl f ↦
            rw (f) (s, socks, refl, subst (λ x. Reaches dependencies x downstream') (sym e) reaches)
        | inr f ↦ rw (f) tt
      ]

  -- A service whose dependencies are distinct services begins its rounds, if every call succeeds, with one
  -- socket for new connections and behind it one for each dependency, in their order; and the socket that
  -- `do_rpc` uses for a dependency is the one in its place, from which the rounds receive its responses.
  pub start_async-Started :
      (id : ℕ) (dependencies downstream : List ℕ) (w : World)
      → IsDistinct dependencies
      → All (λ k. k < length downstream) dependencies
      → Started dependencies (start_async id dependencies downstream w)
  unfolding start_async
  start_async-Started id dependencies downstream w d h =
      started dependencies id (connect_dependencies dependencies [] downstream w) downstream
        (connect_dependencies-Connected dependencies [] downstream w d h)
