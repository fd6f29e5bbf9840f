-- ===== src/Service/Sync/Table.antt =====
-- The table of sockets of `run_service` in apps/boutique/sure/common/service/service_sync.h.
use sure.Prelude.{
  ℕ, zero, suc, ◌+◌, ◌≤◌, ◌<◌, ◌≡◌, ◌⊎◌, inl, inr, refl, ◌∙◌, false, Bool-cases, ltb, ltb→lt, ◌==◌,
  List, [], ◌∷◌, ◌++◌, length, length-append, length-set, length-take, length-drop, get_or, set,
  take, drop, length-replicate, ◌&&◌, arith,
}
use sure.Service.Unimsg.{Rc, ok, econnreset, error, Desc, Unimsg}
use sure.Service.Process.{PendingBuffer}
use sure.Service.Sync.{
  Handled, stays, leaves, dies, hangs, Server, Served, serves, stops, is_ok, no_pending, shift_down,
  forget_socket, handle_socket, serve, accept_client, then_serve, service_round, service_rounds,
  start_service,
}

length-shift_down :
    {A : Type 0} (i : ℕ) (xs : List A) → i < length xs → length (shift_down i xs) + 1 ≡ length xs
length-shift_down i xs h =
    omega
      (arith, length-append (take i xs) (drop (suc i) xs), length-take i xs, length-drop (suc i) xs)

shift_down-first : (i : ℕ) (xs : List ℕ) → 1 ≤ i → get_or (shift_down i xs) 0 0 ≡ get_or xs 0 0
shift_down-first zero xs h = absurd (omega arith)
shift_down-first (suc zero) [] h = refl
shift_down-first (suc (suc i)) [] h = refl
shift_down-first (suc i) (x ∷ xs) h = refl

append-first : (xs ys : List ℕ) → 1 ≤ length xs → get_or (xs ++ ys) 0 0 ≡ get_or xs 0 0
append-first [] ys h = absurd (omega arith)
append-first (x ∷ xs) ys h = refl

pub Rc-cases : (rc : Rc) → (rc ≡ ok) ⊎ ((rc ≡ econnreset) ⊎ (rc ≡ error))
Rc-cases ok = inl refl
Rc-cases econnreset = inr (inl refl)
Rc-cases error = inr (inr refl)

Handled-cases :
    {W : Type 0} (r : Handled W)
    → ((p : PendingBuffer) × (w : W) × (r ≡ stays p w))
      ⊎ (((p : PendingBuffer) × (w : W) × (r ≡ leaves p w)) ⊎ ((r ≡ dies) ⊎ (r ≡ hangs)))
Handled-cases (stays p w) = inl (p, w, refl)
Handled-cases (leaves p w) = inr (inl (p, w, refl))
Handled-cases dies = inr (inr (inl refl))
Handled-cases hangs = inr (inr (inr refl))

module _ (u : Unimsg) {S : Type 0} (handle_request : Desc → S → Desc × S) where
  open u use {World, max_nsocks, poll, accept}

  -- The table has the listening socket `s` in front, has room for all its sockets, and has a pending
  -- buffer for each place.
  abbrev pub IsServer : ℕ → Server → Type 0
  IsServer s srv =
      (1 ≤ length srv.socks)
      × (length srv.socks ≤ max_nsocks)
      × (length srv.pending_buffers ≡ max_nsocks)
      × (get_or srv.socks 0 0 ≡ s)

  abbrev pub StaysServer : ℕ → Served (World × S) → Type 0
  StaysServer s (serves srv _) = IsServer s srv
  StaysServer s stops = Unit {0}

  set_pending-IsServer :
      (s i : ℕ) (p : PendingBuffer) (srv : Server)
      → IsServer s srv
      → IsServer s (record srv { pending_buffers = set srv.pending_buffers i p })
  set_pending-IsServer s i p srv (a, b, c, d) = (a, b, length-set srv.pending_buffers i p ∙ c, d)

  forget_socket-IsServer :
      (s i : ℕ) (srv : Server)
      → 1 ≤ i
      → i < length srv.socks
      → IsServer s srv
      → IsServer s (forget_socket i srv)
  forget_socket-IsServer s i srv h k (a, b, c, d) =
      let l : length (shift_down i srv.socks) + 1 ≡ length srv.socks =
        length-shift_down i srv.socks k in
      (omega arith, omega arith, c, shift_down-first i srv.socks h ∙ d)

  add_client-IsServer :
      (s t : ℕ) (srv : Server)
      → IsServer s srv
      → (length srv.socks == max_nsocks) ≡ false
      → IsServer s (record srv { socks = srv.socks ++ t ∷ [] })
  add_client-IsServer s t srv (a, b, c, d) e =
      let l : length (srv.socks ++ t ∷ []) ≡ length srv.socks + 1 =
        length-append srv.socks (t ∷ []) in
      (omega arith, ground (arith, l, b, e), c, append-first srv.socks (t ∷ []) a ∙ d)

  serve-IsServer :
      (s fuel left i : ℕ) (srv : Server) (ws : World × S)
      → 1 ≤ i
      → IsServer s srv
      → StaysServer s (serve u handle_request fuel left i srv ws)
  unfolding serve
  serve-IsServer s fuel zero i srv ws h inv = inv
  serve-IsServer s fuel (suc left) i srv ws h inv = elim (Bool-cases (ltb i (length srv.socks))) [
    | inr e ↦ rw (e, serve) inv
    | inl e ↦ elim (Bool-cases (get_or srv.ready i false)) [
      | inr n ↦ rw (e, n, serve) (serve-IsServer s fuel left (i + 1) srv ws (omega arith) inv)
      | inl r ↦
          elim (Handled-cases (
            handle_socket u handle_request fuel (get_or srv.socks i 0)
              (get_or srv.pending_buffers i no_pending) ws)) [
                | inl (p, ws', q) ↦
                    rw (e, r, q, serve)
                      (serve-IsServer s fuel left (i + 1) _ ws' (omega arith)
                        (set_pending-IsServer s i p srv inv))
                | inr (inl (p, ws', q)) ↦
                    rw (e, r, q, serve)
                      (serve-IsServer s fuel left (i + 1) _ ws' (omega arith) (
                        forget_socket-IsServer s i
                          (record srv { pending_buffers = set srv.pending_buffers i p }) h
                          (ltb→lt i (length srv.socks) e) (set_pending-IsServer s i p srv inv)))
                | inr (inr (inl q)) ↦ rw (e, r, q, serve) tt
                | inr (inr (inr q)) ↦ rw (e, r, q, serve) tt
              ]
    ]
  ]

  accept_client-IsServer :
      (s : ℕ) (srv : Server) (ws : World × S)
      → IsServer s srv
      → StaysServer s (accept_client u handle_request srv ws)
  unfolding accept_client
  accept_client-IsServer s srv (w, st) inv = elim (Bool-cases (get_or srv.ready 0 false)) [
    | inr e ↦ rw (e, accept_client) inv
    | inl e ↦ elim (Bool-cases (length srv.socks == max_nsocks)) [
      | inl f ↦ rw (e, f, accept_client) tt
      | inr f ↦ elim (Rc-cases (accept (get_or srv.socks 0 0) w).0) [
        | inl r ↦ rw (e, f, r, accept_client) (add_client-IsServer s _ srv inv f)
        | inr (inl r) ↦ rw (e, f, r, accept_client) tt
        | inr (inr r) ↦ rw (e, f, r, accept_client) tt
      ]
    ]
  ]

  then_serve-StaysServer :
      (s : ℕ) (r : Served (World × S)) (k : Server → World × S → Served (World × S))
      → StaysServer s r
      → ((srv : Server) (ws : World × S) → IsServer s srv → StaysServer s (k srv ws))
      → StaysServer s (then_serve u handle_request r k)
  then_serve-StaysServer s (serves srv ws) k inv next = next srv ws inv
  then_serve-StaysServer s stops k inv next = tt

  service_round-IsServer :
      (s fuel : ℕ) (srv : Server) (ws : World × S)
      → IsServer s srv
      → StaysServer s (service_round u handle_request fuel srv ws)
  unfolding service_round
  service_round-IsServer s fuel srv (w, st) inv = elim (Rc-cases (poll srv.socks w).0) [
    | inl r ↦
        rw (r, service_round)
          (then_serve-StaysServer s _ _
            (serve-IsServer s fuel (length srv.socks) 1 _ _ (omega arith) inv)
            (accept_client-IsServer s))
    | inr (inl r) ↦ rw (r, service_round) tt
    | inr (inr r) ↦ rw (r, service_round) tt
  ]

  service_rounds-IsServer :
      (s fuel n : ℕ) (srv : Server) (ws : World × S)
      → IsServer s srv
      → StaysServer s (service_rounds u handle_request fuel n srv ws)
  unfolding service_rounds
  service_rounds-IsServer s fuel zero srv ws inv = inv
  service_rounds-IsServer s fuel (suc n) srv ws inv =
      then_serve-StaysServer s (service_round u handle_request fuel srv ws)
        (service_rounds u handle_request fuel n) (service_round-IsServer s fuel srv ws inv)
        (service_rounds-IsServer s fuel n)

  start_service-IsServer :
      (port : ℕ) (ws : World × S)
      → 1 ≤ max_nsocks
      → StaysServer (u.socket ws.0).1 (start_service u handle_request port ws)
  unfolding start_service
  start_service-IsServer port (w, st) h =
      let (rc1, s, w1) = u.socket w in
      let (rc2, w2) = u.bind s port w1 in
      let (rc3, w3) = u.listen s w2 in
      elim (Bool-cases (is_ok rc1 && (is_ok rc2 && is_ok rc3))) [
        | inl e ↦
            rw (e, start_service) (omega arith, h, length-replicate max_nsocks no_pending, refl)
        | inr e ↦ rw (e, start_service) tt
      ]

  -- From its start on, however long the service runs and whatever its clients do: the table of sockets has
  -- the listening socket in its first place, never more sockets than it has room for, and a pending
  -- buffer for each place.
  pub run_service-IsServer :
      (port fuel n : ℕ) (ws : World × S)
      → 1 ≤ max_nsocks
      → StaysServer (u.socket ws.0).1 (
          then_serve u handle_request
            (start_service u handle_request port ws)
            (service_rounds u handle_request fuel n))
  run_service-IsServer port fuel n ws h =
      then_serve-StaysServer (u.socket ws.0).1 (start_service u handle_request port ws)
        (service_rounds u handle_request fuel n) (start_service-IsServer port ws h)
        (service_rounds-IsServer (u.socket ws.0).1 fuel n)
