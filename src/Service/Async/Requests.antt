-- ===== src/Service/Async/Requests.antt =====
-- The two forms of `handle_upstream` in apps/boutique/sure/common/service/service_async.h keep the coroutines in
-- order.
use sure.Prelude.{
  ℕ, zero, suc, ◌≡◌, ◌⊎◌, inl, inr, refl, subst, true, false, Bool-cases, ◌==◌, List, [], ◌∷◌,
  length, get_or, arith,
}
use sure.Service.Unimsg.{Desc, Unimsg}
use sure.Service.Process.{PendingBuffer, process_desc}
use sure.Service.Loop.{cleared, advance}
use sure.Service.Loop.Rounds.{Exec-cases, Reaction-cases}
use sure.Service.Loop.Invariant.{Keeps}
use sure.Service.Sync.Table.{Rc-cases}
use sure.Service.Async.{
  Coroutines, Handler, handle_upstream_http, on_request, grpc_loop, handle_upstream_grpc,
}
use sure.Service.Async.Pool.{
  IsPool, Held, UpKeeps, start_co-Keeps, on_request-Keeps, of_reaction-UpKeeps,
}

List-cases : {A : Type 0} (xs : List A) → (xs ≡ []) ⊎ ((x : A) × (rest : List A) × (xs ≡ x ∷ rest))
List-cases [] = inl refl
List-cases (x ∷ xs) = inr (x, xs, refl)

module _ (u : Unimsg) {T : Type 0} (h : Handler T) (downstream_socks : List ℕ) where
  pub handle_upstream_http-UpKeeps :
      (s : ℕ) (p : PendingBuffer) (w : u.World) (c : Coroutines) (t : T)
      → IsPool c
      → UpKeeps u h downstream_socks (handle_upstream_http u h downstream_socks s p (w, (c, t)))
  unfolding handle_upstream_http
  handle_upstream_http-UpKeeps s p w c t i = elim (List-cases c.available_cos) [
    | inl e ↦ rw (e, handle_upstream_http) (i.0, λ _. e)
    | inr (co, rest, e) ↦ elim (Rc-cases (u.recv s 1 w).0) [
      | inl r ↦
          rw (e, r, handle_upstream_http)
            (of_reaction-UpKeeps u h downstream_socks p _ (
              start_co-Keeps u h downstream_socks s co rest (get_or (u.recv s 1 w).1 0 p.desc)
                (u.recv s 1 w).2 c t e i))
      | inr (inl r) ↦ rw (e, r, handle_upstream_http) i
      | inr (inr r) ↦ rw (e, r, handle_upstream_http) tt
    ]
  ]

  grpc_loop-UpKeeps :
      (fuel s : ℕ) (ds : List Desc) (p : PendingBuffer) (w : u.World) (c : Coroutines) (t : T)
      → IsPool c
      → UpKeeps u h downstream_socks (grpc_loop u h downstream_socks fuel s ds p (w, (c, t)))
  unfolding grpc_loop
  grpc_loop-UpKeeps zero s ds p w c t i = tt
  grpc_loop-UpKeeps (suc fuel) s [] p w c t i = i
  grpc_loop-UpKeeps (suc fuel) s (d ∷ ds) p w c t i = elim (List-cases c.available_cos) [
    | inl e ↦ rw (e, grpc_loop) tt
    | inr (co, rest, e) ↦ elim (Exec-cases (process_desc u p d w)) [
      | inl x ↦ rw (e, x, grpc_loop) tt
      | inr ((false, p', d', w'), x) ↦
          rw (e, x, grpc_loop) (grpc_loop-UpKeeps fuel s (advance d' ds) p' w' c t i)
      | inr ((true, p', d', w'), x) ↦
          elim (Reaction-cases (on_request u h downstream_socks s co rest p'.desc (w', (c, t)))) [
            | inl r ↦ rw (e, x, r, grpc_loop) tt
            | inr (inl (left, st, r)) ↦ rw (e, x, r, grpc_loop) tt
            | inr (inr ((w'', (c'', t'')), r)) ↦
                rw (e, x, r, grpc_loop)
                  (grpc_loop-UpKeeps fuel s (advance d' ds) (cleared p') w'' c'' t'' (
                    subst (Keeps u (Held u h downstream_socks)) r
                      (on_request-Keeps u h downstream_socks s co rest p'.desc w' c t e i)))
          ]
    ]
  ]

  pub handle_upstream_grpc-UpKeeps :
      (fuel s : ℕ) (p : PendingBuffer) (w : u.World) (c : Coroutines) (t : T)
      → IsPool c
      → UpKeeps u h downstream_socks
          (handle_upstream_grpc u h downstream_socks fuel s p (w, (c, t)))
  unfolding handle_upstream_grpc
  handle_upstream_grpc-UpKeeps fuel s p w c t i = elim (Bool-cases (length c.available_cos == 0)) [
    | inl e ↦ rw (e, handle_upstream_grpc) (i.0, λ _. nil_of_length c.available_cos e)
    | inr e ↦ elim (Rc-cases (u.recv s u.max_descs_bulk w).0) [
      | inl r ↦ rw (e, r, handle_upstream_grpc) (grpc_loop-UpKeeps fuel s _ p _ c t i)
      | inr (inl r) ↦ rw (e, r, handle_upstream_grpc) i
      | inr (inr r) ↦ rw (e, r, handle_upstream_grpc) tt
    ]
  ]
    where
      nil_of_length : (xs : List ℕ) → (length xs == 0) ≡ true → xs ≡ []
      nil_of_length [] e = refl
      nil_of_length (x ∷ xs) e = absurd (ground (arith, e))
