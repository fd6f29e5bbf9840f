-- ===== src/Service/Async/Pool.antt =====
-- The coroutines that are available, in apps/boutique/sure/common/service/service_async.h.
use sure.Prelude.{
  Bool, ltb, ◌+◌, ℕ, ◌≡◌, ◌≢◌, ◌⊎◌, inl, inr, sym, ap, subst, ◌∙◌, true, false, Bool-cases, leb,
  ◌==◌, if◌then◌else◌, Option-cases, true-ne-false, List, [], ◌∷◌, length, get_or, arith,
}
use sure.Message.Size.{get_rpc_size}
use sure.Service.Unimsg.{Desc, size, Unimsg}
use sure.Service.Process.{PendingBuffer, command_at}
use sure.Service.Loop.{
  Reaction, proceeds, closes, aborts, LoopEnd, finished, closed, aborted, unfinished,
}
use sure.Service.Loop.Invariant.{Keeps, EndKeeps, desc_loop-EndKeeps}
use sure.Service.Sync.{is_ok}
use sure.Service.Async.{
  Coroutines, Step, calls, responds, Handler, State, Upstream, served, disconnected, no_coroutine,
  fails, max_coroutines, id_of, release, acquire, with_id, run_step, resume_co, on_response,
  set_waiting, of_loop, of_reaction, start_co, handle_downstream, on_request,
}

abbrev pub one : Bool → ℕ
one b = if b then 1 else 0

-- How often a coroutine is among those.
abbrev pub times : ℕ → List ℕ → ℕ
times co [] = 0
times co (x ∷ xs) = one (co == x) + times co xs

-- Reception from upstream is only disabled while no coroutine is available, so that the end of any coroutine
-- enables it.
abbrev pub Enabled : Coroutines → Type 0
Enabled c = c.disable_upstream ≡ true → c.available_cos ≡ []

-- Each of the 32 coroutines is available, once, or waits for a response, and not both; and no other is.
abbrev pub IsPool : Coroutines → Type 0
IsPool c =
    ((co : ℕ) → times co c.available_cos + one (c.waiting co) ≡ one (ltb co max_coroutines))
    × Enabled c

-- The same but for a coroutine that runs, which is neither.
abbrev IsRunning : ℕ → Coroutines → Type 0
IsRunning co c =
    ((co' : ℕ)
      → times co' c.available_cos + one (c.waiting co') + one (co' == co)
        ≡ one (ltb co' max_coroutines))
    × Enabled c

release-IsPool : (co : ℕ) (c : Coroutines) → IsRunning co c → IsPool (release co c)
release-IsPool co c (each, off) = (
  λ co'. omega (arith, each co'),
  λ e. absurd (still_off (Bool-cases (length c.available_cos == 0)) e),
)
  where
    still_off :
        ((length c.available_cos == 0) ≡ true) ⊎ ((length c.available_cos == 0) ≡ false)
        → (if length c.available_cos == 0 then false else c.disable_upstream) ≡ true
        → ⊥
    still_off (inl z) e =
        true-ne-false (sym (subst (λ b. (if b then false else c.disable_upstream) ≡ true) z e))
    still_off (inr z) e =
        let empty = off (subst (λ b. (if b then false else c.disable_upstream) ≡ true) z e) in
        true-ne-false (sym (ap (λ l. length l == 0) empty) ∙ z)

waits-IsPool : (co : ℕ) (c : Coroutines) → IsRunning co c → IsPool (set_waiting co true c)
waits-IsPool co c (each, off) = (
  λ co'. elim (Bool-cases (co' == co)) [
    | inl e ↦
        let was : times co' c.available_cos + one (c.waiting co') + 1
            ≡ one (ltb co' max_coroutines) =
          ap (λ b. times co' c.available_cos + one (c.waiting co') + one b) (sym e) ∙ each co' in
        rw (e) (alone (times co' c.available_cos) (c.waiting co') (ltb co' max_coroutines) was)
    | inr e ↦
        let was : times co' c.available_cos + one (c.waiting co') + 0
            ≡ one (ltb co' max_coroutines) =
          ap (λ b. times co' c.available_cos + one (c.waiting co') + one b) (sym e) ∙ each co' in
        rw (e) (omega (arith, was))
  ],
  off,
)
  where
    alone : (n : ℕ) (a b : Bool) → n + one a + 1 ≡ one b → n + 1 ≡ one b
    alone n true true h = absurd (omega (arith, h))
    alone n true false h = absurd (omega (arith, h))
    alone n false b h = omega (arith, h)

resumes-IsRunning :
    (co : ℕ) (c : Coroutines)
    → c.waiting co ≡ true
    → IsPool c
    → IsRunning co (set_waiting co false c)
resumes-IsRunning co c w (each, off) = (
  λ co'. elim (Bool-cases (co' == co)) [
    | inl e ↦
        let same : co' ≡ co = ground (arith, e) in
        let waits : c.waiting co' ≡ true = ap c.waiting same ∙ w in
        let was : times co' c.available_cos + 1 ≡ one (ltb co' max_coroutines) =
          ap (λ b. times co' c.available_cos + one b) (sym waits) ∙ each co' in
        rw (e) (omega (arith, was))
    | inr e ↦ rw (e) (omega (arith, each co'))
  ],
  off,
)

acquire-IsRunning :
    (co s : ℕ) (rest : List ℕ) (c : Coroutines)
    → c.available_cos ≡ co ∷ rest
    → IsPool c
    → IsRunning co (acquire co s rest c)
acquire-IsRunning co s rest c e (each, off) = (
  λ co'.
      let was : one (co' == co) + times co' rest + one (c.waiting co')
          ≡ one (ltb co' max_coroutines) =
        ap (λ l. times co' l + one (c.waiting co')) (sym e) ∙ each co' in
      omega (arith, was),
  λ d. absurd (cons-ne-nil co rest (sym e ∙ off d)),
)
  where
    cons-ne-nil : (x : ℕ) (xs : List ℕ) → (x ∷ xs) ≢ []
    cons-ne-nil x xs e = ground arith

module _ (u : Unimsg) {T : Type 0} (h : Handler T) (downstream_socks : List ℕ) where
  abbrev St : Type 0
  St = State u h downstream_socks

  abbrev pub Held : Coroutines × T → Type 0
  Held (c, _) = IsPool c

  abbrev pub UpKeeps : Upstream u h downstream_socks → Type 0
  UpKeeps (served _ (_, (c, _))) = IsPool c
  UpKeeps (disconnected _ (_, (c, _))) = IsPool c
  UpKeeps (no_coroutine (_, (c, _))) = IsPool c
  UpKeeps fails = Unit {0}

  run_step-Keeps :
      (co : ℕ) (step : Step T) (w : u.World) (c : Coroutines)
      → IsRunning co c
      → Keeps u Held (run_step u h downstream_socks co step w c)
  unfolding run_step
  run_step-Keeps co (calls d service t) w c i =
      elim (Bool-cases (is_ok (u.send (get_or downstream_socks service 0) (with_id co d) w).0)) [
        | inl e ↦ rw (e, run_step) (waits-IsPool co c i)
        | inr e ↦ rw (e, run_step) tt
      ]
  run_step-Keeps co (responds d t) w c i =
      elim (Bool-cases (is_ok (u.send (get_or c.up_socks co 0) d w).0)) [
        | inl e ↦ rw (e, run_step) (release-IsPool co c i)
        | inr e ↦ rw (e, run_step) tt
      ]

  resume_co-Keeps :
      (co : ℕ) (d : Desc) (w : u.World) (c : Coroutines) (t : T)
      → IsRunning co c
      → Keeps u Held (resume_co u h downstream_socks co d (w, (c, t)))
  unfolding resume_co
  resume_co-Keeps co d w c t i = elim (Option-cases (get_rpc_size (command_at d.bytes))) [
    | inl e ↦ rw (e, resume_co) tt
    | inr (n, e) ↦ elim (Bool-cases (size d == n)) [
      | inl f ↦ rw (e, f, resume_co) (run_step-Keeps co (h.resume co d t) w c i)
      | inr f ↦ rw (e, f, resume_co) tt
    ]
  ]

  on_response-Keeps :
      (d : Desc) (w : u.World) (s : Coroutines × T)
      → Held s
      → Keeps u Held (on_response u h downstream_socks d (w, s))
  unfolding on_response
  on_response-Keeps d w (c, t) i = elim (Bool-cases (leb max_coroutines (id_of d.bytes))) [
    | inl e ↦ rw (e, on_response) tt
    | inr e ↦ elim (Bool-cases (c.waiting (id_of d.bytes))) [
      | inl f ↦
          rw (e, f, on_response)
            (resume_co-Keeps (id_of d.bytes) d w (set_waiting (id_of d.bytes) false c) t
              (resumes-IsRunning (id_of d.bytes) c f i))
      | inr f ↦ rw (e, f, on_response) tt
    ]
  ]

  pub start_co-Keeps :
      (s co : ℕ) (rest : List ℕ) (d : Desc) (w : u.World) (c : Coroutines) (t : T)
      → c.available_cos ≡ co ∷ rest
      → IsPool c
      → Keeps u Held (start_co u h downstream_socks s co rest d (w, (c, t)))
  start_co-Keeps s co rest d w c t e i =
      run_step-Keeps co (h.begin co d t) w (acquire co s rest c) (acquire-IsRunning co s rest c e i)

  pub on_request-Keeps :
      (s co : ℕ) (rest : List ℕ) (d : Desc) (w : u.World) (c : Coroutines) (t : T)
      → c.available_cos ≡ co ∷ rest
      → IsPool c
      → Keeps u Held (on_request u h downstream_socks s co rest d (w, (c, t)))
  unfolding on_request
  on_request-Keeps s co rest d w c t e i = elim (Option-cases (get_rpc_size (command_at d.bytes))) [
    | inl f ↦ rw (f, on_request) tt
    | inr (n, f) ↦ elim (Bool-cases (size d == n)) [
      | inl g ↦ rw (f, g, on_request) (start_co-Keeps s co rest d w c t e i)
      | inr g ↦ rw (f, g, on_request) tt
    ]
  ]

  of_loop-UpKeeps : (r : LoopEnd St) → EndKeeps u Held r → UpKeeps (of_loop u h downstream_socks r)
  of_loop-UpKeeps (finished p (w, s)) i = i
  of_loop-UpKeeps (closed p (w, s)) i = i
  of_loop-UpKeeps aborted i = tt
  of_loop-UpKeeps (unfinished ds p (w, s)) i = tt

  pub of_reaction-UpKeeps :
      (p : PendingBuffer) (r : Reaction St)
      → Keeps u Held r
      → UpKeeps (of_reaction u h downstream_socks p r)
  of_reaction-UpKeeps p (proceeds (w, s)) i = i
  of_reaction-UpKeeps p (closes left (w, s)) i = i
  of_reaction-UpKeeps p aborts i = tt

  pub handle_downstream-UpKeeps :
      (fuel s : ℕ) (p : PendingBuffer) (w : u.World) (c : Coroutines) (t : T)
      → IsPool c
      → UpKeeps (handle_downstream u h downstream_socks fuel s p (w, (c, t)))
  unfolding handle_downstream
  handle_downstream-UpKeeps fuel s p w c t i =
      elim (Bool-cases (is_ok (u.recv s u.max_descs_bulk w).0)) [
        | inl e ↦
            rw (e, handle_downstream)
              (of_loop-UpKeeps _ (
                desc_loop-EndKeeps u Held (on_response u h downstream_socks) on_response-Keeps fuel
                  _ p _ (c, t) i))
        | inr e ↦ rw (e, handle_downstream) tt
      ]
