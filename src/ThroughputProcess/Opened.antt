-- ===== src/ThroughputProcess/Opened.antt =====
-- apps/throughput/process/main.c: which sockets are open.
use sure.Prelude.{
  ℕ, ◌+◌, ◌≡◌, ◌⊎◌, inl, inr, refl, ap, List, [], ◌∷◌, ◌++◌, Option, none, some, arith, ◌==◌,
  if◌then◌else◌,
}
use sure.ThroughputProcess.{
  Options, Event, silent, pollin, unexpected, Pollfd, System, and_then, set_events,
}
use sure.ThroughputProcess.Server.{Serving, with_events}

-- The program exits, or what it comes to has this property.
abbrev pub UnlessExit : {A : Type 0} → (A → Type 0) → Option A → Type 0
UnlessExit P none = Unit
UnlessExit P (some a) = P a

pub UnlessExit-and_then :
    {A B : Type 0} (P : A → Type 0) (Q : B → Type 0) (r : Option A) (k : A → Option B)
    → UnlessExit P r
    → ((a : A) → P a → UnlessExit Q (k a))
    → UnlessExit Q (and_then r k)
UnlessExit-and_then P Q none k h f = tt
UnlessExit-and_then P Q (some a) k h f = f a h

-- How often a socket is among those.
abbrev pub same_fd : ℕ → ℕ → ℕ
same_fd x s = if x == s then 1 else 0

abbrev pub places : ℕ → List Pollfd → ℕ
places x [] = 0
places x (p ∷ ps) = same_fd x p.fd + places x ps

-- Whether the descriptor `x` is open in a world, as 0 or 1: `accept` opens the one that it gives, `close` closes
-- its own and no other, and nothing else changes any.
pub record CountsOpen (sys : System) (open_socks : sys.World → ℕ → ℕ) : Type 0 where
  pub by_accept :
      (x : ℕ) (w : sys.World)
      → UnlessExit (λ (s, w'). open_socks w' x ≡ open_socks w x + same_fd x s) (sys.accept w)
  pub by_send : (s n x : ℕ) (w : sys.World) → open_socks (sys.send s n w).1 x ≡ open_socks w x
  pub by_recv : (s x : ℕ) (w : sys.World) → open_socks (sys.recv s w).1 x ≡ open_socks w x
  pub by_poll :
      (socks : List ℕ) (x : ℕ) (w : sys.World) → open_socks (sys.poll socks w).1 x ≡ open_socks w x
  pub by_close :
      (s x h : ℕ) (w : sys.World)
      → open_socks w x ≡ h + same_fd x s
      → open_socks (sys.close s w) x ≡ h

places-set_events :
    (x : ℕ) (ps : List Pollfd) (es : List Event) → places x (set_events ps es) ≡ places x ps
places-set_events x [] es = refl
places-set_events x (p ∷ ps) [] = refl
places-set_events x (p ∷ ps) (e ∷ es) = ap (λ n. same_fd x p.fd + n) (places-set_events x ps es)

pub places-with_events :
    (sys : System) (o : Options) (x : ℕ) (es : List Event) (st : Serving)
    → places x (with_events sys o es st).conns ≡ places x st.conns
places-with_events sys o x [] st = refl
places-with_events sys o x (e ∷ es) st = places-set_events x st.conns es

pub listener-with_events :
    (sys : System) (o : Options) (es : List Event) (st : Serving)
    → (with_events sys o es st).listener.fd ≡ st.listener.fd
listener-with_events sys o [] st = refl
listener-with_events sys o (e ∷ es) st = refl

pub places-append :
    (x : ℕ) (ps : List Pollfd) (p : Pollfd) → places x (ps ++ p ∷ []) ≡ places x ps + same_fd x p.fd
places-append x [] p = omega arith
places-append x (q ∷ ps) p = omega (arith, places-append x ps p)

pub event-cases : (e : Event) → (e ≡ silent) ⊎ ((e ≡ pollin) ⊎ (e ≡ unexpected))
event-cases silent = inl refl
event-cases pollin = inr (inl refl)
event-cases unexpected = inr (inr refl)
