-- ===== src/Throughput/Counts.antt =====
-- apps/throughput/sure/main.c: how many buffers are held, and how the calls of unimsg change it.
use sure.Prelude.{ℕ, ◌+◌, ◌≡◌, Bool, List, length, Option, none, some}
use sure.Throughput.{Desc, Received, got, econnreset, failed, Unimsg, and_then}

-- The program does not exit, and what it comes to has this property.
abbrev pub Gives : {A : Type 0} → (A → Type 0) → Option A → Type 0
Gives P none = ⊥
Gives P (some a) = P a

pub Gives-and_then :
    {A B : Type 0} (P : A → Type 0) (Q : B → Type 0) (r : Option A) (k : A → Option B)
    → Gives P r
    → ((a : A) → P a → Gives Q (k a))
    → Gives Q (and_then r k)
Gives-and_then P Q none k h f = absurd h
Gives-and_then P Q (some a) k h f = f a h

-- A message of any number of descriptors came, or the other side has closed the connection.
abbrev pub CameOrClosed : {W : Type 0} → (W → ℕ) → ℕ → ℕ → Received × W → Type 0
CameOrClosed held room h (got ds, w) = held w ≡ h + length ds
CameOrClosed held room h (econnreset, w) = held w ≡ h
CameOrClosed held room h (failed, w) = ⊥

-- No call fails, what is received is as `Came` says, and the buffers that are held are counted.
pub record Counts (u : Unimsg) (held : u.World → ℕ) (Came : ℕ → ℕ → Received × u.World → Type 0)
    : Type 0 where
  pub by_connect : (i : ℕ) (w : u.World) → Gives (λ w'. held w' ≡ held w) (u.connect i w)
  pub by_buffer_get :
      (n : ℕ) (w : u.World)
      → Gives (λ (ds, w'). (length ds ≡ n) × (held w' ≡ held w + n)) (u.buffer_get n w)
  pub by_buffer_put :
      (ds : List Desc) (h : ℕ) (w : u.World) → held w ≡ h + length ds → held (u.buffer_put ds w) ≡ h
  pub by_send :
      (s : ℕ) (ds : List Desc) (h : ℕ) (w : u.World)
      → held w ≡ h + length ds
      → Gives (λ w'. held w' ≡ h) (u.send s ds w)
  pub by_recv :
      (s room : ℕ) (nonblock : Bool) (w : u.World) → Came room (held w) (u.recv s room nonblock w)
  pub by_close : (s : ℕ) (w : u.World) → held (u.close s w) ≡ held w
  pub by_poll :
      (socks : List ℕ) (w : u.World) → Gives (λ (ready, w'). held w' ≡ held w) (u.poll socks w)
  pub by_accept : (w : u.World) → Gives (λ (s, w'). held w' ≡ held w) (u.accept w)
