-- ===== src/Steering/Failures.antt =====
-- apps/ric/sure/ts/ts_xapp.cpp: what can fail, and how buffers are counted.
use sure.Prelude.{
  ℕ, ◌+◌, ◌≡◌, refl, sym, Bool, true, false, ◌&&◌, if◌then◌else◌, true-ne-false, List, [], ◌∷◌,
  get_or, Option, none, some,
}
use sure.Frontend.{until_nul}
use sure.Service.Unimsg.{Desc, Unimsg}
use sure.Service.Sync.{is_ok}
use sure.Steering.{new_handler, read_prediction, decide}
use sure.Steering.Post.{
  Ran, done, exits, undefined, and_then, or_exit, or_undefined, Libraries, read_response, no_desc,
}

-- `Failed` says that something has failed: it is ⊥ where nothing can.
module _ (Failed : Type 0) where
  -- What the program goes on with has this property; it has exited or read behind the end of a map only if
  -- something has failed.
  abbrev pub UnlessGone : {A : Type 0} → (A → Type 0) → Ran A → Type 0
  UnlessGone P (done a) = P a
  UnlessGone P exits = Failed
  UnlessGone P undefined = Failed

  pub UnlessGone-and_then :
      {A B : Type 0} (P : A → Type 0) (Q : B → Type 0) (r : Ran A) (k : A → Ran B)
      → UnlessGone P r
      → ((a : A) → P a → UnlessGone Q (k a))
      → UnlessGone Q (and_then r k)
  UnlessGone-and_then P Q (done a) k h f = f a h
  UnlessGone-and_then P Q exits k h f = h
  UnlessGone-and_then P Q undefined k h f = h

  pub UnlessGone-weaken :
      {A : Type 0} (P Q : A → Type 0) (r : Ran A)
      → UnlessGone P r
      → ((a : A) → P a → Q a)
      → UnlessGone Q r
  UnlessGone-weaken P Q (done a) h f = f a h
  UnlessGone-weaken P Q exits h f = h
  UnlessGone-weaken P Q undefined h f = h

  -- A test behind which the program exits.
  pub UnlessGone-if :
      {A : Type 0} (P : A → Type 0) (b : Bool) (r : Ran A)
      → (b ≡ true → UnlessGone P r)
      → (b ≡ false → Failed)
      → UnlessGone P (if b then r else exits)
  UnlessGone-if P true r h f = h refl
  UnlessGone-if P false r h f = f refl

  pub UnlessGone-or_exit :
      {A : Type 0} (P : A → Type 0) (r : Option A)
      → ((a : A) → r ≡ some a → P a)
      → (r ≡ none → Failed)
      → UnlessGone P (or_exit r)
  UnlessGone-or_exit P none h f = f refl
  UnlessGone-or_exit P (some a) h f = h a refl

  pub UnlessGone-or_undefined :
      {A : Type 0} (P : A → Type 0) (r : Option A)
      → ((a : A) → r ≡ some a → P a)
      → (r ≡ none → Failed)
      → UnlessGone P (or_undefined r)
  UnlessGone-or_undefined P none h f = f refl
  UnlessGone-or_undefined P (some a) h f = h a refl

  pub one_fails :
      (a b : Bool) → (a ≡ false → Failed) → (b ≡ false → Failed) → (a && b) ≡ false → Failed
  one_fails true b f g e = g e
  one_fails false b f g e = f refl

  -- The calls that fail, among those that the program makes.
  pub record FailsOnly (u : Unimsg) (l : Libraries u.World) : Type 0 where
    pub get_fails : (w : u.World) → u.buffer_get w ≡ none → Failed
    pub send_fails : (s : ℕ) (d : Desc) (w : u.World) → is_ok (u.send s d w).0 ≡ false → Failed
    pub recv_fails : (s : ℕ) (w : u.World) → is_ok (u.recv s 1 w).0 ≡ false → Failed
    pub socket_fails : (w : u.World) → is_ok (u.socket w).0 ≡ false → Failed
    pub connect_fails :
        (s addr port : ℕ) (w : u.World) → is_ok (u.connect s addr port w).0 ≡ false → Failed
    -- What was received is no response.
    pub response_fails :
        (s : ℕ) (w : u.World)
        → (let (rc, descs, w') = u.recv s 1 w in
            read_response (until_nul (get_or descs 0 no_desc).bytes) ≡ none → Failed)
    -- A text is no prediction.
    pub prediction_fails :
        (text : List ℕ)
        → decide l.iterate l.exceeds (read_prediction (l.parse text) new_handler) ≡ none
        → Failed

-- How many buffers are held in a world: a call that succeeds takes one, or gives one back.
pub record CountsBuffers (u : Unimsg) (held : u.World → ℕ) : Type 0 where
  pub by_get :
      (w : u.World) (d : Desc) (w' : u.World) → u.buffer_get w ≡ some (d, w') → held w' ≡ held w + 1
  pub by_put :
      (d : Desc) (h : ℕ) (w : u.World) → held w ≡ h + 1 → held (u.buffer_put (d ∷ []) w) ≡ h
  pub by_send :
      (s : ℕ) (d : Desc) (h : ℕ) (w : u.World)
      → held w ≡ h + 1
      → (let (rc, w') = u.send s d w in is_ok rc ≡ true → held w' ≡ h)
  pub by_recv :
      (s : ℕ) (w : u.World)
      → (let (rc, descs, w') = u.recv s 1 w in is_ok rc ≡ true → held w' ≡ held w + 1)
  pub by_socket : (w : u.World) → (let (rc, s, w') = u.socket w in held w' ≡ held w)
  pub by_connect :
      (s addr port : ℕ) (w : u.World) → (let (rc, w') = u.connect s addr port w in held w' ≡ held w)
  pub by_close : (s : ℕ) (w : u.World) → held (u.close s w) ≡ held w

-- The messages that were sent in a world, with their sockets, the last one first: a call of send that succeeds
-- adds one, and no other call does.
pub record Logs (u : Unimsg) (log : u.World → List (ℕ × List ℕ)) : Type 0 where
  pub log_get :
      (w : u.World) (d : Desc) (w' : u.World) → u.buffer_get w ≡ some (d, w') → log w' ≡ log w
  pub log_put : (d : Desc) (w : u.World) → log (u.buffer_put (d ∷ []) w) ≡ log w
  pub log_send :
      (s : ℕ) (d : Desc) (w : u.World)
      → (let (rc, w') = u.send s d w in is_ok rc ≡ true → log w' ≡ (s, d.bytes) ∷ log w)
  pub log_recv : (s : ℕ) (w : u.World) → (let (rc, descs, w') = u.recv s 1 w in log w' ≡ log w)
  pub log_socket : (w : u.World) → (let (rc, s, w') = u.socket w in log w' ≡ log w)
  pub log_connect :
      (s addr port : ℕ) (w : u.World) → (let (rc, w') = u.connect s addr port w in log w' ≡ log w)
  pub log_close : (s : ℕ) (w : u.World) → log (u.close s w) ≡ log w

pub and_true : (a b : Bool) → (a && b) ≡ true → (a ≡ true) × (b ≡ true)
and_true true b e = (refl, e)
and_true false b e = absurd (true-ne-false (sym e))
