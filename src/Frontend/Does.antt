-- ===== src/Frontend/Does.antt =====
-- What holds of all the calls of a handler of apps/boutique/sure/frontend/main.c, and of its result.
use sure.Frontend.Calls.{Call, Answer, Run, done, undefined, call, then_run}

-- The calls satisfy `P`, whatever is answered, and a result satisfies `Q`.
abbrev pub Does : {A : Type 0} → (Call → Type 0) → (A → Type 0) → Run A → Type 0
Does P Q (done a) = Q a
Does P Q undefined = Unit {0}
Does P Q (call c next) = P c × ((a : Answer c) → Does P Q (next a))

pub then_run-Does :
    {A B : Type 0} (P : Call → Type 0) (Q : A → Type 0) (R : B → Type 0) (r : Run A) (k : A → Run B)
    → Does P Q r
    → ((a : A) → Q a → Does P R (k a))
    → Does P R (then_run r k)
then_run-Does P Q R (done a) k d next = next a d
then_run-Does P Q R undefined k d next = tt
then_run-Does P Q R (call c more) k (p, d) next =
    (p, λ a. then_run-Does P Q R (more a) k (d a) next)
