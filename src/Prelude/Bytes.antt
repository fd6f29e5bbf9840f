-- ===== src/Prelude/Bytes.antt =====
-- C strings as the bytes of a message: texts read from them, and the bytes of a literal.
use Prim.Native.Char.{char, code, IsScalar}
use Prim.Native.String.{String, [] as no_char, ◌∷◌ as cons_char}
use Prim.Native.Nat.{Ordering, compare}
use text.Mathlib.TextBridge.{of_list}
use mathlib.Core.Path.{◌≡◌, refl, sym, ap₂}
use mathlib.Core.List.{List, [], ◌∷◌, map}
use mathlib.Core.Bool.{Bool, true, false, ◌&&◌}
use Prim.Native.Nat.{ℕ, ◌%◌}
use native.Mathlib.Omega.{arith}
use sure.Prelude.Tests.{◌==◌, true-ne-false}

pub byte-IsScalar : (n : ℕ) → IsScalar (n % 256)
byte-IsScalar n = let e : compare (n % 256) 55296 ≡ Ordering.lt = ground arith in rw (e) tt

-- The text of some bytes, a character for each.
abbrev pub c_string : List ℕ → String
c_string bs = of_list (map (λ n. char (n % 256) (byte-IsScalar n)) bs)

-- The bytes of a text of ASCII characters.
abbrev pub bytes_of : String → List ℕ
bytes_of no_char = []
bytes_of (cons_char c s) = code c ∷ bytes_of s

-- `strcmp(s, t) == 0`
abbrev pub same_bytes : List ℕ → List ℕ → Bool
same_bytes [] [] = true
same_bytes [] (y ∷ ys) = false
same_bytes (x ∷ xs) [] = false
same_bytes (x ∷ xs) (y ∷ ys) = (x == y) && same_bytes xs ys

pub both_true : (a b : Bool) → (a && b) ≡ true → (a ≡ true) × (b ≡ true)
both_true true b e = (refl, e)
both_true false b e = absurd (true-ne-false (sym e))

pub same_bytes→eq : (xs ys : List ℕ) → same_bytes xs ys ≡ true → xs ≡ ys
same_bytes→eq [] [] h = refl
same_bytes→eq [] (y ∷ ys) h = absurd (true-ne-false (sym h))
same_bytes→eq (x ∷ xs) [] h = absurd (true-ne-false (sym h))
same_bytes→eq (x ∷ xs) (y ∷ ys) h =
    let (same, more) = both_true (x == y) (same_bytes xs ys) h in
    let e : x ≡ y = ground (arith, same) in ap₂ (λ z zs. z ∷ zs) e (same_bytes→eq xs ys more)
