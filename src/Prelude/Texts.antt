-- ===== src/Prelude/Texts.antt =====
-- C strings: `strcmp` and `strstr`.
use Prim.Native.String.{String, find, len}
use text.Mathlib.Text.{◌==◌}
use text.Mathlib.TextEquality.{eq_iff}
use mathlib.Core.Path.{◌≡◌, refl, sym, ap, ◌∙◌}
use mathlib.Core.Logic.{◌↔◌, ◌≢◌}
use mathlib.Core.Bool.{Bool, true, false}
use sure.Prelude.Tests.{leb, true-ne-false}

-- `strcmp(s, t) == 0`
abbrev pub same_text : String → String → Bool
same_text s t = s == t

pub same_text_iff : (s t : String) → (same_text s t ≡ true) ↔ (s ≡ t)
same_text_iff s t = eq_iff s t

-- `strstr(s, t) != NULL`
abbrev pub has_text : String → String → Bool
has_text s t = leb (find s t) (len s)

pub same_text→eq : (s t : String) → same_text s t ≡ true → s ≡ t
same_text→eq s t h = let (to, _) = eq_iff s t in to h

pub same_text_refl : (s : String) → same_text s s ≡ true
same_text_refl s = let (_, back) = eq_iff s s in back refl

pub different_text→ne : (s t : String) → same_text s t ≡ false → s ≢ t
different_text→ne s t h e = true-ne-false (sym (same_text_refl s) ∙ ap (same_text s) e ∙ h)
