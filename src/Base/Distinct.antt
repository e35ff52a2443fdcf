-- ===== src/Base/Distinct.antt =====
-- Lists of ids in which no id stands twice.
use mathlib.Core.Path.{◌≡◌, refl}
use mathlib.Core.Bool.{false}
use mathlib.Core.List.{List, [], ◌∷◌, ◌++◌}
use native.Mathlib.Omega.{arith}
use server_glass.Base.Lists.{any, any-append}
use server_glass.Base.Strings.{Text, text_eq, text_eq_iff}

-- No id stands twice.
abbrev pub IsDistinct : List Text → Type 0
IsDistinct [] = Unit
IsDistinct (k ∷ ks) = (any (text_eq k) ks ≡ false) × IsDistinct ks

pub IsDistinct-append :
    (ks : List Text) (k : Text)
    → IsDistinct ks
    → any (text_eq k) ks ≡ false
    → IsDistinct (ks ++ k ∷ [])
unfolding any
IsDistinct-append [] k d h = (refl, tt)
IsDistinct-append (j ∷ ks) k (dj, d) h = (
  ground (arith, any-append (text_eq j) ks (k ∷ []), text_eq_iff j k, text_eq_iff k j, dj),
  IsDistinct-append ks k d (ground arith),
)
