-- ===== src/Base/Dict.antt =====
-- Go's map with text keys, as an association list without order. A key that is absent reads as
-- `none`; a write replaces the entry of its key, and a delete removes every entry of its key.
use Prim.Native.Nat.{◌+◌}
use Prim.Native.String.{String}
use mathlib.Core.Path.{◌≡◌, refl}
use mathlib.Core.Bool.{Bool}
use mathlib.Core.List.{List, [], ◌∷◌}
use mathlib.Core.Option.{Option, none, some}
use native.Mathlib.Omega.{arith}
use text.Mathlib.Text.{◌==◌ as str_eq}
use text.Mathlib.TextEquality.{eq_iff}
use digcore.Base.Tests.{if◌then◌else◌, is_some}
use digcore.Base.Lists.{length}

abbrev pub Dict {ℓ} : Type ℓ → Type ℓ
Dict V = List (String × V)

module _ {ℓ} {V : Type ℓ} where
  unfoldable pub get : Dict V → String → Option V
  get [] k = none
  get ((j, v) ∷ d) k = if str_eq j k then some v else get d k

  unfoldable pub put : Dict V → String → V → Dict V
  put [] k v = (k, v) ∷ []
  put ((j, w) ∷ d) k v = if str_eq j k then (k, v) ∷ d else (j, w) ∷ put d k v

  unfoldable pub del : Dict V → String → Dict V
  del [] k = []
  del ((j, v) ∷ d) k = if str_eq j k then del d k else (j, v) ∷ del d k

  abbrev pub has : Dict V → String → Bool
  has d k = is_some (get d k)

  pub get-put :
      (d : Dict V) (k : String) (v : V) (j : String)
      → get (put d k v) j ≡ (if str_eq k j then some v else get d j)
  unfolding get put
  get-put [] k v j = refl
  get-put ((i, w) ∷ d) k v j = ground (arith, eq_iff k j, eq_iff i k, eq_iff i j, get-put d k v j)

  pub get-del :
      (d : Dict V) (k j : String) → get (del d k) j ≡ (if str_eq k j then none else get d j)
  unfolding get del
  get-del [] k j = ground arith
  get-del ((i, w) ∷ d) k j = ground (arith, eq_iff k j, eq_iff i k, eq_iff i j, get-del d k j)

  -- No key is stored twice.
  abbrev pub IsMap : Dict V → Type ℓ
  IsMap [] = Unit
  IsMap ((j, v) ∷ d) = (get d j ≡ none) × IsMap d

  pub put-IsMap : (d : Dict V) (k : String) (v : V) → IsMap d → IsMap (put d k v)
  unfolding get put
  put-IsMap [] k v m = (refl, tt)
  put-IsMap ((i, w) ∷ d) k v m =
      ground (arith, eq_iff i k, eq_iff k i, get-put d k v i, put-IsMap d k v m.1)

  pub del-IsMap : (d : Dict V) (k : String) → IsMap d → IsMap (del d k)
  unfolding get del
  del-IsMap [] k m = tt
  del-IsMap ((i, w) ∷ d) k m =
      ground (arith, eq_iff i k, eq_iff k i, get-del d k i, del-IsMap d k m.1)

  pub length-put :
      (d : Dict V) (k : String) (v : V)
      → length (put d k v) ≡ (if has d k then length d else length d + 1)
  unfolding get put
  length-put [] k v = refl
  length-put ((i, w) ∷ d) k v = ground (arith, length-put d k v)

  pub del_absent : (d : Dict V) (k : String) → get d k ≡ none → del d k ≡ d
  unfolding get del
  del_absent [] k h = refl
  del_absent ((i, w) ∷ d) k h = ground (arith, del_absent d k)

  pub length-del :
      (d : Dict V) (k : String) → IsMap d → length (del d k) + (if has d k then 1 else 0) ≡ length d
  unfolding get del
  length-del [] k m = omega arith
  length-del ((i, w) ∷ d) k m = ground (arith, eq_iff i k, length-del d k m.1, del_absent d k)
