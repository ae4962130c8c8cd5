-- ===== src/Base/Utf8.antt =====
-- Texts as Go has them: bytes. A text of characters is the list of its code points, and its bytes are
-- their UTF-8 encodings.
use Prim.Native.Nat.{ℕ, ◌+◌, ◌/◌, ◌%◌}
use Prim.Native.Char.{code}
use Prim.Native.String.{String}
use mathlib.Core.Path.{◌≡◌, refl}
use mathlib.Core.Bool.{Bool, true, false, not}
use mathlib.Core.List.{List, [], ◌∷◌, ◌++◌, append_assoc}
use native.Mathlib.Omega.{arith}
use mathlib.Core.Logic.{inl, inr}
use digcore.Base.Tests.{ltb, ◌==◌, if◌then◌else◌, Bool-cases, if-branch}

abbrev pub Bytes : Type 0
Bytes = List ℕ

-- The UTF-8 encoding of a code point.
unfoldable pub rune_bytes : ℕ → Bytes
rune_bytes c =
    if ltb c 128
    then c ∷ []
    else if ltb c 2048
    then (192 + c / 64) ∷ (128 + c % 64) ∷ []
    else if ltb c 65536
    then (224 + c / 4096) ∷ (128 + c / 64 % 64) ∷ (128 + c % 64) ∷ []
    else (240 + c / 262144) ∷ (128 + c / 4096 % 64) ∷ (128 + c / 64 % 64) ∷ (128 + c % 64) ∷ []

-- utf8.RuneStart: the byte is not of the form 10xxxxxx.
abbrev pub rune_start : ℕ → Bool
rune_start b = not (b / 64 == 2)

unfoldable pub encode : List ℕ → Bytes
unfolding rune_bytes
encode [] = []
encode (c ∷ cs) = rune_bytes c ++ encode cs

-- The code points of a text, and its bytes.
abbrev pub codes : String → List ℕ
codes String.[] = []
codes (String.◌∷◌ c s) = code c ∷ codes s

abbrev pub literal : String → Bytes
literal s = encode (codes s)

pub encode-append : (cs ds : List ℕ) → encode (cs ++ ds) ≡ encode cs ++ encode ds
unfolding encode
encode-append [] ds = refl
encode-append (c ∷ cs) ds =
    cc (encode-append cs ds, append_assoc (rune_bytes c) (encode cs) (encode ds))

-- Bytes that continue a character.
abbrev pub Continues : Bytes → Type 0
Continues [] = Unit
Continues (b ∷ bs) = (rune_start b ≡ false) × Continues bs

-- A byte that starts a character, and bytes that continue it.
abbrev pub IsRune : Bytes → Type 0
IsRune [] = ⊥
IsRune (b ∷ bs) = (rune_start b ≡ true) × Continues bs

pub rune_bytes-IsRune : (c : ℕ) → IsRune (rune_bytes c)
unfolding rune_bytes
rune_bytes-IsRune c = elim (Bool-cases (ltb c 128)) [
  | inl one ↦ rw one (ground arith, tt)
  | inr more ↦ rw more (
      if-branch IsRune (ltb c 2048) (ground arith, (ground arith, tt))
        (if-branch IsRune (ltb c 65536) (ground arith, (ground arith, (ground arith, tt)))
          (ground arith, (ground arith, (ground arith, (ground arith, tt))))))
]
