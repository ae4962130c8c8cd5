-- ===== src/Types/Event/Labels.antt =====
-- What is read from label maps that were copied over one another.
use digcore.Base.{String, Option, none, some, List, [], ◌∷◌, ◌≡◌, refl, arith, eq_iff}
use digcore.Base.Dict
use digcore.Base.Dict.{Dict, IsMap, get-put}
use digcore.Types.Event.{copy_into, merge_all, build_event}

-- The first answer, and else the second.
abbrev pub or_else : Option String → Option String → Option String
or_else none o = o
or_else (some v) o = some v

pub get-copy_into :
    (d m : Dict String) (k : String)
    → IsMap m
    → Dict.get (copy_into d m) k ≡ or_else (Dict.get m k) (Dict.get d k)
unfolding copy_into Dict.get
get-copy_into d [] k u = refl
get-copy_into d ((j, v) ∷ m) k u =
    ground (arith, get-copy_into (Dict.put d j v) m k u.1, get-put d j v k, eq_iff j k)

abbrev pub AllMaps : List (Dict String) → Type 0
AllMaps [] = Unit {0}
AllMaps (m ∷ ms) = IsMap m × AllMaps ms

-- The last map that has the key decides.
abbrev pub last_answer : List (Dict String) → String → Option String
last_answer [] k = none
last_answer (m ∷ ms) k = or_else (last_answer ms k) (Dict.get m k)

get-merge_all :
    (d : Dict String) (ms : List (Dict String)) (k : String)
    → AllMaps ms
    → Dict.get (merge_all d ms) k ≡ or_else (last_answer ms k) (Dict.get d k)
unfolding merge_all
get-merge_all d [] k u = refl
get-merge_all d (m ∷ ms) k u =
    ground (arith, get-merge_all (copy_into d m) ms k u.1, get-copy_into d m k u.0)

-- A label of a built event is that of the last of the given maps that has its key, and is absent if
-- none has it.
pub get-build_event :
    (ms : List (Dict String)) (k : String)
    → AllMaps ms
    → Dict.get (build_event ms).labels k ≡ last_answer ms k
unfolding build_event Dict.get
get-build_event ms k u = ground (arith, get-merge_all [] ms k u)
