-- ===== src/Config/Identity/Tests.antt =====
-- The identity of an agent over two minutes.
use digcore.Base.{
  ℕ, ◌*◌, ◌≡◌, refl, String, append, some, [], ◌∷◌, All, true, inl, if◌then◌else◌, ltb,
}
use digcore.Base.Int.{second}
use digcore.Base.Dict
use digcore.Base.Dict.{Dict}
use digcore.Config.Identity.{Env, Identity, agent_identity, resolve_global_labels}
use digcore.Config.Identity.Laws.{IsCurrent, answers, answers-IsCurrent}

-- An environment without variables, and the expansion of "node-${IP}".
abbrev plain : Env
plain = record { trim = λ s. s; getenv = λ k. ""; expand = λ s f. append "node-" (f "IP") }

abbrev nothing : Identity
nothing = record { auto_detect = true; cached = ""; cached_at = 0 }

-- The address changes in the second minute.
abbrev detected : ℕ → String
detected now = if ltb now (60 * second) then "10.0.0.1" else "10.0.0.2"

abbrev labels : Dict String
labels = ("from_hostip", "node-${IP}") ∷ []

-- The identity of the address behind resolveGlobalLabels at the start.
abbrev resolved : Identity
resolved = (resolve_global_labels plain "h" (detected 0) 0 labels [] nothing nothing).1.1

-- In the first minute, the answer is the label as it was expanded; behind it, the address alone.
prefix_lost :
    answers plain detected (some labels) "from_hostip" (1 ∷ 61 * second ∷ []) resolved
    ≡ (1, "node-10.0.0.1") ∷ (61 * second, "10.0.0.2") ∷ []
unfolding agent_identity resolve_global_labels Dict.get Dict.put
prefix_lost = refl

answers-IsCurrent_example :
    All
      (λ a. IsCurrent plain detected (some labels) "from_hostip" true a.0 a.1)
      (answers plain detected (some labels) "from_hostip" (1 ∷ 2 ∷ 61 * second ∷ []) nothing)
answers-IsCurrent_example =
    answers-IsCurrent plain detected (some labels) "from_hostip" (1 ∷ 2 ∷ 61 * second ∷ []) nothing
      (inl refl)
