-- ===== src/Types/Event/Tests.antt =====
-- Events on concrete labels and thresholds.
use digcore.Base.{ℕ, Bool, [], ◌∷◌, ◌≡◌, refl, ltb, leb}
use digcore.Base.Dict
use digcore.Base.Dict.{Dict}
use digcore.Types.Event.{
  build_event, copy_into, evaluate_ge_threshold, set_attrs, set_current_value, set_event_status,
  set_event_time, set_description, status_critical, status_warning, status_ok,
}

abbrev gt : ℕ → ℕ → Bool
gt a b = ltb b a

abbrev ge : ℕ → ℕ → Bool
ge a b = leb b a

thresholds :
    (evaluate_ge_threshold gt ge 0 97 80 95 ≡ status_critical)
    × (evaluate_ge_threshold gt ge 0 85 80 95 ≡ status_warning)
    × (evaluate_ge_threshold gt ge 0 85 0 95 ≡ status_ok)
unfolding evaluate_ge_threshold
thresholds = (refl, refl, refl)

setters :
    (set_current_value
      (set_attrs
        (set_description (set_event_time (set_event_status (build_event []) "Info") 7) "d")
        (("a", "1") ∷ []))
      "5").attrs
    ≡ ("a", "1") ∷ ("current_value", "5") ∷ []
unfolding set_current_value set_attrs set_description set_event_time set_event_status build_event
    copy_into Dict.put
setters = refl
