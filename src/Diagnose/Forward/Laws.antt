-- ===== src/Diagnose/Forward/Laws.antt =====
-- Each alert key of a request gets the report exactly once.
use digcore.Base.{
  ℕ, ◌+◌, ◌≡◌, ap, sym, ◌∙◌, Bool, true, false, String, List, [], ◌∷◌, str_eq, eq_iff,
  if◌then◌else◌, arith, Bool-cases, inl, inr,
}
use digcore.Base.Dict
use digcore.Base.Dict.{Dict}
use digcore.Types.Event.{Event}
use digcore.Diagnose.Forward.{report_event, forward_loop, forward_report}

-- How many events of a list have an alert key, and whether one has.
unfoldable pub with_key : String → List Event → ℕ
with_key k [] = 0
with_key k (e ∷ es) = (if str_eq e.alert_key k then 1 else 0) + with_key k es

unfoldable pub has_key : String → List Event → Bool
has_key k [] = false
has_key k (e ∷ es) = if str_eq e.alert_key k then true else has_key k es

with_key-forward_loop :
    (now : ℕ) (desc : String) (es : List Event) (seen : Dict Bool) (k : String)
    → with_key k (forward_loop now desc seen es)
      ≡ (if Dict.has seen k then 0 else if has_key k es then 1 else 0)
unfolding with_key has_key forward_loop report_event
with_key-forward_loop now desc [] seen k = ground arith
with_key-forward_loop now desc (e ∷ es) seen k =
    let skip = with_key-forward_loop now desc es seen k in
    let sent = with_key-forward_loop now desc es (Dict.put seen e.alert_key true) k in
    let stored = Dict.get-put seen e.alert_key true k in
    elim (Bool-cases (Dict.has seen e.alert_key)) [
      | inl old ↦ elim (Bool-cases (str_eq e.alert_key k)) [
        | inl this ↦
            let known : Dict.has seen k ≡ true =
              ap (Dict.has seen) (sym ((eq_iff e.alert_key k).0 this)) ∙ old in
            rw (old, known) (rw known at skip)
        | inr other ↦ rw (old, other) skip
      ]
      | inr new ↦ elim (Bool-cases (str_eq e.alert_key k)) [
        | inl this ↦
            let unknown : Dict.has seen k ≡ false =
              ap (Dict.has seen) (sym ((eq_iff e.alert_key k).0 this)) ∙ new in
            let once = rw (stored, this) at sent in rw (new, unknown, this) (omega (arith, once))
        | inr other ↦ let same = rw (stored, other) at sent in rw (new, other) (omega (arith, same))
      ]
    ]

-- Of the events that forwardReport gives to the notifiers, exactly one has the alert key of an event of
-- the request, and none has another key.
pub with_key-forward_report :
    (now : ℕ) (desc : String) (events : List Event) (k : String)
    → with_key k (forward_report now desc events) ≡ (if has_key k events then 1 else 0)
unfolding forward_report Dict.get
with_key-forward_report now desc events k = with_key-forward_loop now desc events [] k
