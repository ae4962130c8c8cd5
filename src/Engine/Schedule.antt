-- ===== src/Engine/Schedule.antt =====
-- When the notifications of one alert are sent.
use digcore.Base.Int.{second}
use digcore.Base.{
  ℕ, ◌+◌, ◌≤◌, ◌<◌, ◌/◌, ◌≡◌, ◌≢◌, sym, ◌∙◌, Bool, true, false, String, none, some, List, [], ◌∷◌,
  if◌then◌else◌, arith, Bool-cases, inl, inr,
}
use digcore.Base.Int.{pos}
use digcore.Engine.{Alerting, State, handle_alert_event}
use digcore.Engine.Track.{Track, alert}
use digcore.Engine.Refine.{IsNew, view, next_answer, handle_alert_event_refines}
use digcore.Engine.Invariant.{handle_alert_event-Untouched}

-- The times of the events that are sent when alerts at these pointers are handled in turn.
unfoldable pub sent_times : (ℕ → Bool) → Alerting → State → List ℕ → List ℕ
sent_times answer cfg s [] = []
sent_times answer cfg s (p ∷ ps) =
    let rest = sent_times answer cfg (handle_alert_event answer cfg s p).0 ps in
    if (handle_alert_event answer cfg s p).1 then (s.heap p).event_time ∷ rest else rest

-- Distinct new events with one alert key.
abbrev Avoids : ℕ → List ℕ → Type 0
Avoids p [] = Unit {0}
Avoids p (q ∷ ps) = (q ≢ p) × Avoids p ps

abbrev pub Alerts : State → String → List ℕ → Type 0
Alerts s key [] = Unit {0}
Alerts s key (p ∷ ps) = IsNew s p × ((s.heap p).alert_key ≡ key) × Avoids p ps × Alerts s key ps

-- Send times that a configuration allows after an alert with this track: none before the duration is
-- over that the alert has to last, none closer to the last one than the interval, and not more than
-- the number of repeats. A setting of 0 puts no limit.
abbrev pub Allowed : ℕ → ℕ → ℕ → Track → List ℕ → Type 0
Allowed for every times k [] = Unit {0}
Allowed for every times k (t ∷ ts) =
    (0 < for → k.first + for / second ≤ t)
    × (0 < every → k.last + every / second ≤ t)
    × (0 < times → k.count < times)
    × Allowed for every times (record k { count = k.count + 1; last = t }) ts

Alerts-handle :
    (answer : ℕ → Bool) (cfg : Alerting) (s : State) (key : String) (p : ℕ) (ps : List ℕ)
    → Avoids p ps
    → Alerts s key ps
    → Alerts (handle_alert_event answer cfg s p).0 key ps
Alerts-handle answer cfg s key p [] a n = tt
Alerts-handle answer cfg s key p (r ∷ ps) a (n, e, others, rest) =
    let (unstored, same) = handle_alert_event-Untouched answer cfg s p r a.0 n.unstored in
    (
      record { unstored = unstored; unsent = rw same n.unsent; never = rw same n.never },
      rw same e,
      others,
      Alerts-handle answer cfg s key p ps a.1 rest,
    )

module _ (answer : ℕ → Bool) (cfg : Alerting) (for every times : ℕ)
    (cf : cfg.for_duration ≡ pos for) (ce : cfg.repeat_interval ≡ pos every)
    (ct : cfg.repeat_number ≡ pos times) where
  sent-limits :
      (k : Track) (now : ℕ) (taken : Bool)
      → (alert cfg now taken (some k)).1 ≡ true
      → (0 < for → k.first + for / second ≤ now)
        × (0 < every → k.last + every / second ≤ now)
        × (0 < times → k.count < times)
        × ((alert cfg now taken (some k)).0 ≡ some (record k { count = k.count + 1; last = now }))
  sent-limits k now taken h =
      (λ l. ground arith, λ l. ground arith, λ l. ground arith, ground arith)

  unsent-keeps :
      (k : Track) (now : ℕ) (taken : Bool)
      → (alert cfg now taken (some k)).1 ≡ false
      → (alert cfg now taken (some k)).0 ≡ some k
  unsent-keeps k now taken h = ground arith

  tracked-Allowed :
      (s : State) (key : String) (k : Track) (ps : List ℕ)
      → view s key ≡ some k
      → Alerts s key ps
      → Allowed for every times k (sent_times answer cfg s ps)
  unfolding sent_times
  tracked-Allowed s key k [] v a = tt
  tracked-Allowed s key k (p ∷ ps) v (n, e, others, rest) =
      let now = (s.heap p).event_time in
      let taken = next_answer answer cfg s p in
      let s' = (handle_alert_event answer cfg s p).0 in
      let later = Alerts-handle answer cfg s key p ps others rest in
      let (became, same) = rw (e, v) at (handle_alert_event_refines answer cfg s p n) in
      elim (Bool-cases (handle_alert_event answer cfg s p).1) [
        | inl sent ↦
            let (lasted, spaced, counted, next) = sent-limits k now taken (sym same ∙ sent) in
            rw sent (
              lasted,
              spaced,
              counted,
              tracked-Allowed s' key (record k { count = k.count + 1; last = now }) ps
                  (became ∙ next) later,
            )
        | inr unsent ↦ rw unsent (
            tracked-Allowed s' key k ps (became ∙ unsent-keeps k now taken (sym same ∙ unsent))
              later)
      ]

  -- The first alert of a key fires at its event's time. Whatever the notifiers answer, and however many
  -- alerts of the key follow, the notifications after the first alert obey the configuration: none
  -- before the alert has lasted `for_duration`, none less than `repeat_interval` after the one before,
  -- and no more than `repeat_number` together with the first.
  pub sent_times-Allowed :
      (s : State) (key : String) (p : ℕ) (ps : List ℕ)
      → view s key ≡ none
      → Alerts s key (p ∷ ps)
      → let (s', sent) = handle_alert_event answer cfg s p in
        let now = (s.heap p).event_time in
        let k : Track = record {
          first = now;
          count = if sent then 1 else 0;
          last = if sent then now else 0;
        } in
        (sent ≡ true → for ≡ 0) × Allowed for every times k (sent_times answer cfg s' ps)
  sent_times-Allowed s key p ps v (n, e, others, rest) =
      let s' = (handle_alert_event answer cfg s p).0 in
      let later = Alerts-handle answer cfg s key p ps others rest in
      let (became, same) = rw (e, v) at (handle_alert_event_refines answer cfg s p n) in
      elim (Bool-cases (handle_alert_event answer cfg s p).1) [
        | inl sent ↦
            rw sent (λ _. ground arith, tracked-Allowed _ key _ ps (became ∙ ground arith) later)
        | inr unsent ↦ rw unsent (λ x. cc, tracked-Allowed _ key _ ps (became ∙ ground arith) later)
      ]
