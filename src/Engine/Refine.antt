-- ===== src/Engine/Refine.antt =====
-- The cache and the events behind it, seen as one track for each alert key.
use digcore.Base.{
  ℕ, ◌≡◌, ◌≢◌, refl, Bool, false, not, ◌&&◌, String, Option, none, some, ◌∷◌, ltb, str_eq, eq_iff,
  if◌then◌else◌, arith, length, inl, inr, Option-cases,
}
use digcore.Base.Dict
use digcore.Base.Dict.{get-put, get-del}
use digcore.Types.Event.{Event}
use digcore.Engine.{
  Alerting, State, cache_get, handle_alert_event, alert_by, first_alert, repeated_alert,
  handle_recovery_event,
}
use digcore.Engine.Track.{Track, alert}

abbrev pub track_of : Event → Track
track_of e = record { first = e.first_fire_time; count = e.notify_count; last = e.last_sent }

abbrev pub view_at : (ℕ → Event) → Option ℕ → Option Track
view_at h none = none
view_at h (some q) = some (track_of (h q))

-- What the state knows of an alert key.
abbrev pub view : State → String → Option Track
view s k = view_at s.heap (cache_get s k)

-- The event at `p` was never stored: no key leads to it, and it has not been sent.
pub record IsNew (s : State) (p : ℕ) : Type 0 where
  pub unstored : (k : String) → cache_get s k ≢ some p
  pub unsent : (s.heap p).notify_count ≡ 0
  pub never : (s.heap p).last_sent ≡ 0

-- Whether the end of an alert is reported.
abbrev pub recovers : Alerting → Option Track → Bool
recovers cfg none = false
recovers cfg (some k) = not cfg.disable_recovery_notification && ltb 0 k.last

module _ (answer : ℕ → Bool) (cfg : Alerting) (s : State) (p : ℕ) where
  -- The answer that a call of notify.Forward would get now.
  abbrev pub next_answer : Bool
  next_answer = answer (length s.forwarded)

  first_alert_refines :
      IsNew s p
      → let (s', sent) = first_alert answer cfg s p in
        let (k', sent') = alert cfg (s.heap p).event_time next_answer none in
        (view s' (s.heap p).alert_key ≡ k') × (sent ≡ sent')
  unfolding first_alert
  first_alert_refines n = ground (arith, get-put s.records key p key, eq_iff key key)
    where
      key : String
      key = (s.heap p).alert_key

  repeated_alert_refines :
      (q : ℕ)
      → IsNew s p
      → cache_get s (s.heap p).alert_key ≡ some q
      → let (s', sent) = repeated_alert answer cfg s p q in
        let (k', sent') =
          alert cfg (s.heap p).event_time next_answer (some (track_of (s.heap q))) in
        (view s' (s.heap p).alert_key ≡ k') × (sent ≡ sent')
  unfolding repeated_alert
  repeated_alert_refines q n e =
      ground (arith, get-put s.records key p key, eq_iff key key, n.unstored key)
    where
      key : String
      key = (s.heap p).alert_key

  alert_by_refines :
      (o : Option ℕ)
      → IsNew s p
      → cache_get s (s.heap p).alert_key ≡ o
      → let (s', sent) = alert_by answer cfg s p o in
        let (k', sent') = alert cfg (s.heap p).event_time next_answer (view_at s.heap o) in
        (view s' (s.heap p).alert_key ≡ k') × (sent ≡ sent')
  alert_by_refines none n e = first_alert_refines n
  alert_by_refines (some q) n e = repeated_alert_refines q n e

  -- For an event that is not stored yet, what an alert does to the state is what the abstract machine
  -- does to the track of its key, and the handler reports that it was sent exactly when the machine
  -- does.
  pub handle_alert_event_refines :
      IsNew s p
      → let (s', sent) = handle_alert_event answer cfg s p in
        let (k', sent') =
          alert cfg (s.heap p).event_time next_answer (view s (s.heap p).alert_key) in
        (view s' (s.heap p).alert_key ≡ k') × (sent ≡ sent')
  unfolding handle_alert_event
  handle_alert_event_refines n = alert_by_refines (cache_get s (s.heap p).alert_key) n refl

  -- An alert leaves every other key as it was.
  pub view-handle_alert_event_ne :
      (k : String)
      → IsNew s p
      → k ≢ (s.heap p).alert_key
      → view (handle_alert_event answer cfg s p).0 k ≡ view s k
  unfolding handle_alert_event
  view-handle_alert_event_ne k n ne =
      ground (arith, get-put s.records key p k, eq_iff key k, n.unstored k)
    where
      key : String
      key = (s.heap p).alert_key

  -- Every key leads to an event with that alert key.
  abbrev pub IsKeyed : State → Type 0
  IsKeyed t = (k : String) (q : ℕ) → cache_get t k ≡ some q → (t.heap q).alert_key ≡ k

  -- A recovery forgets the alert of its key, keeps the tracks of all others, and allows its key to be
  -- diagnosed again. It hands its event to the notifiers exactly when the alert was sent before and
  -- recovery notifications are not disabled.
  pub handle_recovery_event_lem :
      (k : String)
      → ((q : ℕ)
          → cache_get s (s.heap p).alert_key ≡ some q
          → (s.heap q).alert_key ≡ (s.heap p).alert_key)
      → let s' = handle_recovery_event answer cfg s p in
        let key = (s.heap p).alert_key in
        (view s' k ≡ (if str_eq key k then none else view s k))
        × (Dict.get s'.diagnosed k ≡ (if str_eq key k then none else Dict.get s.diagnosed k))
        × (s'.forwarded
            ≡ (if recovers cfg (view s key) then s.heap p ∷ s.forwarded else s.forwarded))
  unfolding handle_recovery_event
  handle_recovery_event_lem k keyed = elim (Option-cases (cache_get s key)) [
    | inl e ↦ ground (arith, get-del s.diagnosed key k, eq_iff key k)
    | inr (q, e) ↦ ground (arith, get-del s.diagnosed key k, get-del s.records key k, keyed q)
  ]
    where
      key : String
      key = (s.heap p).alert_key
