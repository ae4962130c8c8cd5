-- ===== src/Engine/Invariant.antt =====
-- What holds of the alert cache between two events, whatever a plugin pushes.
use digcore.Base.{
  if-branch, ℕ, ◌≤◌, ◌<◌, ◌≡◌, ◌≢◌, refl, ap, Bool, String, Option, none, some, str_eq, eq_iff,
  arith,
}
use digcore.Base.Dict.{get-put, get-del}
use digcore.Base.Int.{pos}
use digcore.Types.Event.{status_ok}
use digcore.Engine.{
  Alerting, State, cache_get, forward, handle_alert_event, alert_by, first_alert, repeated_alert,
  handle_recovery_event, recovery_by, may_trigger_diagnose, dispatch,
}
use digcore.Engine.Refine.{IsNew}

-- A key leads to an event that has it as its alert key, and that was not sent more often than the
-- configured number, where there is one.
pub record Inv (cfg : Alerting) (s : State) : Type 0 where
  pub keyed : (k : String) (q : ℕ) → cache_get s k ≡ some q → (s.heap q).alert_key ≡ k
  pub capped :
      (k : String) (q n : ℕ)
      → cache_get s k ≡ some q
      → cfg.repeat_number ≡ pos n
      → 0 < n
      → (s.heap q).notify_count ≤ n

-- The pointer `r` is unknown to the cache and its event is as it was.
abbrev pub Untouched : State → State → ℕ → Type 0
Untouched s s' r = ((k : String) → cache_get s' k ≢ some r) × (s'.heap r ≡ s.heap r)

module _ (answer : ℕ → Bool) (cfg : Alerting) (s : State) (p : ℕ) where
  abbrev key_of : String
  key_of = (s.heap p).alert_key

  alert_by-keyed :
      (o : Option ℕ) (k : String) (q : ℕ)
      → Inv cfg s
      → IsNew s p
      → cache_get s key_of ≡ o
      → cache_get (alert_by answer cfg s p o).0 k ≡ some q
      → ((alert_by answer cfg s p o).0.heap q).alert_key ≡ k
  unfolding first_alert repeated_alert
  alert_by-keyed none k q v n e h =
      ground (arith, get-put s.records key_of p k, eq_iff key_of k, v.keyed k q, n.unstored k)
  alert_by-keyed (some q0) k q v n e h =
      ground (arith, get-put s.records key_of p k, eq_iff key_of k, v.keyed k q, n.unstored k)

  alert_by-capped :
      (o : Option ℕ) (k : String) (q m : ℕ)
      → Inv cfg s
      → IsNew s p
      → cache_get s key_of ≡ o
      → cache_get (alert_by answer cfg s p o).0 k ≡ some q
      → cfg.repeat_number ≡ pos m
      → 0 < m
      → ((alert_by answer cfg s p o).0.heap q).notify_count ≤ m
  unfolding first_alert repeated_alert
  alert_by-capped none k q m v n e h c l =
      ground (arith, get-put s.records key_of p k, eq_iff key_of k, v.capped k q m, n.unstored k)
  alert_by-capped (some q0) k q m v n e h c l =
      ground (arith, get-put s.records key_of p k, eq_iff key_of k, v.capped k q m, n.unstored k)

  alert_by-Untouched :
      (o : Option ℕ) (r : ℕ)
      → r ≢ p
      → ((k : String) → cache_get s k ≢ some r)
      → Untouched s (alert_by answer cfg s p o).0 r
  unfolding first_alert repeated_alert
  alert_by-Untouched none r ne u =
      (λ k h. ground (arith, get-put s.records key_of p k, u k), ground arith)
  alert_by-Untouched (some q0) r ne u =
      (λ k h. ground (arith, get-put s.records key_of p k, u k), ground arith)

  -- An alert keeps the invariant.
  pub handle_alert_event-Inv : Inv cfg s → IsNew s p → Inv cfg (handle_alert_event answer cfg s p).0
  unfolding handle_alert_event
  handle_alert_event-Inv v n = record {
    keyed = λ k q. alert_by-keyed (cache_get s key_of) k q v n refl;
    capped = λ k q m. alert_by-capped (cache_get s key_of) k q m v n refl;
  }

  pub handle_alert_event-Untouched :
      (r : ℕ)
      → r ≢ p
      → ((k : String) → cache_get s k ≢ some r)
      → Untouched s (handle_alert_event answer cfg s p).0 r
  unfolding handle_alert_event
  handle_alert_event-Untouched r = alert_by-Untouched (cache_get s key_of) r

  -- A recovery only removes entries, and writes to no event.
  recovery_by-shrinks :
      (o : Option ℕ) (t : State) (k : String) (q : ℕ)
      → cache_get (recovery_by answer cfg t p o) k ≡ some q
      → cache_get t k ≡ some q
  unfolding forward
  recovery_by-shrinks none t k q h = h
  recovery_by-shrinks (some r) t k q h = ground (arith, get-del t.records (t.heap r).alert_key k)

  heap-recovery_by : (o : Option ℕ) (t : State) → (recovery_by answer cfg t p o).heap ≡ t.heap
  unfolding forward
  heap-recovery_by none t = refl
  heap-recovery_by (some r) t = ground arith

  handle_recovery_event-shrinks :
      (k : String) (q : ℕ)
      → cache_get (handle_recovery_event answer cfg s p) k ≡ some q
      → cache_get s k ≡ some q
  unfolding handle_recovery_event
  handle_recovery_event-shrinks k q h = recovery_by-shrinks (cache_get s key_of) _ k q h

  heap-handle_recovery_event : (handle_recovery_event answer cfg s p).heap ≡ s.heap
  unfolding handle_recovery_event
  heap-handle_recovery_event = heap-recovery_by (cache_get s key_of) _

  -- A recovery keeps the invariant.
  pub handle_recovery_event-Inv : Inv cfg s → Inv cfg (handle_recovery_event answer cfg s p)
  handle_recovery_event-Inv v = record {
    keyed =
        λ k q h. rw heap-handle_recovery_event (v.keyed k q (handle_recovery_event-shrinks k q h));
    capped = λ k q m h.
        rw heap-handle_recovery_event (v.capped k q m (handle_recovery_event-shrinks k q h));
  }

-- Marking a key as diagnosed touches neither the cache nor the events.
records-may_trigger_diagnose :
    (on : Bool) (s : State) (p : ℕ) → (may_trigger_diagnose on s p).records ≡ s.records
unfolding may_trigger_diagnose
records-may_trigger_diagnose on s p = ground arith

heap-may_trigger_diagnose :
    (on : Bool) (s : State) (p : ℕ) → (may_trigger_diagnose on s p).heap ≡ s.heap
unfolding may_trigger_diagnose
heap-may_trigger_diagnose on s p = ground arith

may_trigger_diagnose-Inv :
    (cfg : Alerting) (on : Bool) (s : State) (p : ℕ)
    → Inv cfg s
    → Inv cfg (may_trigger_diagnose on s p)
may_trigger_diagnose-Inv cfg on s p v = record {
  keyed = λ k q. rw (records-may_trigger_diagnose, heap-may_trigger_diagnose) (v.keyed k q);
  capped = λ k q m. rw (records-may_trigger_diagnose, heap-may_trigger_diagnose) (v.capped k q m);
}

module _ (answer : ℕ → Bool) (cfg : Alerting) (on : Bool) (s : State) (p : ℕ) where
  -- Every way through the loop body ends in one of four states.
  dispatch_cases {ℓ} :
      (P : State → Type ℓ)
      → P s
      → P (handle_recovery_event answer cfg s p)
      → P (handle_alert_event answer cfg s p).0
      → P (may_trigger_diagnose on (handle_alert_event answer cfg s p).0 p)
      → P (dispatch answer cfg on s p)
  unfolding dispatch
  dispatch_cases P a b c d = if-branch P cfg.disabled a (
      if-branch P (str_eq (s.heap p).event_status status_ok) b
        (if-branch P (handle_alert_event answer cfg s p).1 d c))

  -- So does the whole loop body.
  pub dispatch-Inv : Inv cfg s → IsNew s p → Inv cfg (dispatch answer cfg on s p)
  dispatch-Inv v n =
      dispatch_cases (Inv cfg) v (handle_recovery_event-Inv answer cfg s p v) alerted
        (may_trigger_diagnose-Inv cfg on _ p alerted)
    where
      alerted : Inv cfg (handle_alert_event answer cfg s p).0
      alerted = handle_alert_event-Inv answer cfg s p v n

  pub dispatch-Untouched :
      (r : ℕ)
      → r ≢ p
      → ((k : String) → cache_get s k ≢ some r)
      → Untouched s (dispatch answer cfg on s p) r
  dispatch-Untouched r ne u =
      dispatch_cases (λ t. Untouched s t r) (u, refl)
        (
          λ k h. u k (handle_recovery_event-shrinks answer cfg s p k r h),
          ap (λ h. h r) (heap-handle_recovery_event answer cfg s p),
        )
        alerted (rw (records-may_trigger_diagnose, heap-may_trigger_diagnose) alerted)
    where
      alerted : Untouched s (handle_alert_event answer cfg s p).0 r
      alerted = handle_alert_event-Untouched answer cfg s p r ne u
