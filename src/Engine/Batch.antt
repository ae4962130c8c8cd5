-- ===== src/Engine/Batch.antt =====
-- The loop of PushRawEvents over a batch of pointers that are new to the cache.
use digcore.Base.{
  if-branch, ℕ, ◌≡◌, ◌≢◌, ◌∙◌, Bool, String, Option, none, some, List, [], ◌∷◌, arith,
}
use digcore.Types.Event.{Event}
use digcore.Engine.Clean.{Origin, clean}
use digcore.Engine.{Alerting, State, cache_get, write, dispatch, push_event, push_raw_events}
use digcore.Engine.Refine.{IsNew}
use digcore.Engine.Invariant.{Inv, Untouched, dispatch-Inv, dispatch-Untouched}

-- The pointers of a batch are new to the state, and each occurs once.
abbrev pub Absent : ℕ → List (Option ℕ) → Type 0
Absent p [] = Unit {0}
Absent p (none ∷ rest) = Absent p rest
Absent p (some q ∷ rest) = (q ≢ p) × Absent p rest

abbrev pub AllNew : State → List (Option ℕ) → Type 0
AllNew s [] = Unit {0}
AllNew s (none ∷ rest) = AllNew s rest
AllNew s (some p ∷ rest) = IsNew s p × Absent p rest × AllNew s rest

module _ (answer : ℕ → Bool) (o : Origin) (cfg : Alerting) (on : Bool) where
  -- `clean` leaves what the handler keeps in an event.
  clean_counts :
      (e : Event)
      → ((clean o e).0.notify_count ≡ e.notify_count) × ((clean o e).0.last_sent ≡ e.last_sent)
  unfolding clean
  clean_counts e = ground arith

  write_clean-Inv :
      (s : State) (p : ℕ) (e : Event)
      → Inv cfg s
      → ((k : String) → cache_get s k ≢ some p)
      → Inv cfg (write s p e)
  write_clean-Inv s p e v u = record {
    keyed = λ k q h. ground (arith, u k, v.keyed k q);
    capped = λ k q m h c l. ground (arith, u k, v.capped k q m);
  }

  push_event-Inv :
      (s : State) (p : ℕ) → Inv cfg s → IsNew s p → Inv cfg (push_event answer o cfg on s p)
  unfolding push_event
  push_event-Inv s p v n =
      if-branch (Inv cfg) (clean o (s.heap p)).1
        (dispatch-Inv answer cfg on _ p written (record {
          unstored = n.unstored;
          unsent = ground (arith, clean_counts (s.heap p));
          never = ground (arith, clean_counts (s.heap p));
        }))
        written
    where
      written : Inv cfg (write s p (clean o (s.heap p)).0)
      written = write_clean-Inv s p _ v n.unstored

  pub push_event-Untouched :
      (s : State) (p r : ℕ)
      → r ≢ p
      → ((k : String) → cache_get s k ≢ some r)
      → Untouched s (push_event answer o cfg on s p) r
  unfolding push_event
  push_event-Untouched s p r ne u =
      if-branch (λ t. Untouched s t r) (clean o (s.heap p)).1 (after.0, after.1 ∙ same) (u, same)
    where
      same : (write s p (clean o (s.heap p)).0).heap r ≡ s.heap r
      same = ground arith

      after :
          Untouched
            (write s p (clean o (s.heap p)).0)
            (dispatch answer cfg on (write s p (clean o (s.heap p)).0) p)
            r
      after = dispatch-Untouched answer cfg on _ p r ne u

  pub push_event-AllNew :
      (s : State) (p : ℕ) (rest : List (Option ℕ))
      → Absent p rest
      → AllNew s rest
      → AllNew (push_event answer o cfg on s p) rest
  push_event-AllNew s p [] a n = tt
  push_event-AllNew s p (none ∷ rest) a n = push_event-AllNew s p rest a n
  push_event-AllNew s p (some r ∷ rest) a n =
      let (unstored, same) = push_event-Untouched s p r a.0 n.0.unstored in
      (
        record { unstored = unstored; unsent = rw same n.0.unsent; never = rw same n.0.never },
        n.1,
        push_event-AllNew s p rest a.1 n.2,
      )

  -- Whatever a plugin pushes, as long as the events are new, the cache stays keyed by alert key and no
  -- alert is sent more often than its configured number.
  pub push_raw_events-Inv :
      (s : State) (events : List (Option ℕ))
      → AllNew s events
      → Inv cfg s
      → Inv cfg (push_raw_events answer o cfg on s events)
  unfolding push_raw_events
  push_raw_events-Inv s [] n v = v
  push_raw_events-Inv s (none ∷ rest) n v = push_raw_events-Inv s rest n v
  push_raw_events-Inv s (some p ∷ rest) n v =
      push_raw_events-Inv (push_event answer o cfg on s p) rest (push_event-AllNew s p rest n.1 n.2)
        (push_event-Inv s p v n.0)
