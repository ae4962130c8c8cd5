-- ===== src/Server/Flush/Tests.antt =====
-- A flush of two events while two more are pushed, with the connection open and with it done.
use digcore.Base.{
  ℕ, zero, suc, ◌≤◌, ◌≡◌, refl, true, false, none, some, List, [], ◌∷◌, Option, arith,
}
use digcore.Base.Int.{pos}
use digcore.Server.Ring.{RingBuffer, new, push, drain, drain_loop}
use digcore.Server.Ring.Refine.{IsValid, contents, new-IsValid, push-IsValid}
use digcore.Server.Flush.{Flushed, no_nil, flush_alert_events}
use digcore.Server.Flush.Laws.{Flow, flush_alert_events-Flow}

abbrev two : RingBuffer ℕ
two = push (push (new (pos 3)) (some 7)) (some 8)

abbrev two-IsValid : IsValid two
two-IsValid = push-IsValid _ (some 8) (push-IsValid _ (some 7) (new-IsValid (pos 3)).0)

abbrev batches_of : Option (Flushed ℕ) → List (List (Option ℕ))
batches_of none = []
batches_of (some f) = f.batches

abbrev lost_of : Option (Flushed ℕ) → List (Option ℕ)
lost_of none = []
lost_of (some f) = f.lost

-- Two events are pushed before the first Drain, and one before the second.
abbrev arrivals : ℕ → List (Option ℕ)
arrivals zero = some 9 ∷ some 10 ∷ []
arrivals (suc zero) = some 11 ∷ []
arrivals (suc (suc i)) = []

-- The buffer has room for three, so the oldest is dropped.
all_sent :
    batches_of (flush_alert_events (λ i. true) arrivals 6 two)
    ≡ (some 8 ∷ some 9 ∷ some 10 ∷ []) ∷ (some 11 ∷ []) ∷ []
unfolding flush_alert_events new push drain drain_loop
all_sent = refl

-- The events survive no connection that is done when they are flushed.
all_lost : lost_of (flush_alert_events (λ i. false) (λ i. []) 6 two) ≡ some 7 ∷ some 8 ∷ []
unfolding flush_alert_events new push drain drain_loop
all_lost = refl

-- A nil event is a panic.
nil_event : flush_alert_events (λ i. true) (λ i. []) 6 (push two none) ≡ none
unfolding flush_alert_events new push drain drain_loop
nil_event = refl

arrivals-no_nil : (j : ℕ) → no_nil (arrivals j) ≡ true
unfolding no_nil
arrivals-no_nil zero = refl
arrivals-no_nil (suc zero) = refl
arrivals-no_nil (suc (suc j)) = refl

arrivals_end : (j : ℕ) → 2 ≤ j → arrivals j ≡ []
arrivals_end zero h = absurd (omega arith)
arrivals_end (suc zero) h = absurd (omega arith)
arrivals_end (suc (suc j)) h = refl

abbrev two-no_nil : no_nil (contents two) ≡ true
unfolding no_nil push new
two-no_nil = refl

flush_alert_events-Flow_example :
    (f : Flushed ℕ) × (flush_alert_events (λ i. true) arrivals 6 two ≡ some f)
    × Flow (λ i. true) arrivals 3 0 (contents two) f.batches f.lost (contents f.ring)
    × IsValid f.ring
unfolding push new
flush_alert_events-Flow_example =
    flush_alert_events-Flow (λ i. true) arrivals 3 2 6 two two-IsValid refl two-no_nil
      arrivals-no_nil arrivals_end (omega arith)
