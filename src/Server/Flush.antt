-- ===== src/Server/Flush.antt =====
-- flushAlertEvents of server/conn.go: the buffered alert events go to the server in batches. It holds no
-- mutex, so events are pushed between its calls of Drain.
pub mod Laws
mod Tests
use digcore.Base.{
  ℕ, zero, suc, Bool, true, false, Option, none, some, List, [], ◌∷◌, if◌then◌else◌, is_some,
}
use digcore.Base.Int.{pos}
use digcore.Server.Ring.{RingBuffer, push, drain}

abbrev pub alert_flush_batch : ℕ
alert_flush_batch = 100

-- The batches that went to sendCh, the batch that was drained when the loop returned before sending it,
-- and the buffer.
pub record Flushed {ℓ} (E : Type ℓ) : Type ℓ where
  pub batches : List (List (Option E))
  pub lost : List (Option E)
  pub ring : RingBuffer E

module _ {ℓ} {E : Type ℓ} where
  -- SendAlertEvent, for one event after another.
  unfoldable pub push_all : RingBuffer E → List (Option E) → RingBuffer E
  unfolding push
  push_all r [] = r
  push_all r (e ∷ es) = push_all (push r e) es

  -- Whether the loop over a batch reads the fields of no nil event.
  unfoldable pub no_nil : List (Option E) → Bool
  no_nil [] = true
  no_nil (e ∷ es) = if is_some e then no_nil es else false

  unfoldable pub sent_before : List (Option E) → Option (Flushed E) → Option (Flushed E)
  sent_before batch none = none
  sent_before batch (some f) = some (record f { batches = batch ∷ f.batches })

  -- The body of the loop, for what Drain gives: `taken` tells whether the batch is encoded and taken by
  -- sendCh before the connection is done, and `go_on` is the rest of the loop.
  unfoldable pub flush_batch :
      Bool
      → (RingBuffer E → Option (Flushed E))
      → Option (List (Option E) × RingBuffer E)
      → Option (Flushed E)
  unfolding sent_before no_nil
  flush_batch taken go_on none = none
  flush_batch taken go_on (some ([], r)) = some (record { batches = []; lost = []; ring = r })
  flush_batch taken go_on (some (e ∷ es, r)) =
      let rest = sent_before (e ∷ es) (go_on r) in
      if no_nil (e ∷ es)
      then if taken then rest else some (record { batches = []; lost = e ∷ es; ring = r })
      else none

  -- flushAlertEvents on fuel, from batch `i` on, where the events `arrives i` are pushed before its
  -- Drain; no result stands for fuel that ran out or a panic.
  unfoldable pub flush_loop :
      (ℕ → Bool) → (ℕ → List (Option E)) → ℕ → ℕ → RingBuffer E → Option (Flushed E)
  unfolding flush_batch push_all
  flush_loop taken arrives zero i r = none
  flush_loop taken arrives (suc fuel) i r =
      flush_batch (taken i) (λ r'. flush_loop taken arrives fuel (suc i) r')
        (drain (push_all r (arrives i)) (pos alert_flush_batch))

  -- flushAlertEvents, with its fuel.
  unfoldable pub flush_alert_events :
      (ℕ → Bool) → (ℕ → List (Option E)) → ℕ → RingBuffer E → Option (Flushed E)
  unfolding flush_loop
  flush_alert_events taken arrives fuel r = flush_loop taken arrives fuel 0 r
