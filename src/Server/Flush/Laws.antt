-- ===== src/Server/Flush/Laws.antt =====
-- A flush ends when no more events arrive, and loses no more than the batch that it was about to send.
use digcore.Base.{
  ℕ, zero, suc, ◌+◌, ◌≤◌, ◌<◌, ◌≡◌, refl, sym, ap, ◌∙◌, ◌⊎◌, inl, inr, Bool, true, false, Option,
  none, some, List, [], ◌∷◌, ◌++◌, append_assoc, append-nil, length, length-append, take, drop,
  length-take, length-drop, take-append-drop, arith, Bool-cases, subst, ltb, ◌&&◌, and-cases,
}
use digcore.Base.Int.{pos}
use digcore.Server.Ring.{RingBuffer, push, drain}
use digcore.Server.Ring.Refine.{
  IsValid, contents, push-IsValid, push_refines, drain_refines, length-contents, enqueue,
}
use digcore.Server.Flush.{
  alert_flush_batch, Flushed, push_all, no_nil, sent_before, flush_batch, flush_loop,
  flush_alert_events,
}

module _ {E : Type 0} where
  no_nil-append : (xs ys : List (Option E)) → no_nil (xs ++ ys) ≡ (no_nil xs && no_nil ys)
  unfolding no_nil
  no_nil-append [] ys = refl
  no_nil-append (x ∷ xs) ys = ground (arith, no_nil-append xs ys)

  no_nil-parts :
      (zs xs ys : List (Option E))
      → zs ≡ xs ++ ys
      → no_nil zs ≡ true
      → (no_nil xs ≡ true) × (no_nil ys ≡ true)
  no_nil-parts zs xs ys e h =
      and-cases (no_nil xs) (no_nil ys) (sym (no_nil-append xs ys) ∙ ap no_nil (sym e) ∙ h)

  nil_of_length : (xs : List (Option E)) → length xs ≤ 0 → xs ≡ []
  nil_of_length [] h = refl
  nil_of_length (x ∷ xs) h = absurd (omega arith)

  -- Of events that waited and events that arrived, in this order, those that wait then: all, or the last
  -- ones that fill the buffer.
  abbrev pub Waits : ℕ → List (Option E) → List (Option E) → List (Option E) → Type 0
  Waits cap before arrived now =
      (gone : List (Option E)) × (before ++ arrived ≡ gone ++ now)
      × ((gone ≡ []) ⊎ (length now ≡ cap))

  -- What one push drops.
  enqueue-gone :
      (cap : ℕ) (xs : List (Option E)) (e : Option E)
      → 0 < cap
      → length xs ≤ cap
      → Waits cap xs (e ∷ []) (enqueue cap xs e)
  enqueue-gone cap [] e p h = ([], ground arith, inl refl)
  enqueue-gone cap (x ∷ xs) e p h = elim (Bool-cases (ltb (suc (length xs)) cap)) [
    | inl room ↦ rw room ([], refl, inl refl)
    | inr full ↦
        let size : length (xs ++ (e ∷ [])) ≡ cap =
          ground (arith, full, length-append xs (e ∷ [])) in
        rw full (x ∷ [], refl, inr size)
  ]

  -- What events that are pushed drop.
  push_all-Waits :
      (r : RingBuffer E) (es : List (Option E))
      → IsValid r
      → IsValid (push_all r es)
        × ((push_all r es).cap ≡ r.cap)
        × Waits r.cap (contents r) es (contents (push_all r es))
  unfolding push_all push
  push_all-Waits r [] v = (v, refl, ([], append-nil (contents r), inl refl))
  push_all-Waits r (e ∷ es) v =
      let r1 = push r e in
      let small : length (contents r) ≤ r.cap = omega (arith, length-contents r, v.count_in) in
      let (g, split, some_gone) =
        subst (Waits r.cap (contents r) (e ∷ [])) (sym (push_refines r e v))
          (enqueue-gone r.cap (contents r) e v.positive small) in
      let (v', same, (g', split', more_gone)) = push_all-Waits r1 es (push-IsValid r e v) in
      let now = contents (push_all r1 es) in
      let fits : length now ≤ r.cap =
        omega (arith, length-contents (push_all r1 es), v'.count_in, same) in
      (
        v',
        same,
        (
          g ++ g',
          sym (append_assoc (contents r) (e ∷ []) es)
              ∙ ap (λ xs. xs ++ es) split
              ∙ append_assoc g (contents r1) es
              ∙ ap (λ xs. g ++ xs) split'
              ∙ sym (append_assoc g g' now),
          ends g g' (contents r1) now es fits split' some_gone more_gone,
        ),
      )
    where
      ends :
          (g g' before now es : List (Option E))
          → length now ≤ r.cap
          → before ++ es ≡ g' ++ now
          → (g ≡ []) ⊎ (length before ≡ r.cap)
          → (g' ≡ []) ⊎ (length now ≡ r.cap)
          → (g ++ g' ≡ []) ⊎ (length now ≡ r.cap)
      ends g g' before now es fits split a (inr full) = inr full
      ends g g' before now es fits split (inl none_gone) (inl none_more) =
          inl (ap (λ xs. xs ++ g') none_gone ∙ none_more)
      ends g g' before now es fits split (inr full) (inl none_more) =
          let all_here : before ++ es ≡ now = split ∙ ap (λ xs. xs ++ now) none_more in
          inr (omega (arith, ap length all_here, length-append before es))

module _ {E : Type 0} (taken : ℕ → Bool) (arrives : ℕ → List (Option E)) (cap : ℕ) where
  -- From batch `i` on, with `before` in the buffer: the events that wait at a Drain are those that the
  -- one before left and those pushed since, less the oldest above the capacity. A batch that is sent is
  -- the front of them, with 1 to 100 events; and in the end the buffer is empty, and nothing is lost, or
  -- a batch of 1 to 100 events could not be sent, and is lost.
  abbrev pub Flow :
      ℕ → List (Option E) → List (List (Option E)) → List (Option E) → List (Option E) → Type 0
  Flow i before [] lost left =
      Waits cap before (arrives i) (lost ++ left)
      × (((lost ≡ []) × (left ≡ []))
          ⊎ ((taken i ≡ false) × (0 < length lost) × (length lost ≤ alert_flush_batch)))
  Flow i before (batch ∷ batches) lost left =
      (after : List (Option E)) × Waits cap before (arrives i) (batch ++ after)
      × (taken i ≡ true)
      × (0 < length batch)
      × (length batch ≤ alert_flush_batch)
      × Flow (suc i) after batches lost left

  -- A flush gives a result, and it is as said.
  abbrev pub Flushes : ℕ → List (Option E) → Option (Flushed E) → Type 0
  Flushes i before o =
      (f : Flushed E) × (o ≡ some f)
      × Flow i before f.batches f.lost (contents f.ring)
      × IsValid f.ring

  sent-Flushes :
      (i : ℕ) (before after : List (Option E)) (e : Option E) (es : List (Option E))
      (o : Option (Flushed E))
      → Waits cap before (arrives i) ((e ∷ es) ++ after)
      → taken i ≡ true
      → length (e ∷ es) ≤ alert_flush_batch
      → Flushes (suc i) after o
      → Flushes i before (sent_before (e ∷ es) o)
  unfolding sent_before
  sent-Flushes i before after e es none w t h (f, n, flow, v) = cc
  sent-Flushes i before after e es (some g) w t h (f, s, flow, v) = (
    record f { batches = (e ∷ es) ∷ f.batches },
    ap (sent_before (e ∷ es)) s,
    (after, w, t, omega arith, h, flow),
    v,
  )

  -- The round for the batch that was drained from the events that wait.
  batch-Flushes :
      (i : ℕ) (before now batch : List (Option E)) (r' : RingBuffer E)
      (go_on : RingBuffer E → Option (Flushed E))
      → Waits cap before (arrives i) now
      → no_nil now ≡ true
      → batch ≡ take alert_flush_batch now
      → contents r' ≡ drop alert_flush_batch now
      → IsValid r'
      → (0 < length batch → Flushes (suc i) (contents r') (go_on r'))
      → Flushes i before (flush_batch (taken i) go_on (some (batch, r')))
  unfolding flush_batch
  batch-Flushes i before now [] r' go_on w n b d v more =
      let none_left : length now ≤ 0 =
        omega (arith, length-take alert_flush_batch now, ap length b) in
      let nothing = nil_of_length now none_left in
      let empty =
        nil_of_length (contents r')
          (omega (arith, ap length d, length-drop alert_flush_batch now)) in
      (
        record { batches = []; lost = []; ring = r' },
        refl,
        (subst (Waits cap before (arrives i)) (nothing ∙ sym empty) w, inl (refl, empty)),
        v,
      )
  batch-Flushes i before now (e ∷ es) r' go_on w n b d v more =
      let split : now ≡ (e ∷ es) ++ contents r' =
        sym (take-append-drop alert_flush_batch now) ∙ cc (b, d) in
      let small : length (e ∷ es) ≤ alert_flush_batch =
        omega (arith, length-take alert_flush_batch now, ap length b) in
      let whole = (no_nil-parts now (e ∷ es) (contents r') split n).0 in
      let w' = subst (Waits cap before (arrives i)) split w in
      elim (Bool-cases (taken i)) [
        | inl sent ↦
            rw (whole, sent)
              (sent-Flushes i before (contents r') e es (go_on r') w' sent small
                (more (omega arith)))
        | inr closed ↦ (
          record { batches = []; lost = e ∷ es; ring = r' },
          rw (whole, closed) refl,
          (w', inr (closed, omega arith, small)),
          v,
        )
      ]

  -- What the buffer before a round has to meet.
  abbrev Ready : RingBuffer E → Type 0
  Ready r = IsValid r × (r.cap ≡ cap) × (no_nil (contents r) ≡ true)

  round-Flushes :
      (i : ℕ) (r : RingBuffer E) (go_on : RingBuffer E → Option (Flushed E))
      → Ready r
      → no_nil (arrives i) ≡ true
      → ((r' : RingBuffer E)
          → Ready r'
          → (arrives i ≡ [] → r'.count < r.count)
          → Flushes (suc i) (contents r') (go_on r'))
      → Flushes i
          (contents r)
          (flush_batch (taken i) go_on (drain (push_all r (arrives i)) (pos alert_flush_batch)))
  unfolding push_all
  round-Flushes i r go_on (v, c, n) a more =
      let p = push_all r (arrives i) in
      let now = contents p in
      let (v1, same, (gone, split, full)) = push_all-Waits r (arrives i) v in
      let (r', e, left, v', kept) = drain_refines p alert_flush_batch v1 in
      let before : no_nil (contents r ++ arrives i) ≡ true =
        no_nil-append (contents r) (arrives i) ∙ rw (n, a) refl in
      let whole = (no_nil-parts (contents r ++ arrives i) gone now split before).1 in
      let parts =
        no_nil-parts now (take alert_flush_batch now) (drop alert_flush_batch now)
          (sym (take-append-drop alert_flush_batch now)) whole in
      let w = subst (λ m. Waits m (contents r) (arrives i) now) c (gone, split, full) in
      let quiet_size : arrives i ≡ [] → length now ≡ r.count =
        λ q. ap (λ es. length (contents (push_all r es))) q ∙ length-contents r in
      rw e (
        batch-Flushes i (contents r) now (take alert_flush_batch now) r' go_on w whole refl left v'
          (λ some_drained.
            more r' (v', kept ∙ same ∙ c, ap no_nil left ∙ parts.1)
              (λ q.
                let size = quiet_size q in
                omega (
                  arith,
                  size,
                  length-contents r',
                  ap length left,
                  length-drop alert_flush_batch now,
                  length-take alert_flush_batch now,
                ))))

  -- While nothing arrives, the buffer is emptied.
  quiet-Flushes :
      (fuel i : ℕ) (r : RingBuffer E)
      → Ready r
      → ((j : ℕ) → no_nil (arrives j) ≡ true)
      → ((j : ℕ) → i ≤ j → arrives j ≡ [])
      → r.count < fuel
      → Flushes i (contents r) (flush_loop taken arrives fuel i r)
  unfolding flush_loop
  quiet-Flushes zero i r ready a q h = absurd (omega arith)
  quiet-Flushes (suc fuel) i r ready a q h =
      round-Flushes i r (λ r'. flush_loop taken arrives fuel (suc i) r') ready (a i)
        (λ r' ready' less.
          let fewer = less (q i (omega arith)) in
          quiet-Flushes fuel (suc i) r' ready' a (λ j l. q j (omega arith)) (omega arith))

  busy-Flushes :
      (m fuel i : ℕ) (r : RingBuffer E)
      → Ready r
      → ((j : ℕ) → no_nil (arrives j) ≡ true)
      → ((j : ℕ) → m + i ≤ j → arrives j ≡ [])
      → m + cap < fuel
      → Flushes i (contents r) (flush_loop taken arrives fuel i r)
  unfolding flush_loop
  busy-Flushes zero fuel i r (v, c, n) a q h =
      quiet-Flushes fuel i r (v, c, n) a (λ j l. q j (omega arith)) (omega (arith, v.count_in, c))
  busy-Flushes (suc m) zero i r ready a q h = absurd (omega arith)
  busy-Flushes (suc m) (suc fuel) i r ready a q h =
      round-Flushes i r (λ r'. flush_loop taken arrives fuel (suc i) r') ready (a i)
        (λ r' ready' less.
          busy-Flushes m fuel (suc i) r' ready' a (λ j l. q j (omega arith)) (omega arith))

  -- A flush of a valid buffer without nil events, while events that are not nil may be pushed before each
  -- Drain, but none from the batch `quiet` on: it ends, after at most as many rounds as `quiet`, the
  -- capacity and one, whenever the connection does. At each Drain, the events that wait are those that
  -- the one before left and those pushed since, in this order, less the oldest above the capacity. Each
  -- batch sent is the front of them and has between 1 and 100 events; and in the end nothing waits and
  -- nothing is lost, or a batch of at most 100 events could not be sent and is lost.
  pub flush_alert_events-Flow :
      (quiet fuel : ℕ) (r : RingBuffer E)
      → IsValid r
      → r.cap ≡ cap
      → no_nil (contents r) ≡ true
      → ((j : ℕ) → no_nil (arrives j) ≡ true)
      → ((j : ℕ) → quiet ≤ j → arrives j ≡ [])
      → quiet + cap < fuel
      → (f : Flushed E) × (flush_alert_events taken arrives fuel r ≡ some f)
        × Flow 0 (contents r) f.batches f.lost (contents f.ring)
        × IsValid f.ring
  unfolding flush_alert_events
  flush_alert_events-Flow quiet fuel r v c n a q h =
      busy-Flushes quiet fuel 0 r (v, c, n) a (λ j l. q j (omega arith)) h
