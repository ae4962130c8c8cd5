-- ===== src/Server/Ring/Refine.antt =====
-- A ring buffer holds a FIFO of at most `cap` events that drops its oldest event when it is full.
use native.Mathlib.Nat.{mod-add-mod, mod-eq_of_lt, mod-eq-sub-mod}
use digcore.Base.{
  ℕ, zero, suc, ◌+◌, ◌-◌, ◌%◌, ◌<◌, ◌≤◌, ◌≡◌, refl, sym, ap, ◌∙◌, Option, none, some, List, [], ◌∷◌,
  ◌++◌, arith, ltb, ltb→lt, ◌==◌, if◌then◌else◌, length, get_or, set, take, drop, length-set,
  length-replicate, take_all, drop_all, Bool-cases, inl, inr,
}
use digcore.Base.Int.{ℤ, pos, negsuc, is_nonpos, to_nat}
use digcore.Server.Ring.{
  RingBuffer, new, push, drain_loop, drain, drained, tail_of, default_capacity,
}
use digcore.Server.Ring.Window.{
  window, length-window, window_same, window-set_before, window-set_end, take-window, drop-window,
}

-- The abstract buffer is the list of the pointers held, oldest first. At capacity it drops the
-- oldest to take a new one.
abbrev pub enqueue {ℓ} : {A : Type ℓ} → ℕ → List A → A → List A
enqueue size q x = if ltb (length q) size then q ++ (x ∷ []) else drop 1 q ++ (x ∷ [])

-- A step round the storage, and the same step taken back by going on round it.
round_trip : (size h : ℕ) → h < size → (h + size) % size ≡ h
round_trip size h p =
    mod-eq-sub-mod {n = h + size} {m = size} (omega arith)
    ∙ ap (λ j. j % size) (omega arith)
    ∙ mod-eq_of_lt p

start_moves :
    (size h c : ℕ) → c < size → ((h + 1) % size + size - (c + 1)) % size ≡ (h + size - c) % size
start_moves size h c p =
    let e : (h + 1) % size + size - (c + 1) ≡ (h + 1) % size + (size - (c + 1)) = omega arith in
    let f : h + size - c ≡ h + 1 + (size - (c + 1)) = omega arith in
    rw (e, f) (mod-add-mod (h + 1) size (size - (c + 1)))

module _ {ℓ} {E : Type ℓ} where
  pub record IsValid (r : RingBuffer E) : Type 0 where
    pub positive : 0 < r.cap
    pub storage : length r.buf ≡ r.cap
    pub head_in : r.head < r.cap
    pub count_in : r.count ≤ r.cap

  -- Where the oldest event stands, not yet reduced.
  abbrev pub start : RingBuffer E → ℕ
  start r = r.head + r.cap - r.count

  abbrev pub contents : RingBuffer E → List (Option E)
  contents r = window r.cap r.buf (start r) r.count

  -- NewRingBuffer gives a valid, empty buffer, of the capacity asked for if that is positive and of
  -- 1000 otherwise.
  pub new-IsValid :
      (capacity : ℤ)
      → IsValid (new {E = E} capacity)
        × (contents (new {E = E} capacity) ≡ [])
        × ((new {E = E} capacity).cap
            ≡ (if is_nonpos capacity then default_capacity else to_nat capacity))
  unfolding new
  new-IsValid (pos n) = ground (arith, length-replicate {A = Option E} n none)
  new-IsValid (negsuc n) = ground (arith, length-replicate {A = Option E} default_capacity none)

  -- Push keeps the invariant and the capacity.
  pub push-IsValid : (r : RingBuffer E) (e : Option E) → IsValid r → IsValid (push r e)
  unfolding push
  push-IsValid r e v = ground (arith, length-set r.buf r.head e)

  -- Push is the push of the abstract FIFO: below capacity it appends, at capacity it drops the oldest.
  pub push_refines :
      (r : RingBuffer E) (e : Option E)
      → IsValid r
      → contents (push r e) ≡ enqueue r.cap (contents r) e
  unfolding push
  push_refines r e v = elim (Bool-cases (ltb r.count r.cap)) [
    | inl room ↦
        let h : r.count < r.cap = ltb→lt r.count r.cap room in
        let e' : r.count + 1 ≡ suc r.count = omega arith in
        rw (length-window r.cap r.buf (start r) r.count, room, e')
          (window_same r.cap _ _ (start r) (suc r.count)
              (rw (← e') (start_moves r.cap r.head r.count h))
            ∙ window-set_end r.cap r.buf e (start r) r.count r.head (sym v.storage) h
                (sym (round_trip r.cap r.head v.head_in) ∙ ap (λ j. j % r.cap) (omega arith)))
    | inr full ↦
        let n = r.cap - 1 in
        let same : r.count ≡ suc n = ground arith in
        rw (length-window r.cap r.buf (start r) r.count, full, same)
          (window_same r.cap _ _ (r.head + 1) (suc n) (
              ap (λ j. j % r.cap) (omega arith)
              ∙ mod-add-mod (r.head + 1) r.cap 0
              ∙ ap (λ j. j % r.cap) (omega arith))
            ∙ window-set_end r.cap r.buf e (r.head + 1) n r.head (sym v.storage) (omega arith)
                (sym (round_trip r.cap r.head v.head_in) ∙ ap (λ j. j % r.cap) (omega arith))
            ∙ ap (λ j. window r.cap r.buf j n ++ (e ∷ [])) (omega arith))
  ]

  pub drain_loop_lem :
      (size n k t i : ℕ) (buf : List (Option E)) (m : ℕ)
      → (t + i) % size ≡ k % size
      → n + m ≤ size
      → ((drain_loop n i t size buf).0 ≡ window size buf k n)
        × (length (drain_loop n i t size buf).1 ≡ length buf)
        × (window size (drain_loop n i t size buf).1 (k + n) m ≡ window size buf (k + n) m)
  unfolding drain_loop
  drain_loop_lem size zero k t i buf m e h = (refl, refl, refl)
  drain_loop_lem size (suc n) k t i buf m e h =
      let next : (t + (i + 1)) % size ≡ (k + 1) % size =
        ap (λ j. j % size) (omega arith)
        ∙ sym (mod-add-mod (t + i) size 1)
        ∙ ap (λ j. (j + 1) % size) e
        ∙ mod-add-mod k size 1 in
      let buf1 = set buf ((t + i) % size) none in
      let fits : n + m ≤ size = omega arith in
      let ih = drain_loop_lem size n (k + 1) t (i + 1) buf1 m next fits in
      let unread : window size buf1 (k + 1) n ≡ window size buf (k + 1) n =
        rw e (window-set_before size buf none k 1 n (omega arith) (omega arith)) in
      let far : window size buf1 (k + suc n) m ≡ window size buf (k + suc n) m =
        rw e (window-set_before size buf none k (suc n) m (omega arith) (omega arith)) in
      let shift : k + 1 + n ≡ k + suc n = omega arith in
      (
        λ j. get_or buf (e j) none ∷ (ih.0 ∙ unread) j,
        ih.1 ∙ length-set buf ((t + i) % size) none,
        rw shift at (ih.2) ∙ far,
      )

  drained_lem :
      (r : RingBuffer E) (n rest : ℕ)
      → IsValid r
      → r.count ≡ n + rest
      → let (out, r') = drained r n in
        (out ≡ take n (contents r)) × (contents r' ≡ drop n (contents r)) × IsValid r'
  drained_lem r n rest v c =
      let t : (tail_of r + 0) % r.cap ≡ start r % r.cap =
        mod-add-mod (start r) r.cap 0 ∙ ap (λ j. j % r.cap) (omega arith) in
      let l = drain_loop_lem r.cap n (start r) (tail_of r) 0 r.buf rest t (omega arith) in
      let left : r.count - n ≡ rest = omega arith in
      let from : r.head + r.cap - (r.count - n) ≡ start r + n = omega arith in
      let parts = window r.cap r.buf (start r) in
      (
        l.0 ∙ sym (ap (λ q. take n (parts q)) c ∙ take-window r.cap r.buf (start r) n rest),
        (λ i. window r.cap (drain_loop n 0 (tail_of r) r.cap r.buf).1 (from i) (left i))
            ∙ l.2
            ∙ sym (ap (λ q. drop n (parts q)) c ∙ drop-window r.cap r.buf (start r) n rest),
        record {
          positive = v.positive;
          storage = l.1 ∙ v.storage;
          head_in = v.head_in;
          count_in = omega arith;
        },
      )

  pub length-contents : (r : RingBuffer E) → length (contents r) ≡ r.count
  length-contents r = length-window r.cap r.buf (start r) r.count

  -- Drain(maxItems) of a valid buffer returns the oldest `maxItems` events, or all if there are fewer,
  -- in the order they came; it leaves exactly the others, in their order, and keeps the invariant.
  pub drain_refines :
      (r : RingBuffer E) (max_items : ℕ)
      → IsValid r
      → (r' : RingBuffer E) × (drain r (pos max_items) ≡ some (take max_items (contents r), r'))
        × (contents r' ≡ drop max_items (contents r))
        × IsValid r'
        × (r'.cap ≡ r.cap)
  unfolding drain
  drain_refines r max_items v = elim (Bool-cases (r.count == 0)) [
    | inl empty ↦
        let z : r.count ≡ 0 = ground arith in
        let nothing : contents r ≡ [] = ap (window r.cap r.buf (start r)) z in
        let short : length (contents r) ≤ max_items = omega (arith, length-contents r) in
        (
          r,
          rw (empty, take_all max_items (contents r) short, nothing),
          rw (drop_all max_items (contents r) short) nothing,
          v,
          refl,
        )
    | inr some_left ↦ elim (Bool-cases (ltb max_items r.count)) [
      | inl fewer ↦
          let (out, kept, v') = drained_lem r max_items (r.count - max_items) v (ground arith) in
          ((drained r max_items).1, rw (some_left, fewer, ← out), kept, v', refl)
      | inr all ↦
          let (out, kept, v') = drained_lem r r.count 0 v (omega arith) in
          let short : length (contents r) ≤ max_items = ground (arith, length-contents r) in
          let exact : length (contents r) ≤ r.count = omega (arith, length-contents r) in
          (
            (drained r r.count).1,
            rw (
              some_left,
              all,
              take_all max_items (contents r) short,
              ← take_all r.count (contents r) exact,
              ← out,
            ),
            kept
                ∙ drop_all r.count (contents r) exact
                ∙ sym (drop_all max_items (contents r) short),
            v',
            refl,
          )
    ]
  ]
