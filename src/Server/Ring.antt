-- ===== src/Server/Ring.antt =====
-- server/ringbuf.go: `RingBuffer`, over the type `E` of events. A slot holds a pointer, so it is an
-- option, and `none` is nil. A method runs under the buffer's mutex and is one step here; it returns
-- the new buffer beside its result.
pub mod Window
pub mod Refine
mod Tests
use digcore.Base.{
  ℕ, zero, suc, ◌+◌, ◌-◌, ◌%◌, Option, none, some, List, [], ◌∷◌, Bool, ltb, leb, ◌==◌, get_or, set,
  replicate, if◌then◌else◌,
}
use digcore.Base.Int.{ℤ, pos, negsuc, is_nonpos, to_nat}

pub record RingBuffer {ℓ} (E : Type ℓ) : Type ℓ where
  pub buf : List (Option E)
  pub cap : ℕ
  pub head : ℕ  -- next write position
  pub count : ℕ  -- number of elements currently in the buffer

abbrev pub default_capacity : ℕ
default_capacity = 1000

module _ {ℓ} {E : Type ℓ} where
  -- NewRingBuffer
  unfoldable pub new : ℤ → RingBuffer E
  new capacity =
      let n = if is_nonpos capacity then default_capacity else to_nat capacity in
      record { buf = replicate n none; cap = n; head = 0; count = 0 }

  -- Push: when the buffer is full, the write lands on the oldest slot.
  unfoldable pub push : RingBuffer E → Option E → RingBuffer E
  push r event = record r {
    buf = set r.buf r.head event;
    head = (r.head + 1) % r.cap;
    count = if ltb r.count r.cap then r.count + 1 else r.count;
  }

  -- The loop of Drain from round `i` on: what it reads, and the slots with those read set to nil.
  unfoldable pub drain_loop : ℕ → ℕ → ℕ → ℕ → List (Option E) → List (Option E) × List (Option E)
  drain_loop zero i tail cap buf = ([], buf)
  drain_loop (suc rounds) i tail cap buf =
      let idx = (tail + i) % cap in
      let (rest, buf') = drain_loop rounds (i + 1) tail cap (set buf idx none) in
      (get_or buf idx none ∷ rest, buf')

  -- `r.head - r.count + r.cap`, with the sum first, since it is not negative while count <= cap.
  abbrev pub tail_of : RingBuffer E → ℕ
  tail_of r = (r.head + r.cap - r.count) % r.cap

  abbrev pub drained : RingBuffer E → ℕ → List (Option E) × RingBuffer E
  drained r n =
      let (result, buf') = drain_loop n 0 (tail_of r) r.cap r.buf in
      (result, record r { buf = buf'; count = r.count - n })

  -- Drain: `none` is the panic of `make` at a negative length, which is met only if there is
  -- something to drain.
  unfoldable pub drain : RingBuffer E → ℤ → Option (List (Option E) × RingBuffer E)
  drain r (pos max_items) = some (
      if r.count == 0
      then ([], r)
      else drained r (if ltb max_items r.count then max_items else r.count))
  drain r (negsuc m) = if r.count == 0 then some ([], r) else none

  -- Len
  abbrev pub len : RingBuffer E → ℕ
  len r = r.count
