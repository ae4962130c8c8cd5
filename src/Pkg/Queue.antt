-- ===== src/Pkg/Queue.antt =====
-- pkg/safe/queue.go: queues behind a lock. A linked list is the list of its values from the front. `T` is
-- no interface type, such as a pointer's, so the type assertion of a value that was pushed succeeds.
pub mod Laws
mod Tests
use digcore.Base.{
  ℕ, zero, suc, ◌+◌, Bool, true, false, Option, none, some, List, [], ◌∷◌, ◌==◌, ltb, if◌then◌else◌,
  length,
}
use digcore.Base.Int.{ℤ, pos, negsuc, reaches}

module _ {ℓ} {T : Type ℓ} where
  -- Remove of the last element of a linked list: its value, and the list without it.
  unfoldable pub take_back : List T → Option (T × List T)
  take_back [] = none
  take_back (x ∷ xs) = elim (take_back xs) [
    | none ↦ some (x, [])
    | some last ↦ some (last.0, x ∷ last.1)
  ]

  -- NewQueue
  abbrev pub new_queue : List T
  new_queue = []

  -- Queue.RemoveAll
  abbrev pub remove_all : List T → List T
  remove_all q = []

  -- Queue.Len
  abbrev pub queue_len : List T → ℕ
  queue_len q = length q

  -- Queue.PushFront
  abbrev pub push_front : List T → T → List T
  push_front q v = v ∷ q

  -- Queue.PushFrontN
  unfoldable pub push_front_n : List T → List T → List T
  push_front_n q [] = q
  push_front_n q (v ∷ vs) = push_front_n (v ∷ q) vs

  -- Queue.PopBack
  unfoldable pub pop_back : List T → Option T × List T
  unfolding take_back
  pop_back q = elim (take_back q) [ none ↦ (none, q) | some last ↦ (some last.0, last.1) ]

  -- The loop of Queue.PopBackN and PopBackAll.
  unfoldable pub pop_loop : ℕ → List T → List T × List T
  unfolding take_back
  pop_loop zero q = ([], q)
  pop_loop (suc n) q = elim (take_back q) [
    | none ↦ ([], q)
    | some last ↦ (last.0 ∷ (pop_loop n last.1).0, (pop_loop n last.1).1)
  ]

  -- Queue.PopBackN; a negative number panics, which is `none`, unless the queue is empty.
  unfoldable pub pop_back_n : List T → ℤ → Option (List T × List T)
  unfolding pop_loop
  pop_back_n [] n = some ([], [])
  pop_back_n (x ∷ q) (negsuc n) = none
  pop_back_n (x ∷ q) (pos n) =
      let count = length (x ∷ q) in some (pop_loop (if ltb n count then n else count) (x ∷ q))

  -- Queue.PopBackAll
  unfoldable pub pop_back_all : List T → List T × List T
  unfolding pop_loop
  pop_back_all q = if length q == 0 then ([], q) else pop_loop (length q) q

  -- QueueLimited.PushFront; `max_size` is the limit.
  unfoldable pub limited_push_front : ℤ → List T → T → Bool × List T
  limited_push_front max_size q v =
      if reaches (length q) max_size then (false, q) else (true, push_front q v)

  -- QueueLimited.PushFrontN
  unfoldable pub limited_push_front_n : ℤ → List T → List T → Bool × List T
  unfolding push_front_n
  limited_push_front_n max_size q vs =
      if reaches (length q) max_size then (false, q) else (true, push_front_n q vs)
