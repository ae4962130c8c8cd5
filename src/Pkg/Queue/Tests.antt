-- ===== src/Pkg/Queue/Tests.antt =====
-- A queue of numbers.
use digcore.Base.{ℕ, ◌≡◌, some, List, [], ◌∷◌, ◌++◌, take, drop}
use digcore.Base.Int.{pos}
use digcore.Pkg.Queue.{push_front_n, pop_back_n}
use digcore.Pkg.Queue.Laws.{fifo, pop_back_n-push_front_n}

pop_back_n-push_front_n_example :
    (r : List ℕ) × (pop_back_n (push_front_n (2 ∷ 1 ∷ []) (3 ∷ 4 ∷ [])) (pos 3)
      ≡ some (take 3 (fifo (2 ∷ 1 ∷ []) ++ (3 ∷ 4 ∷ [])), r))
    × (fifo r ≡ drop 3 (fifo (2 ∷ 1 ∷ []) ++ (3 ∷ 4 ∷ [])))
pop_back_n-push_front_n_example = pop_back_n-push_front_n (2 ∷ 1 ∷ []) (3 ∷ 4 ∷ []) 3
