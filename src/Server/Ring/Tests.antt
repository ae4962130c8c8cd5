-- ===== src/Server/Ring/Tests.antt =====
-- The ring buffer on concrete contents.
use digcore.Base.{ℕ, ◌≡◌, refl, none, some, [], ◌∷◌, arith}
use digcore.Base.Int.{pos, negsuc}
use digcore.Server.Ring.{RingBuffer, new, push, drain, drain_loop}
use digcore.Server.Ring.Refine.{IsValid, contents, push_refines, drain_refines}

-- 8, then 9 at the front of the storage; the next write goes to index 1.
abbrev wrapped : RingBuffer ℕ
wrapped = record { buf = some 9 ∷ none ∷ some 8 ∷ []; cap = 3; head = 1; count = 2 }

abbrev full : RingBuffer ℕ
full = record { buf = some 9 ∷ some 7 ∷ some 8 ∷ []; cap = 3; head = 2; count = 3 }

wrapped-IsValid : IsValid wrapped
wrapped-IsValid = omega arith

full-IsValid : IsValid full
full-IsValid = omega arith

new_default : (new {E = ℕ} (negsuc 4)).cap ≡ 1000
unfolding new
new_default = refl

drain_first :
    drain wrapped (pos 1)
    ≡ some (some 8 ∷ [], record wrapped { buf = some 9 ∷ none ∷ none ∷ []; count = 1 })
unfolding drain drain_loop
drain_first = refl

drain_negative : drain wrapped (negsuc 0) ≡ none
unfolding drain
drain_negative = refl

push_refines_example : contents (push full (some 1)) ≡ some 9 ∷ some 7 ∷ some 1 ∷ []
push_refines_example = push_refines full (some 1) full-IsValid

drain_refines_example :
    (r' : RingBuffer ℕ) × (drain full (pos 2) ≡ some (some 8 ∷ some 9 ∷ [], r'))
    × (contents r' ≡ some 7 ∷ [])
    × IsValid r'
    × (r'.cap ≡ 3)
drain_refines_example = drain_refines full 2 full-IsValid
