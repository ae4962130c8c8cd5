-- ===== src/Server/Ring/Window.antt =====
-- The run of slots that a ring buffer holds, read round the end of its storage.
use native.Mathlib.Nat.{mod-add-mod, mod-eq_of_lt, mod-eq-sub-mod, add-zero}
use digcore.Base.{
  ℕ, zero, suc, ◌+◌, ◌-◌, ◌%◌, ◌<◌, ◌≤◌, ◌≡◌, ◌≢◌, refl, sym, ap, ◌∙◌, Option, none, List, [], ◌∷◌,
  ◌++◌, arith, dec_lt, length, get_or, set, take, drop, get_or-set_self, get_or-set_ne,
}

-- Fewer than `size` steps, and at least one, end on another slot.
step-ne : (size k d : ℕ) → 0 < d → d < size → (k + d) % size ≢ k % size
step-ne size k d h0 h e = elim (dec_lt (k % size + d) size) [
  | yes p ↦ omega (arith, reduced, e, mod-eq_of_lt p)
  | no p ↦ omega (
    arith,
    reduced,
    e,
    below,
    mod-eq-sub-mod {n = k % size + d} {m = size} (omega arith),
    mod-eq_of_lt {n = k % size + d - size} {m = size} (omega (arith, below)),
  )
]
  where
    below : k % size < size
    below = omega arith

    reduced : (k % size + d) % size ≡ (k + d) % size
    reduced = mod-add-mod k size d

module _ {ℓ} {E : Type ℓ} (size : ℕ) where
  abbrev pub slot : List (Option E) → ℕ → Option E
  slot buf k = get_or buf (k % size) none

  -- The `n` slots from position `k` on; positions count on past the end of the storage.
  abbrev pub window : List (Option E) → ℕ → ℕ → List (Option E)
  window buf k zero = []
  window buf k (suc n) = slot buf k ∷ window buf (k + 1) n

  pub length-window : (buf : List (Option E)) (k n : ℕ) → length (window buf k n) ≡ n
  length-window buf k zero = refl
  length-window buf k (suc n) = ap suc (length-window buf (k + 1) n)

  pub window_same :
      (buf : List (Option E)) (j k n : ℕ) → j % size ≡ k % size → window buf j n ≡ window buf k n
  window_same buf j k zero e = refl
  window_same buf j k (suc n) e =
      λ i. get_or buf (e i) none ∷ window_same buf (j + 1) (k + 1) n shifted i
    where
      shifted : (j + 1) % size ≡ (k + 1) % size
      shifted = sym (mod-add-mod j size 1) ∙ ap (λ m. (m + 1) % size) e ∙ mod-add-mod k size 1

  -- A write to a slot `d` steps before the window, all within one round, is not seen in it.
  pub window-set_before :
      (buf : List (Option E)) (v : Option E) (k d n : ℕ)
      → 0 < d
      → d + n ≤ size
      → window (set buf (k % size) v) (k + d) n ≡ window buf (k + d) n
  window-set_before buf v k d zero h0 h = refl
  window-set_before buf v k d (suc n) h0 h =
      let e : k + d + 1 ≡ k + (d + 1) = omega arith in
      let rest : window (set buf (k % size) v) (k + d + 1) n ≡ window buf (k + d + 1) n =
        rw e (window-set_before buf v k (d + 1) n (omega arith) (omega arith)) in
      let apart : k % size ≢ (k + d) % size = λ p. step-ne size k d h0 (omega arith) (sym p) in
      λ i. get_or-set_ne buf v none apart i ∷ rest i

  -- A write to the slot just past the window appends to it.
  pub window-set_end :
      (buf : List (Option E)) (v : Option E) (k n i : ℕ)
      → size ≡ length buf
      → n < size
      → i ≡ (k + n) % size
      → window (set buf i v) k (suc n) ≡ window buf k n ++ (v ∷ [])
  window-set_end buf v k zero i hl h e =
      rw (e, add-zero, get_or-set_self buf (k % size) v none (omega arith))
  window-set_end buf v k (suc n) i hl h e =
      let along : i ≡ (k + 1 + n) % size = e ∙ ap (λ j. j % size) (omega arith) in
      let rest = window-set_end buf v (k + 1) n i hl (omega arith) along in
      let apart : i ≢ k % size = rw e (step-ne size k (suc n) (omega arith) h) in
      λ j. get_or-set_ne buf v none apart j ∷ rest j

  pub take-window :
      (buf : List (Option E)) (k m n : ℕ) → take m (window buf k (m + n)) ≡ window buf k m
  take-window buf k zero n = refl
  take-window buf k (suc m) n =
      let e : suc m + n ≡ suc (m + n) = omega arith in
      rw e (ap (◌∷◌ (slot buf k)) (take-window buf (k + 1) m n))

  pub drop-window :
      (buf : List (Option E)) (k m n : ℕ) → drop m (window buf k (m + n)) ≡ window buf (k + m) n
  drop-window buf k zero n = let e : zero + n ≡ n = omega arith in rw (e, add-zero)
  drop-window buf k (suc m) n =
      let e : suc m + n ≡ suc (m + n) = omega arith in
      let f : k + suc m ≡ k + 1 + m = omega arith in rw (e, f) (drop-window buf (k + 1) m n)
