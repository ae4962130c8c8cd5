-- ===== src/Pkg/Queue/Laws.antt =====
-- A queue is first in, first out.
use digcore.Base.{
  ℕ, zero, suc, ◌≤◌, ◌≡◌, refl, sym, ap, ◌∙◌, none, some, List, [], ◌∷◌, ◌++◌, append_assoc,
  append-nil, ltb, length, length-append, take, drop, take_all, drop_all, Bool-cases, inl, inr,
  arith,
}
use digcore.Base.Int.{pos}
use digcore.Pkg.Queue.{take_back, push_front_n, pop_loop, pop_back_n}

module _ {ℓ} {T : Type ℓ} where
  -- The values in the order in which they leave: from the back.
  unfoldable pub fifo : List T → List T
  fifo [] = []
  fifo (x ∷ xs) = fifo xs ++ (x ∷ [])

  length-fifo : (q : List T) → length (fifo q) ≡ length q
  unfolding fifo
  length-fifo [] = refl
  length-fifo (x ∷ q) = omega (arith, length-append (fifo q) (x ∷ []), length-fifo q)

  fifo-push_front_n : (q vs : List T) → fifo (push_front_n q vs) ≡ fifo q ++ vs
  unfolding fifo push_front_n
  fifo-push_front_n q [] = sym (append-nil (fifo q))
  fifo-push_front_n q (v ∷ vs) = fifo-push_front_n (v ∷ q) vs ∙ append_assoc (fifo q) (v ∷ []) vs

  take_back_lem :
      (x : T) (q : List T)
      → (y : T) × (r : List T) × (take_back (x ∷ q) ≡ some (y, r)) × (fifo (x ∷ q) ≡ y ∷ fifo r)
  unfolding take_back fifo
  take_back_lem x [] = (x, [], refl, refl)
  take_back_lem x (z ∷ q) =
      let (y, r, e, f) = take_back_lem z q in (y, x ∷ r, rw e refl, ap (λ l. l ++ (x ∷ [])) f)

  pop_loop_step :
      (n : ℕ) (q r : List T) (y : T)
      → take_back q ≡ some (y, r)
      → pop_loop (suc n) q ≡ (y ∷ (pop_loop n r).0, (pop_loop n r).1)
  unfolding pop_loop
  pop_loop_step n q r y e =
      ap
        (λ o. elim o [
          | none ↦ ([], q)
          | some last ↦ (last.0 ∷ (pop_loop n last.1).0, (pop_loop n last.1).1)
        ])
        e

  pop_loop_lem :
      (n : ℕ) (q : List T)
      → ((pop_loop n q).0 ≡ take n (fifo q)) × (fifo (pop_loop n q).1 ≡ drop n (fifo q))
  unfolding pop_loop take_back fifo
  pop_loop_lem zero q = (refl, refl)
  pop_loop_lem (suc n) [] = (refl, refl)
  pop_loop_lem (suc n) (x ∷ q) =
      let (y, r, e, f) = take_back_lem x q in
      let ih = pop_loop_lem n r in
      let s = pop_loop_step n (x ∷ q) r y e in
      (
        ap (λ p. p.0) s ∙ ap (◌∷◌ y) ih.0 ∙ ap (take (suc n)) (sym f),
        ap (λ p. fifo p.1) s ∙ ih.1 ∙ ap (drop (suc n)) (sym f),
      )

  pop_back_n_lem :
      (q : List T) (n : ℕ)
      → (r : List T) × (pop_back_n q (pos n) ≡ some (take n (fifo q), r))
        × (fifo r ≡ drop n (fifo q))
  unfolding pop_back_n fifo
  pop_back_n_lem [] zero = ([], refl, refl)
  pop_back_n_lem [] (suc n) = ([], refl, refl)
  pop_back_n_lem (x ∷ q) n =
      let all = x ∷ q in
      elim (Bool-cases (ltb n (length all))) [
        | inl fewer ↦
            let l = pop_loop_lem n all in
            ((pop_loop n all).1, rw fewer (ap (λ p. some (p, (pop_loop n all).1)) l.0), l.1)
        | inr enough ↦
            let l = pop_loop_lem (length all) all in
            let size = length-fifo all in
            let short : length (fifo all) ≤ n = ground (arith, size) in
            let exact : length (fifo all) ≤ length all = omega (arith, size) in
            (
              (pop_loop (length all) all).1,
              rw enough (
                  ap (λ p. some (p, (pop_loop (length all) all).1))
                    (l.0
                      ∙ take_all (length all) (fifo all) exact
                      ∙ sym (take_all n (fifo all) short))),
              l.1 ∙ drop_all (length all) (fifo all) exact ∙ sym (drop_all n (fifo all) short),
            )
      ]

  -- After PushFrontN, PopBackN of a number that is not negative gives the values that waited and then
  -- the new ones in their order, up to that number, and leaves the others in theirs.
  pub pop_back_n-push_front_n :
      (q vs : List T) (n : ℕ)
      → (r : List T) × (pop_back_n (push_front_n q vs) (pos n) ≡ some (take n (fifo q ++ vs), r))
        × (fifo r ≡ drop n (fifo q ++ vs))
  pop_back_n-push_front_n q vs n =
      let (r, e, f) = pop_back_n_lem (push_front_n q vs) n in
      let same = fifo-push_front_n q vs in
      (r, e ∙ ap (λ l. some (take n l, r)) same, f ∙ ap (drop n) same)
