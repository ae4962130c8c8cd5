-- ===== src/Server/Reconnect/Laws.antt =====
-- The bounds on the waits between connections, and how they grow.
use digcore.Base.{
  ℕ, zero, suc, ◌*◌, ◌^◌, ◌≤◌, ◌<◌, ◌≡◌, ap, sym, ◌∙◌, false, List, [], ◌∷◌, replicate, min, ltb,
  Bool-cases, inl, inr, arith, get_or,
}
use native.Mathlib.Nat.{pow-suc}
use digcore.Base.Int.{pos, negsuc}
use digcore.Server.Reconnect.{
  RunError, no_error, disconnect, auth_failed, reconnect, other, clamp_backoff,
  next_reconnect_state, normal_min, normal_max, auth_min, auth_max, waits_from, run_forever,
}

-- Every wait of a list lies between two bounds.
abbrev pub AllBetween : ℕ → ℕ → List ℕ → Type 0
AllBetween lo hi [] = Unit {0}
AllBetween lo hi (w ∷ ws) = (lo ≤ w) × (w ≤ hi) × AllBetween lo hi ws

-- An error that is not nil, and does not ask for more than half an hour.
abbrev pub IsUsual : RunError → Type 0
IsUsual no_error = (zero ≡ 1)
IsUsual (disconnect (pos n)) = n ≤ 1800
IsUsual (disconnect (negsuc n)) = Unit {0}
IsUsual auth_failed = Unit {0}
IsUsual (reconnect reset) = Unit {0}
IsUsual other = Unit {0}

abbrev pub AllUsual : List RunError → Type 0
AllUsual [] = Unit {0}
AllUsual (e ∷ es) = IsUsual e × AllUsual es

step_bounds :
    (e : RunError) (backoff : ℕ)
    → IsUsual e
    → normal_min ≤ backoff
    → backoff ≤ auth_max
    → let (wait, next) = next_reconnect_state e backoff normal_min normal_max auth_min auth_max in
      (normal_min ≤ wait) × (wait ≤ auth_max) × (normal_min ≤ next) × (next ≤ auth_max)
unfolding next_reconnect_state clamp_backoff
step_bounds no_error backoff u l h = absurd (omega arith)
step_bounds (disconnect (pos n)) backoff u l h = ground arith
step_bounds (disconnect (negsuc n)) backoff u l h = ground arith
step_bounds auth_failed backoff u l h = ground arith
step_bounds (reconnect reset) backoff u l h = ground arith
step_bounds other backoff u l h = ground arith

waits_from-AllBetween :
    (es : List RunError) (backoff : ℕ)
    → AllUsual es
    → normal_min ≤ backoff
    → backoff ≤ auth_max
    → AllBetween normal_min auth_max (waits_from backoff es)
unfolding waits_from
waits_from-AllBetween [] backoff u l h = tt
waits_from-AllBetween (e ∷ es) backoff (u, us) l h =
    let (a, b, c, d) = step_bounds e backoff u l h in
    let next = (next_reconnect_state e backoff normal_min normal_max auth_min auth_max).1 in
    (a, b, waits_from-AllBetween es next us c d)

-- Whatever errors end the connections, none of them nil and no server asking for more than half an
-- hour: each wait of RunForever, before jitter, is at least a second and at most half an hour.
pub run_forever-AllBetween :
    (es : List RunError) → AllUsual es → AllBetween normal_min auth_max (run_forever es)
unfolding run_forever
run_forever-AllBetween es u = waits_from-AllBetween es normal_min u (omega arith) (omega arith)

pow_positive : (k : ℕ) → 0 < 2 ^ k
pow_positive zero = omega arith
pow_positive (suc k) = omega (arith, pow-suc 2 k, pow_positive k)

clamp_step :
    (p backoff : ℕ)
    → 0 < p
    → normal_min ≤ backoff
    → min (clamp_backoff (backoff * 2) normal_min normal_max * p) normal_max
      ≡ min (backoff * (p * 2)) normal_max
unfolding clamp_backoff
clamp_step zero backoff z l = absurd (omega arith)
clamp_step (suc q) backoff z l =
    let up : ltb (backoff * 2) normal_min ≡ false = ground arith in
    elim (Bool-cases (ltb normal_max (backoff * 2))) [
      | inl over ↦ let big : normal_max < backoff * 2 = ground arith in rw (up, over) (omega arith)
      | inr under ↦ rw (up, under) (omega arith)
    ]

doubling :
    (n k backoff : ℕ)
    → k < n
    → normal_min ≤ backoff
    → backoff ≤ normal_max
    → get_or (waits_from backoff (replicate n other)) k 0 ≡ min (backoff * 2 ^ k) normal_max
unfolding waits_from next_reconnect_state clamp_backoff
doubling zero k backoff h l u = absurd (omega arith)
doubling (suc n) zero backoff h l u = omega arith
doubling (suc n) (suc k) backoff h l u =
    let next = clamp_backoff (backoff * 2) normal_min normal_max in
    let ih = doubling n k next (omega arith) (ground arith) (ground arith) in
    ih
    ∙ clamp_step (2 ^ k) backoff (pow_positive k) l
    ∙ ap (λ x. min (backoff * x) normal_max) (sym (pow-suc 2 k))

-- While dialling fails time after time, the wait doubles from a second up to five minutes.
pub get_or-run_forever :
    (n k : ℕ)
    → k < n
    → get_or (run_forever (replicate n other)) k 0 ≡ min (normal_min * 2 ^ k) normal_max
unfolding run_forever
get_or-run_forever n k h = doubling n k normal_min h (omega arith) (omega arith)
