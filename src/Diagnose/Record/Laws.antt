-- ===== src/Diagnose/Record/Laws.antt =====
-- Which records are kept, and the bytes of a sanitized target.
use digcore.Base.{
  ℕ, suc, ◌+◌, ◌-◌, ◌<◌, ◌≤◌, ◌≡◌, refl, ap, Bool, true, false, some, List, [], ◌∷◌, All, take,
  drop, length, ltb, leb, ◌&&◌, ◌||◌, if◌then◌else◌, Bool-cases, and-cases, inl, inr, ◌⊎◌, ltb→lt,
  lt→ltb, leb→le, leb_false→lt, subst, le→leb, arith,
}
use digcore.Base.Int.{to_nat}
use digcore.Base.Utf8.{Bytes}
use digcore.Config.Ai.{AiConfig}
use digcore.Diagnose.Record.{
  FileEntry, Entry, plain_byte, sanitize_target, records_of, should_remove, remove_loop,
  cleanup_records,
}

-- Each record is at least as new as those behind it.
abbrev pub Newest : List FileEntry → Type 0
Newest [] = Unit
Newest (f ∷ fs) = All (λ g. g.mod_time ≤ f.mod_time) fs × Newest fs

-- There is a limit on the number of records, and so many come before.
abbrev pub Full : AiConfig → ℕ → Type 0
Full c i = (0 < to_nat c.diagnose_max_count) × (to_nat c.diagnose_max_count ≤ i)

-- There is a limit on the age of records, and the record is older.
abbrev pub Old : AiConfig → ℕ → FileEntry → Type 0
Old c now f = (0 < to_nat c.diagnose_retention) × (to_nat c.diagnose_retention < now - f.mod_time)

or-cases : (a b : Bool) → a || b ≡ true → (a ≡ true) ⊎ (b ≡ true)
or-cases true b e = inl refl
or-cases false b e = inr e

or-inr : (a : Bool) → a || true ≡ true
or-inr true = refl
or-inr false = refl

should_remove-cases :
    (c : AiConfig) (now i : ℕ) (f : FileEntry)
    → should_remove c now i f ≡ true
    → Full c i ⊎ Old c now f
unfolding should_remove
should_remove-cases c now i f e =
    let m = to_nat c.diagnose_max_count in
    let r = to_nat c.diagnose_retention in
    elim (or-cases (ltb 0 m && leb m i) (ltb 0 r && ltb r (now - f.mod_time)) e) [
      | inl h ↦ let (p, q) = and-cases (ltb 0 m) (leb m i) h in inl (ltb→lt 0 m p, leb→le m i q)
      | inr h ↦
          let (p, q) = and-cases (ltb 0 r) (ltb r (now - f.mod_time)) h in
          inr (ltb→lt 0 r p, ltb→lt r (now - f.mod_time) q)
    ]

should_remove-Full :
    (c : AiConfig) (now i : ℕ) (f : FileEntry) → Full c i → should_remove c now i f ≡ true
unfolding should_remove
should_remove-Full c now i f (p, q) =
    let m = to_nat c.diagnose_max_count in rw (lt→ltb 0 m p, le→leb m i q) refl

should_remove-Old :
    (c : AiConfig) (now i : ℕ) (f : FileEntry) → Old c now f → should_remove c now i f ≡ true
unfolding should_remove
should_remove-Old c now i f (p, q) =
    let m = to_nat c.diagnose_max_count in
    let r = to_nat c.diagnose_retention in
    rw (lt→ltb 0 r p, lt→ltb r (now - f.mod_time) q) (or-inr (ltb 0 m && leb m i))

-- Behind a record that is removed, each record is.
should_remove_mono :
    (c : AiConfig) (now i : ℕ) (f g : FileEntry)
    → g.mod_time ≤ f.mod_time
    → should_remove c now i f ≡ true
    → should_remove c now (suc i) g ≡ true
should_remove_mono c now i f g le e = elim (should_remove-cases c now i f e) [
  | inl (p, q) ↦ should_remove-Full c now (suc i) g (p, omega arith)
  | inr (p, q) ↦ should_remove-Old c now (suc i) g (p, omega arith)
]

remove_loop_all :
    (c : AiConfig) (now i : ℕ) (f : FileEntry) (fs : List FileEntry)
    → Newest (f ∷ fs)
    → should_remove c now i f ≡ true
    → remove_loop c now i (f ∷ fs) ≡ f ∷ fs
unfolding remove_loop
remove_loop_all c now i f [] n e = rw e refl
remove_loop_all c now i f (g ∷ fs) ((le, les), n) e =
    rw e (
      ap (λ gs. f ∷ gs)
        (remove_loop_all c now (suc i) g fs n (should_remove_mono c now i f g le e)))

-- The first of these records is full or old, if there is one.
abbrev pub Starts : AiConfig → ℕ → ℕ → List FileEntry → Type 0
Starts c now i [] = Unit
Starts c now i (f ∷ fs) = Full c i ⊎ Old c now f

-- Of records from index `i`, the first `k` are kept and the others removed.
abbrev pub IsCut : AiConfig → ℕ → ℕ → List FileEntry → List FileEntry → ℕ → Type 0
IsCut c now i fs removed k =
    (removed ≡ drop k fs)
    × (0 < to_nat c.diagnose_max_count → k ≤ to_nat c.diagnose_max_count - i)
    × All (λ f. ¬ Old c now f) (take k fs)
    × Starts c now (i + k) (drop k fs)

not-both : (b : Bool) → b ≡ true → b ≡ false → ⊥
not-both b t f = cc

-- A record more in front, which is kept.
kept-IsCut :
    (c : AiConfig) (now i k : ℕ) (f : FileEntry) (fs removed : List FileEntry)
    → should_remove c now i f ≡ false
    → IsCut c now (suc i) fs removed k
    → IsCut c now i (f ∷ fs) removed (suc k)
kept-IsCut c now i k f fs removed e (same, few, young, next) = (
  same,
  λ p. elim (Bool-cases (leb (to_nat c.diagnose_max_count) i)) [
    | inl le ↦
        elim (not-both (should_remove c now i f)
          (should_remove-Full c now i f (p, leb→le (to_nat c.diagnose_max_count) i le)) e) [ ]
    | inr gt ↦
        let lt = leb_false→lt (to_nat c.diagnose_max_count) i gt in let h = few p in omega arith
  ],
  (λ o. not-both (should_remove c now i f) (should_remove-Old c now i f o) e, young),
  subst (λ j. Starts c now j (drop k fs)) (omega arith) next,
)

remove_loop-IsCut :
    (c : AiConfig) (now i : ℕ) (fs : List FileEntry)
    → Newest fs
    → (k : ℕ) × IsCut c now i fs (remove_loop c now i fs) k
unfolding remove_loop
remove_loop-IsCut c now i [] n = (0, (refl, λ p. omega arith, tt, tt))
remove_loop-IsCut c now i (f ∷ fs) (h, n) = elim (Bool-cases (should_remove c now i f)) [
  | inl e ↦ (
    0,
    (
      remove_loop_all c now i f fs (h, n) e,
      λ p. omega arith,
      tt,
      subst (λ j. Full c j ⊎ Old c now f) (omega arith) (should_remove-cases c now i f e),
    ),
  )
  | inr e ↦
      let (k, cut) = remove_loop-IsCut c now (suc i) fs n in
      (suc k, rw e (kept-IsCut c now i k f fs (remove_loop c now (suc i) fs) e cut))
]

-- When sort.Slice sorts, CleanupRecords keeps the first records of the sorted list, and calls os.Remove
-- for all behind them: with a limit on their number, at most as many are kept; with a limit on their
-- age, no record that is kept is older; and the first record that is removed is over one of the limits.
pub cleanup_records-IsCut :
    (sort : List FileEntry → List FileEntry) (c : AiConfig) (now : ℕ) (es : List Entry)
    → ((fs : List FileEntry) → Newest (sort fs))
    → (k : ℕ) × IsCut c now 0 (sort (records_of es)) (cleanup_records sort c now (some es)) k
unfolding cleanup_records
cleanup_records-IsCut sort c now es sorted =
    remove_loop-IsCut c now 0 (sort (records_of es)) (sorted (records_of es))

safe_byte : (c : ℕ) (b : Bool) → plain_byte c ≡ b → plain_byte (if b then c else 95) ≡ true
unfolding plain_byte
safe_byte c true e = e
safe_byte c false e = refl

-- A sanitized target has as many bytes as the target, each a letter, a digit, `-` or `_`; and a target
-- of such bytes is kept as it is.
pub sanitize_target_lem :
    (target : Bytes)
    → All (λ c. plain_byte c ≡ true) (sanitize_target target)
      × (length (sanitize_target target) ≡ length target)
      × (All (λ c. plain_byte c ≡ true) target → sanitize_target target ≡ target)
unfolding sanitize_target
sanitize_target_lem [] = (tt, refl, λ h. refl)
sanitize_target_lem (c ∷ cs) =
    let (safe, long, same) = sanitize_target_lem cs in
    (
      (safe_byte c (plain_byte c) refl, safe),
      ap suc long,
      λ h. let (p, ps) = h in rw (p, same ps) refl,
    )
