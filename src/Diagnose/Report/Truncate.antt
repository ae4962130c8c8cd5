-- ===== src/Diagnose/Report/Truncate.antt =====
-- TruncateUTF8 of diagnose/report.go cuts between characters.
use digcore.Base.{
  ℕ, zero, suc, ◌+◌, ◌-◌, ◌≤◌, ◌<◌, ◌≡◌, refl, sym, ap, ◌∙◌, true, false, List, [], ◌∷◌, ◌++◌,
  append-nil, leb, if◌then◌else◌, length, take, get_or, arith, length-append, take-append_length,
  Bool-cases, inl, inr,
}
use digcore.Base.Int.{pos}
use digcore.Base.Utf8.{
  Bytes, rune_start, rune_bytes, encode, IsRune, Continues, rune_bytes-IsRune, encode-append,
}
use digcore.Diagnose.Report.{boundary, truncate_utf8}

-- The characters, from the first on, that fit into a number of bytes.
unfoldable pub whole : ℕ → List ℕ → List ℕ
whole n [] = []
whole n (c ∷ cs) =
    let rest = whole (n - length (rune_bytes c)) cs in
    if leb (length (rune_bytes c)) n then c ∷ rest else []

get_or-append : (r s : Bytes) (i : ℕ) → get_or (r ++ s) (length r + i) 0 ≡ get_or s i 0
get_or-append [] s i = ap (λ k. get_or s k 0) (omega arith)
get_or-append (b ∷ r) s i =
    let e : length (b ∷ r) + i ≡ suc (length r + i) = omega arith in rw e (get_or-append r s i)

-- A byte that continues a character starts none.
get_or-Continues :
    (bs s : Bytes) (i : ℕ)
    → Continues bs
    → i < length bs
    → rune_start (get_or (bs ++ s) i 0) ≡ false
get_or-Continues [] s i c h = absurd (omega arith)
get_or-Continues (b ∷ bs) s zero c h = c.0
get_or-Continues (b ∷ bs) s (suc i) c h = get_or-Continues bs s i c.1 (omega arith)

-- A position within the bytes that continue a character is no boundary.
boundary-Continues :
    (b : ℕ) (bs s : Bytes) (n : ℕ) → Continues bs → n ≤ length bs → boundary (b ∷ (bs ++ s)) n ≡ 0
unfolding boundary
boundary-Continues b bs s zero c h = refl
boundary-Continues b bs s (suc n) c h =
    rw (get_or-Continues bs s n c (omega arith), boundary-Continues b bs s n c (omega arith)) refl

-- Behind whole characters, the boundaries are those of the rest.
boundary-append :
    (b : ℕ) (r s : Bytes) (n : ℕ)
    → rune_start (get_or s 0 0) ≡ true
    → boundary (b ∷ (r ++ s)) (suc (length r) + n) ≡ suc (length r) + boundary s n
unfolding boundary
boundary-append b r s zero h =
    let e : suc (length r) + 0 ≡ suc (length r + 0) = omega arith in
    rw (e, get_or-append r s 0, h) (omega arith)
boundary-append b r s (suc n) h =
    let e : suc (length r) + suc n ≡ suc (length r + suc n) = omega arith in
    let f : length r + suc n ≡ suc (length r) + n = omega arith in
    elim (Bool-cases (rune_start (get_or s (suc n) 0))) [
      | inl start ↦ rw (e, get_or-append r s (suc n), start) (omega arith)
      | inr inside ↦ rw (e, get_or-append r s (suc n), inside, f) (boundary-append b r s n h)
    ]

encode-start : (cs : List ℕ) → rune_start (get_or (encode cs) 0 0) ≡ true
unfolding encode
encode-start [] = refl
encode-start (c ∷ cs) = first (rune_bytes c) (encode cs) (rune_bytes-IsRune c)
  where
    first : (r s : Bytes) → IsRune r → rune_start (get_or (r ++ s) 0 0) ≡ true
    first [] s h = absurd h
    first (b ∷ r) s h = h.0

-- The boundaries of a text that starts with a character are those of the rest, if it fits.
boundary-rune :
    (r s : Bytes) (n : ℕ)
    → IsRune r
    → rune_start (get_or s 0 0) ≡ true
    → boundary (r ++ s) n ≡ (if leb (length r) n then length r + boundary s (n - length r) else 0)
boundary-rune [] s n i h = absurd i
boundary-rune (b ∷ r) s n i h = elim (Bool-cases (leb (suc (length r)) n)) [
  | inl fit ↦
      let e : n ≡ suc (length r) + (n - suc (length r)) = ground arith in
      rw fit (ap (boundary (b ∷ (r ++ s))) e ∙ boundary-append b r s (n - suc (length r)) h)
  | inr cut ↦ rw cut (boundary-Continues b r s n i.1 (ground arith))
]

-- The last boundary within a number of bytes lies behind the characters that fit.
boundary-encode :
    (cs : List ℕ) (n : ℕ)
    → n < length (encode cs)
    → boundary (encode cs) n ≡ length (encode (whole n cs))
unfolding encode whole
boundary-encode [] n h = absurd (omega arith)
boundary-encode (c ∷ cs) n h =
    let r = rune_bytes c in
    let size = length-append r (encode cs) in
    let split = boundary-rune r (encode cs) n (rune_bytes-IsRune c) (encode-start cs) in
    elim (Bool-cases (leb (length r) n)) [
      | inl fit ↦
          let rest = boundary-encode cs (n - length r) (ground (arith, size)) in
          rw fit (split ∙ rw (fit, rest) (sym (length-append r (encode (whole (n - length r) cs)))))
      | inr cut ↦ rw cut (split ∙ rw cut refl)
    ]

-- The first of the characters, if there is one, does not fit behind a number of bytes.
abbrev pub TooLong : ℕ → ℕ → List ℕ → Type 0
TooLong n used [] = Unit
TooLong n used (c ∷ cs) = n < used + length (rune_bytes c)

TooLong-add :
    (es : List ℕ) (n used k : ℕ) → k ≤ n → TooLong (n - k) used es → TooLong n (k + used) es
TooLong-add [] n used k h t = tt
TooLong-add (c ∷ es) n used k h t = omega arith

-- The characters that fit are a prefix of the text, and the next one does not fit.
whole_lem :
    (cs : List ℕ) (n : ℕ)
    → (es : List ℕ) × (cs ≡ whole n cs ++ es)
      × (length (encode (whole n cs)) ≤ n)
      × TooLong n (length (encode (whole n cs))) es
unfolding encode whole
whole_lem [] n = ([], refl, omega arith, tt)
whole_lem (c ∷ cs) n = elim (Bool-cases (leb (length (rune_bytes c)) n)) [
  | inl fit ↦
      let (es, e, h, t) = whole_lem cs (n - length (rune_bytes c)) in
      let ds = whole (n - length (rune_bytes c)) cs in
      let size = length-append (rune_bytes c) (encode ds) in
      (
        es,
        rw fit (ap (◌∷◌ c) e),
        rw fit (ground (arith, size)),
        rw (fit, size)
            (TooLong-add es n (length (encode ds)) (length (rune_bytes c)) (ground arith) t),
      )
  | inr cut ↦ (c ∷ cs, rw cut refl, rw cut (omega arith), rw cut (ground arith))
]

-- Cut at the length of the characters that fit, the text has just their bytes.
take-encode :
    (cs : List ℕ) (n : ℕ) → take (length (encode (whole n cs))) (encode cs) ≡ encode (whole n cs)
take-encode cs n =
    let (es, e, h, t) = whole_lem cs n in
    ap (λ ds. take (length (encode (whole n cs))) (encode ds)) e
    ∙ ap (take (length (encode (whole n cs)))) (encode-append (whole n cs) es)
    ∙ take-append_length (encode (whole n cs)) (encode es)

encode-nil : (s : Bytes) → length s ≤ 0 → encode [] ≡ s
unfolding encode
encode-nil [] h = refl
encode-nil (b ∷ s) h = absurd (omega arith)

-- Of a text of characters, TruncateUTF8 keeps the longest prefix of whole characters that has at most
-- as many bytes as asked for.
pub truncate_utf8-encode :
    (cs : List ℕ) (n : ℕ)
    → (ds es : List ℕ) × (cs ≡ ds ++ es)
      × (truncate_utf8 (encode cs) (pos n) ≡ encode ds)
      × (length (encode ds) ≤ n)
      × TooLong n (length (encode ds)) es
unfolding truncate_utf8
truncate_utf8-encode cs n = elim (Bool-cases (leb (length (encode cs)) n)) [
  | inl short ↦ (cs, [], sym (append-nil cs), rw short refl, ground arith, tt)
  | inr long ↦
      let (es, e, h, t) = whole_lem cs n in
      let cut = boundary-encode cs n (ground arith) in
      let same = ap (λ k. take k (encode cs)) cut ∙ take-encode cs n in
      (
        whole n cs,
        es,
        e,
        elim (Bool-cases (leb n 0)) [
          | inl none_fits ↦ rw (long, none_fits) (encode-nil (encode (whole n cs)) (ground arith))
          | inr some_fit ↦ rw (long, some_fit) same
        ],
        h,
        t,
      )
]
