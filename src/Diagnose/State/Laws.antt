-- ===== src/Diagnose/State/Laws.antt =====
-- Cooldowns as expiry times, and the tokens of a day.
use digcore.Base.{
  ℕ, ◌+◌, ◌≤◌, ◌≡◌, refl, ap, Bool, false, not, ◌&&◌, String, none, some, [], ◌∷◌, leb, ltb, str_eq,
  eq_iff, if◌then◌else◌, select, arith, Bool-cases, inl, inr,
}
use digcore.Base.Dict
use digcore.Base.Dict.{Dict}
use digcore.Base.Int.{ℤ, is_nonpos, reaches}
use digcore.Diagnose.State.{
  DiagnoseState, unix, cooldown_key, reset_if_new_day, add_tokens, total_tokens,
  is_daily_limit_reached, update_cooldown, is_cooldown_active, clean_expired_cooldowns, parsed,
  load,
}

-- Whether the cooldown of a key is active at a time: the expiry recorded for it is later.
unfoldable pub cooling : DiagnoseState → ℕ → String → Bool
unfolding Dict.get
cooling s now key = elim (Dict.get s.cooldowns key) [ none ↦ false | some e ↦ ltb (unix now) e ]

-- IsCooldownActive answers whether the cooldown of its key is active, and by dropping an expired entry
-- it changes this for no key, now or later; it leaves the tokens as they are.
pub is_cooldown_active_lem :
    (now later : ℕ) (s : DiagnoseState) (plugin target key : String)
    → now ≤ later
    → let (s', active) = is_cooldown_active now s plugin target in
      (active ≡ cooling s now (cooldown_key plugin target))
      × (cooling s' later key ≡ cooling s later key)
      × (s'.date ≡ s.date)
      × (s'.input_tokens ≡ s.input_tokens)
      × (s'.output_tokens ≡ s.output_tokens)
unfolding is_cooldown_active cooling
is_cooldown_active_lem now later s plugin target key h =
    let k = cooldown_key plugin target in
    let days : unix now ≤ unix later = omega arith in
    (
      ground arith,
      ground (arith, Dict.get-del s.cooldowns k key, eq_iff k key),
      ground arith,
      ground arith,
      ground arith,
    )

-- UpdateCooldown makes the cooldown of its key active exactly until the second of `now + duration`, and
-- leaves every other key's as it is.
pub update_cooldown_lem :
    (now later : ℕ) (s : DiagnoseState) (plugin target key : String) (duration : ℕ)
    → cooling (update_cooldown now s plugin target duration) later key ≡ (
        if str_eq (cooldown_key plugin target) key
        then ltb (unix later) (unix (now + duration))
        else cooling s later key)
unfolding update_cooldown cooling
update_cooldown_lem now later s plugin target key duration =
    ground
      (arith, Dict.get-put s.cooldowns (cooldown_key plugin target) (unix (now + duration)) key)

-- The tokens that count on a day.
unfoldable pub day_total : String → DiagnoseState → ℕ
day_total today s = if str_eq s.date today then s.input_tokens + s.output_tokens else 0

-- AddTokens adds to the tokens of its day, starting from 0 on a new day; and IsDailyLimitReached then
-- answers whether a limit that is positive is at most the day's tokens.
pub add_tokens_lem :
    (today : String) (s : DiagnoseState) (input output : ℕ) (limit : ℤ)
    → let s' = add_tokens today s input output in
      (day_total today s' ≡ day_total today s + (input + output))
      × ((is_daily_limit_reached today s' limit).1
          ≡ (not (is_nonpos limit) && reaches (day_total today s') limit))
unfolding add_tokens day_total reset_if_new_day is_daily_limit_reached total_tokens
add_tokens_lem today s input output limit =
    (ground (arith, eq_iff today today), ground (arith, eq_iff today today, eq_iff s.date today))

pub limit_lem :
    (today : String) (s : DiagnoseState) (limit : ℤ)
    → (is_daily_limit_reached today s limit).1
      ≡ (not (is_nonpos limit) && reaches (day_total today s) limit)
unfolding day_total reset_if_new_day is_daily_limit_reached total_tokens
limit_lem today s limit = ground arith

get-select :
    (f : String × ℕ → Bool) (d : Dict ℕ) (k : String)
    → Dict.IsMap d
    → Dict.get (select f d) k
      ≡ elim (Dict.get d k) [ none ↦ none | some v ↦ if f (k, v) then some v else none ]
unfolding Dict.get
get-select f [] k m = refl
get-select f ((j, v) ∷ d) k m = elim (Bool-cases (str_eq j k)) [
  | inl same ↦
      let e : j ≡ k = (eq_iff j k).0 same in
      let first : Dict.get d k ≡ none = rw e at (m.0) in
      let key : f (j, v) ≡ f (k, v) = ap (λ q. f (q, v)) e in ground (arith, get-select f d k m.1)
  | inr differ ↦ ground (arith, get-select f d k m.1)
]

-- Load of a file that parses takes over the tokens of its day and, for every key and from now on,
-- whether its cooldown is active; the expired entries that it drops change nothing.
pub load_lem :
    (now later : ℕ) (today key : String) (p s : DiagnoseState)
    → now ≤ later
    → Dict.IsMap p.cooldowns
    → let s' = load now today (parsed p) s in
      (cooling s' later key ≡ cooling p later key)
      × (day_total today s' ≡ day_total today p)
      × (s'.date ≡ today)
unfolding load cooling day_total reset_if_new_day clean_expired_cooldowns
load_lem now later today key p s h m =
    let days : unix now ≤ unix later = omega arith in
    (
      ground (arith, get-select (λ e. not (leb e.1 (unix now))) p.cooldowns key m),
      ground (arith, eq_iff today today),
      ground (arith, eq_iff p.date today),
    )
