-- ===== src/Diagnose/State.antt =====
-- diagnose/state.go: the tokens used today and the cooldowns. The clock is an argument: `now` is
-- time.Now in nanoseconds since 1970, and `today` its date.
pub mod Laws
use digcore.Base.Int.{second}
use digcore.Base.{
  ℕ, ◌+◌, ◌*◌, ◌/◌, Bool, true, false, String, append, Option, none, some, List, [], ◌∷◌, leb,
  str_eq, if◌then◌else◌, select, not,
}
use digcore.Base.Dict
use digcore.Base.Dict.{Dict}
use digcore.Base.Int.{ℤ, is_nonpos, reaches}

-- DiagnoseState
pub record DiagnoseState : Type 0 where
  pub date : String
  pub input_tokens : ℕ
  pub output_tokens : ℕ
  pub cooldowns : Dict ℕ

-- time.Time.Unix
abbrev pub unix : ℕ → ℕ
unix now = now / second

abbrev pub cooldown_key : String → String → String
cooldown_key plugin target = append plugin (append "::" target)

-- NewDiagnoseState
unfoldable pub new_diagnose_state : String → DiagnoseState
new_diagnose_state today = record {
  date = today;
  input_tokens = 0;
  output_tokens = 0;
  cooldowns = [];
}

-- resetIfNewDay
unfoldable pub reset_if_new_day : String → DiagnoseState → DiagnoseState
reset_if_new_day today s =
    if str_eq s.date today
    then s
    else record s { date = today; input_tokens = 0; output_tokens = 0 }

-- AddTokens
unfoldable pub add_tokens : String → DiagnoseState → ℕ → ℕ → DiagnoseState
unfolding reset_if_new_day
add_tokens today s input output =
    let r = reset_if_new_day today s in
    record r { input_tokens = r.input_tokens + input; output_tokens = r.output_tokens + output }

-- TotalTokens
unfoldable pub total_tokens : String → DiagnoseState → DiagnoseState × ℕ
unfolding reset_if_new_day
total_tokens today s = let r = reset_if_new_day today s in (r, r.input_tokens + r.output_tokens)

-- IsDailyLimitReached
unfoldable pub is_daily_limit_reached : String → DiagnoseState → ℤ → DiagnoseState × Bool
unfolding total_tokens
is_daily_limit_reached today s limit =
    let (r, total) = total_tokens today s in
    if is_nonpos limit then (s, false) else (r, reaches total limit)

-- UpdateCooldown
unfoldable pub update_cooldown : ℕ → DiagnoseState → String → String → ℕ → DiagnoseState
unfolding Dict.put
update_cooldown now s plugin target duration = record s {
  cooldowns = Dict.put s.cooldowns (cooldown_key plugin target) (unix (now + duration));
}

-- IsCooldownActive; an expired entry is deleted.
unfoldable pub is_cooldown_active : ℕ → DiagnoseState → String → String → DiagnoseState × Bool
unfolding Dict.get Dict.del
is_cooldown_active now s plugin target =
    let key = cooldown_key plugin target in
    elim (Dict.get s.cooldowns key) [
      | none ↦ (s, false)
      | some expires ↦
          if leb expires (unix now)
          then (record s { cooldowns = Dict.del s.cooldowns key }, false)
          else (s, true)
    ]

-- cleanExpiredCooldowns
unfoldable pub clean_expired_cooldowns : ℕ → DiagnoseState → DiagnoseState
clean_expired_cooldowns now s = record s {
  cooldowns = select (λ e. not (leb e.1 (unix now))) s.cooldowns;
}

-- What reading and parsing the state file gives: no file, or the state as json.Unmarshal leaves it and
-- whether it failed.
pub data Stored : Type 0 where
  missing : Stored
  parsed : DiagnoseState → Stored
  malformed : DiagnoseState → Stored

-- Load
unfoldable pub load : ℕ → String → Stored → DiagnoseState → DiagnoseState
unfolding reset_if_new_day clean_expired_cooldowns
load now today missing s = s
load now today (parsed p) s = clean_expired_cooldowns now (reset_if_new_day today p)
load now today (malformed p) s =
    clean_expired_cooldowns now
      (reset_if_new_day today (record p { date = today; input_tokens = 0; output_tokens = 0 }))
