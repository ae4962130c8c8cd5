-- ===== src/Engine/Track.antt =====
-- What the alert handler promises about one alert key, as a machine of its own: when the alert first
-- fired, how often it was sent and when last. It knows nothing of events, pointers or the cache.
use digcore.Base.{ℕ, ◌+◌, Bool, true, false, not, ◌&&◌, Option, none, some, if◌then◌else◌}
use digcore.Engine.{Alerting, too_soon, used_up, is_zero}

pub record Track : Type 0 where
  pub first : ℕ
  pub count : ℕ
  pub last : ℕ

-- Whether a tracked alert may be sent at time `now`.
abbrev pub due : Alerting → ℕ → Track → Bool
due cfg now k =
    not (too_soon cfg.for_duration now k.first)
    && not (used_up cfg.repeat_number k.count)
    && not (too_soon cfg.repeat_interval now k.last)

-- An alert at time `now`; `taken` says whether a notifier takes it, if it is tried.
abbrev pub alert : Alerting → ℕ → Bool → Option Track → Option Track × Bool
alert cfg now taken none =
    if is_zero cfg.for_duration && taken
    then (some (record { first = now; count = 1; last = now }), true)
    else (some (record { first = now; count = 0; last = 0 }), false)
alert cfg now taken (some k) =
    if due cfg now k && taken
    then (some (record { first = k.first; count = k.count + 1; last = now }), true)
    else (some k, false)
