-- ===== src/Notify.antt =====
-- notify/: the notifiers that send events over HTTP, with their retries, and notify.Forward over all of
-- them. What a request gives is an oracle for each attempt.
pub mod Laws
mod Tests
use digcore.Base.{
  ℕ, zero, suc, Bool, true, false, String, append, none, some, List, [], ◌∷◌, ◌++◌, str_eq, ltb,
  leb, not, ◌==◌, ◌||◌, ◌&&◌, if◌then◌else◌,
}
use digcore.Base.Int.{ℤ, pos, negsuc}
use digcore.Base.Dict
use digcore.Base.Dict.{Dict}
use digcore.Types.Event.{Event, copy_into}
use digcore.Diagnose.Forward.{desc_format_markdown}

-- What an attempt meets: NewRequest fails, the client does, or there is a response with a status, whose
-- body could be read or not.
pub data Reply : Type 0 where
  request_error : Reply
  client_error : Reply
  responded : ℕ → Bool → Reply

-- What doPost and doRequest make of it; `unmade` is a request that could not be made, and `refused` one
-- whose response is an error that is not retried.
pub data Verdict : Type 0 where
  unmade : Verdict
  sent : Verdict
  retryable : Verdict
  refused : Verdict

-- doPost of flashduty.go
unfoldable pub flashduty_verdict : Reply → Verdict
flashduty_verdict request_error = unmade
flashduty_verdict client_error = retryable
flashduty_verdict (responded status read) =
    if not read
    then retryable
    else if leb 500 status
    then retryable
    else if leb 400 status
    then refused
    else sent

-- doPost of pagerduty.go
unfoldable pub pagerduty_verdict : Reply → Verdict
pagerduty_verdict request_error = unmade
pagerduty_verdict client_error = retryable
pagerduty_verdict (responded status read) =
    if not read
    then retryable
    else if status == 202
    then sent
    else if status == 429 || leb 500 status
    then retryable
    else refused

-- doRequest of webapi.go, where a body that cannot be read is no error.
unfoldable pub web_api_verdict : Reply → Verdict
web_api_verdict request_error = unmade
web_api_verdict client_error = retryable
web_api_verdict (responded status read) =
    if leb 200 status && ltb status 300
    then sent
    else if status == 429 || leb 500 status
    then retryable
    else refused

-- The seconds waited before an attempt.
abbrev pub waits_before : ℕ → List ℕ
waits_before zero = []
waits_before (suc n) = suc n ∷ []

-- An attempt with its verdict, and what the attempts behind it give: whether the event was sent, the
-- seconds waited, and the number of requests that the client was given.
unfoldable pub attempted : Verdict → ℕ → Bool × List ℕ × ℕ → Bool × List ℕ × ℕ
attempted unmade attempt rest = (false, waits_before attempt, 0)
attempted sent attempt rest = (true, waits_before attempt, 1)
attempted refused attempt rest = (false, waits_before attempt, 1)
attempted retryable attempt (ok, waits, calls) = (ok, waits_before attempt ++ waits, suc calls)

-- The loop of Forward from an attempt on, with the attempts left.
unfoldable pub forward_loop : (ℕ → Verdict) → ℕ → ℕ → Bool × List ℕ × ℕ
unfolding attempted
forward_loop verdict attempt zero = (false, [], 0)
forward_loop verdict attempt (suc left) =
    attempted (verdict attempt) attempt (forward_loop verdict (suc attempt) left)

-- `attempt <= MaxRetries`, counted from 0.
abbrev pub attempts : ℤ → ℕ
attempts (pos n) = suc n
attempts (negsuc n) = 0

-- Forward of the notifiers, for an event that could be marshalled.
unfoldable pub forward : (Reply → Verdict) → ℤ → (ℕ → Reply) → Bool × List ℕ × ℕ
unfolding forward_loop
forward verdict max_retries world =
    forward_loop (λ attempt. verdict (world attempt)) 0 (attempts max_retries)

-- The loop over the results of notify.Forward.
unfoldable pub any_sent : List Bool → Bool
any_sent [] = false
any_sent (ok ∷ results) = if ok then true else any_sent results

-- notify.Forward, with the answers of the registered notifiers.
unfoldable pub forward_all : List Bool → Bool
unfolding any_sent
forward_all [] = false
forward_all (ok ∷ []) = ok
forward_all (ok ∷ another ∷ results) = any_sent (ok ∷ another ∷ results)

-- The payload of flashduty.go.
pub record FlashDutyPayload : Type 0 where
  pub event_time : ℕ
  pub event_status : String
  pub alert_key : String
  pub labels : Dict String
  pub title_rule : String
  pub description : String

-- The loop of toPayload over the attributes.
unfoldable pub add_attrs : Dict String → Dict String → Dict String
unfolding Dict.put
add_attrs labels [] = labels
add_attrs labels ((k, v) ∷ attrs) = add_attrs (Dict.put labels (append "_attr_" k) v) attrs

-- toPayload of flashduty.go; a label that is missing reads as "".
unfoldable pub to_payload : Event → FlashDutyPayload
unfolding add_attrs copy_into Dict.get
to_payload e = record {
  event_time = e.event_time;
  event_status = e.event_status;
  alert_key = e.alert_key;
  labels = add_attrs (copy_into [] e.labels) e.attrs;
  title_rule =
      if not (str_eq (elim (Dict.get e.labels "target") [ none ↦ "" | some v ↦ v ]) "")
      then "[TPL]${check} ${from_hostip} ${target}"
      else "[TPL]${check} ${from_hostip}";
  description =
      if str_eq e.description_format desc_format_markdown
      then append "[MD]" e.description
      else e.description;
}
