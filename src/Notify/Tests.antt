-- ===== src/Notify/Tests.antt =====
-- An event that is sent at the second attempt, and its payload.
use digcore.Base.{ℕ, zero, suc, ◌≡◌, refl, true, [], ◌∷◌}
use digcore.Base.Int.{pos}
use digcore.Base.Dict
use digcore.Types.Event.{Event, copy_into}
use digcore.Notify.{
  Reply, responded, flashduty_verdict, pagerduty_verdict, web_api_verdict, forward, to_payload,
}
use digcore.Notify.Laws.{IsAsked, forward-IsAsked}

-- The server is overloaded at first.
abbrev recovering : ℕ → Reply
recovering attempt = elim attempt [ zero ↦ responded 503 true | suc n ↦ responded 202 true ]

second_try : forward flashduty_verdict (pos 2) recovering ≡ (true, 1 ∷ [], 2)
unfolding forward flashduty_verdict
second_try = refl

paged : forward pagerduty_verdict (pos 2) recovering ≡ (true, 1 ∷ [], 2)
unfolding forward pagerduty_verdict
paged = refl

posted : forward web_api_verdict (pos 2) recovering ≡ (true, 1 ∷ [], 2)
unfolding forward web_api_verdict
posted = refl

abbrev full : Event
full = record {
  event_time = 7;
  event_status = "Critical";
  alert_key = "k";
  labels = ("target", "/") ∷ [];
  attrs = ("size", "9") ∷ [];
  description = "full";
  description_format = "markdown";
  first_fire_time = 7;
  notify_count = 1;
  last_sent = 7;
}

payload : to_payload full ≡ record {
  event_time = 7;
  event_status = "Critical";
  alert_key = "k";
  labels = ("target", "/") ∷ ("_attr_size", "9") ∷ [];
  title_rule = "[TPL]${check} ${from_hostip} ${target}";
  description = "[MD]full";
}
unfolding to_payload Dict.get Dict.put copy_into
payload = refl

forward-IsAsked_example :
    (k : ℕ) × IsAsked
      (λ attempt. flashduty_verdict (recovering attempt))
      0
      3
      k
      (forward flashduty_verdict (pos 2) recovering)
forward-IsAsked_example = forward-IsAsked flashduty_verdict 2 recovering
