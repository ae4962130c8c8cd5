-- ===== src/Server/Tests.antt =====
-- Waits and sessions on concrete runs.
use digcore.Base.{◌+◌, ◌≡◌, refl, true, some, List, [], ◌∷◌, arith}
use digcore.Base.Int.{pos}
use digcore.Server.Reconnect.{
  RunError, disconnect, auth_failed, reconnect, other, clamp_backoff, next_reconnect_state,
  normal_min, auth_max, waits_from, run_forever,
}
use digcore.Server.Reconnect.Laws.{AllBetween, run_forever-AllBetween}
use digcore.Server.Session.{RemoteSession, new_session_manager}
use digcore.Server.Session.Laws.{
  Step, adds, removes, cancels_all, acts, taken, accounted, accounted-acts,
}

abbrev bad_day : List RunError
bad_day = other ∷ auth_failed ∷ other ∷ disconnect (pos 90) ∷ reconnect true ∷ []

bad_day_waits :
    run_forever bad_day ≡ 1000000000 ∷ 60000000000 ∷ 120000000000 ∷ 90000000000 ∷ 1000000000 ∷ []
unfolding run_forever waits_from next_reconnect_state clamp_backoff
bad_day_waits = refl

run_forever-AllBetween_example : AllBetween normal_min auth_max (run_forever bad_day)
run_forever-AllBetween_example =
    run_forever-AllBetween bad_day (tt, (tt, (tt, (omega arith, (tt, tt)))))

abbrev chat_session : RemoteSession
chat_session = record { session_id = "s1"; session_type = "chat"; cancel = some 4 }

abbrev comings : List Step
comings =
    adds chat_session ∷ adds chat_session ∷ removes "s1" ∷ adds chat_session ∷ cancels_all ∷ []

accounted-acts_example :
    accounted 4 (acts new_session_manager comings)
    ≡ accounted 4 new_session_manager + taken 4 new_session_manager comings
accounted-acts_example = accounted-acts 4 new_session_manager comings tt
