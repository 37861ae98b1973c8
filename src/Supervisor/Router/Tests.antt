-- ===== src/Supervisor/Router/Tests.antt =====
-- A run of the router, and instances of its theorems.
use web_inspector.Prelude.{List, [], refl, true, ◌++◌, ◌∷◌, ◌≡◌, ◌≤◌, string_eq}
use web_inspector.Prelude.Dict.{delete, insert, lookup}
use web_inspector.Contracts.Commands.{accepted, ping, reboot, succeeded}
use web_inspector.Supervisor.Router.{
  Event, begin, deliver, deliver_event, finish, fresh, report, settle, settle_event, step, steps,
}
use web_inspector.Supervisor.Router.Once.{executed_once, times}
use web_inspector.Supervisor.Router.Replays.{replay_reports}

abbrev twice : List Event
twice = deliver_event "cmd-1" reboot ∷ deliver_event "cmd-1" reboot ∷ settle_event "cmd-1" true ∷ []

twice_sent :
    (steps fresh (twice ++ (deliver_event "cmd-1" reboot ∷ []))).sent
    ≡ ("cmd-1", succeeded) ∷ ("cmd-1", succeeded) ∷ ("cmd-1", accepted) ∷ []
unfolding steps step deliver begin settle finish lookup insert delete
twice_sent = refl

executed_once_example : times "cmd-1" (steps fresh twice).dispatched ≤ 1
executed_once_example = executed_once twice "cmd-1"

replay_reports_example :
    let r = steps (steps fresh twice) (deliver_event "cmd-2" ping ∷ []) in
    deliver r "cmd-1" reboot ≡ report r "cmd-1" succeeded
unfolding steps step deliver begin settle finish lookup insert delete
replay_reports_example =
    replay_reports twice (deliver_event "cmd-2" ping ∷ []) "cmd-1" reboot succeeded refl refl
