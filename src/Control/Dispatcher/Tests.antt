-- ===== src/Control/Dispatcher/Tests.antt =====
-- A run of the dispatcher, and an instance of its theorem.
use web_inspector.Prelude.{[], refl, some, throw, true, ℕ, ◌∷◌, ◌≡◌, string_eq, option_eq}
use web_inspector.Prelude.Dict.{lookup}
use web_inspector.Contracts.Commands.{accepted, update_agent}
use web_inspector.Control.Registry.{Registry, has_colon, id_of, no_live_session, session_for}
use web_inspector.Control.Dispatcher.{Dispatcher, has_in_flight_command, send}
use web_inspector.Control.Dispatcher.Held.{calls, held_until_settled, result_call}

abbrev nobody : Registry ℕ
nobody = record { nodes = []; sessions = [] }

abbrev fresh_dispatcher : Dispatcher
fresh_dispatcher = record { in_flight = [] }

unsent : (send fresh_dispatcher nobody (some "vm1") "cmd-1" update_agent).1 ≡ throw no_live_session
unfolding send session_for has_colon id_of lookup
unsent = refl

held_until_settled_example :
    has_in_flight_command
      (calls
        (send fresh_dispatcher nobody (some "vm1") "cmd-1" update_agent).0
        (result_call (some "vm1") "cmd-1" accepted ∷ []))
      (some "vm1")
      "update"
    ≡ true
held_until_settled_example =
    held_until_settled fresh_dispatcher nobody (some "vm1") "cmd-1" update_agent
      (result_call (some "vm1") "cmd-1" accepted ∷ []) ((λ _. refl), tt)
