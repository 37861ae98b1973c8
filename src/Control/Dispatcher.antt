-- ===== src/Control/Dispatcher.antt =====
-- control-plane/control/dispatcher.mjs: the commands that are in flight to each node. A node name
-- may be `undefined`, which is `none`. Of a command the id and the verb are kept; events are left
-- out.
pub mod Held
mod Tests
use web_inspector.Prelude.{
  Bool, Option, Result, String, [], exists, false, get_or, if◌then◌else◌, none, some, true, ◌==◌,
  string_eq, option_eq,
}
use web_inspector.Prelude.Dict.{Dict, delete, insert, lookup, values}
use web_inspector.Contracts.Commands.{
  ResultStatus, Verb, cancel_job, dispatch_job, drain, failed, reboot, rejected, set_config,
  succeeded, superseded, undrain, update_agent, update_control_plane_agent, verb_text,
}
use web_inspector.Control.Registry.{Registry, RegistryError, session_for}

pub record Pending : Type 0 where
  pub verb : Verb
  pub category : String

pub record Dispatcher : Type 0 where
  pub in_flight : Dict (Option String) (Dict String Pending)

-- `CATEGORY[command] || command`
abbrev pub category_of : Verb → String
category_of update_agent = "update"
category_of update_control_plane_agent = "update"
category_of set_config = "set_config"
category_of reboot = "reboot"
category_of drain = "drain"
category_of undrain = "drain"
category_of dispatch_job = "job"
category_of cancel_job = "job"
category_of verb = verb_text verb

-- `bucket(nodeName)`, and `inFlight.get(nodeName)` where it is missing
unfoldable pub bucket : Dispatcher → Option String → Dict String Pending
bucket d name = get_or (lookup name d.in_flight) []

-- The first step of `send`: the command is in flight.
unfoldable pub note : Dispatcher → Option String → String → Verb → Dispatcher
unfolding bucket
note d name id verb = record {
  in_flight =
      insert name (insert id (record { verb = verb; category = category_of verb }) (bucket d name))
        d.in_flight;
}

-- `send(nodeName, command)`: the session that it went out on, or what `registry.send` threw.
unfoldable pub send :
    {S : Type 0}
    → Dispatcher
    → Registry S
    → Option String
    → String
    → Verb
    → Dispatcher × Result RegistryError S
unfolding note
send d r name id verb = (note d name id verb, session_for r name none)

-- `hasInFlightCommand(nodeName, category)`
unfoldable pub has_in_flight_command : Dispatcher → Option String → String → Bool
unfolding bucket
has_in_flight_command d name category =
    exists (λ (p : Pending). p.category == category) (values (bucket d name))

-- `["succeeded", "failed", "rejected", "superseded"].includes(status)`
abbrev pub is_terminal_result : ResultStatus → Bool
is_terminal_result succeeded = true
is_terminal_result failed = true
is_terminal_result rejected = true
is_terminal_result superseded = true
is_terminal_result _ = false

-- `onCommandResult(nodeName, result)`
unfoldable pub on_command_result :
    Dispatcher → Option String → String → ResultStatus → Dispatcher × Option (Verb × ResultStatus)
unfolding bucket
on_command_result d name id status = elim (lookup id (bucket d name)) [
  | none ↦ (d, none)
  | some p ↦
      let left : Dispatcher = record {
        in_flight = insert name (delete id (bucket d name)) d.in_flight;
      } in
      (if is_terminal_result status then left else d, some (p.verb, status))
]
